-- ===== src/PathAnalyzer/SliceRuns.antt =====
-- remove_irrelevant_statements against concrete runs.
use mathlib.Core.List.{reverse-append, reverse-reverse}
use clam.Prelude.{
  ℕ, Bool, true, false, List, [], ◌∷◌, ◌++◌, some, ◌≡◌, ◌∙◌, subst, last?-append, get_elem?,
  reverse, elem, Bool-cases, Option-cases, inl, inr, ==_refl,
}
use clam.PathAnalyzer.Interface.{
  Kind, Stmt, Cfg, VarDom, VarDomLaws, Result, ok, assume, bool_assume, ref_assume, assert,
  bool_assert, ref_assert,
}
use clam.PathAnalyzer.Slice.{
  FalsePathInfo, explanation, is_assume_false, find_assume_false, before_last, criteria_of,
  slice_criteria, slice_from, remove_by_block, remove_irrelevant_statements,
}
use clam.PathAnalyzer.SliceSound.{Concrete, Runs, has-set_of, slice-Runs}

-- An assume or assert uses the variables of its constraint.
abbrev pub IsCondition : Kind → Type 0
IsCondition assume = Unit
IsCondition bool_assume = Unit
IsCondition ref_assume = Unit
IsCondition assert = Unit
IsCondition bool_assert = Unit
IsCondition ref_assert = Unit
IsCondition _ = ⊥

pub record UsesVariables (stmt : ℕ → Stmt) : Type 0 where
  pub uses_of :
      (s x : ℕ)
      → IsCondition (stmt s).kind
      → elem x (stmt s).uses ≡ true
      → elem x (stmt s).variables ≡ true

module _ (v : VarDom) (laws : VarDomLaws v) (c : Cfg) (known : UsesVariables c.stmt)
    (k : Concrete c.stmt) (only_data : Bool) where
  -- An explanation runs wherever the path does.
  abbrev Keeps : List ℕ → Result (FalsePathInfo × List ℕ) → Type 0
  Keeps path (ok (explanation, core)) = (σ : ℕ → k.Val) → Runs k path σ → Runs k core σ
  Keeps path _ = Unit {0}

  criteria_of-has :
      (kind : Kind) (variables uses : List ℕ) (x : ℕ)
      → (IsCondition kind → elem x uses ≡ true → elem x variables ≡ true)
      → v.is_empty (criteria_of v kind variables) ≡ false
      → elem x uses ≡ true
      → v.has x (criteria_of v kind variables) ≡ true
  unfolding criteria_of
  criteria_of-has assume xs us x sub h e = has-set_of v laws x xs ∙ sub tt e
  criteria_of-has bool_assume xs us x sub h e = has-set_of v laws x xs ∙ sub tt e
  criteria_of-has ref_assume xs us x sub h e = has-set_of v laws x xs ∙ sub tt e
  criteria_of-has assert xs us x sub h e = has-set_of v laws x xs ∙ sub tt e
  criteria_of-has bool_assert xs us x sub h e = has-set_of v laws x xs ∙ sub tt e
  criteria_of-has ref_assert xs us x sub h e = has-set_of v laws x xs ∙ sub tt e
  criteria_of-has _ xs us x sub h e = absurd (cc (laws.is_empty-empty))

  criteria_has :
      (s x : ℕ)
      → v.is_empty (slice_criteria v (c.stmt s)) ≡ false
      → elem x (c.stmt s).uses ≡ true
      → v.has x (slice_criteria v (c.stmt s)) ≡ true
  unfolding slice_criteria
  criteria_has s x =
      criteria_of-has (c.stmt s).kind (c.stmt s).variables (c.stmt s).uses x
        (λ cond. known.uses_of s x cond)

  slice_from-Keeps :
      (front : List ℕ) (s : ℕ)
      → Keeps (front ++ (s ∷ [])) (slice_from v c only_data s (front ++ (s ∷ [])))
  unfolding slice_from before_last
  slice_from-Keeps front s =
      let d = slice_criteria v (c.stmt s) in
      let back : reverse (front ++ (s ∷ [])) ≡ s ∷ reverse front = reverse-append front (s ∷ []) in
      elim (Bool-cases (v.is_empty d)) [
        | inl e ↦ rw e tt
        | inr e ↦
            rw (e, back, before_last, ==_refl s)
              λ σ run.
                slice-Runs v laws k only_data d (reverse front) (s ∷ []) (s ∷ [])
                  (λ α β agree one.
                    let (τ', step, defs) =
                      k.local s α one.0 β one.1 (λ x hx. agree x (criteria_has s x e hx)) in
                    (τ', step, tt))
                  σ (rw (reverse-reverse front) run)
      ]

  remove_by_block-Keeps :
      (front : List ℕ) (s i : ℕ) (block : List ℕ)
      → get_elem? block i ≡ some s
      → Keeps (front ++ (s ∷ [])) (remove_by_block v c only_data i block (front ++ (s ∷ [])))
  unfolding remove_by_block
  remove_by_block-Keeps front s i block h =
      elim (Option-cases (find_assume_false c.stmt (reverse block))) [
        | inl e ↦ rw (e, h, remove_by_block) (slice_from-Keeps front s)
        | inr (t, e) ↦ rw (e, remove_by_block) tt
      ]

  pub remove-Keeps :
      (front : List ℕ) (s i : ℕ)
      → get_elem? (c.node (c.parent s)) i ≡ some s
      → Keeps (front ++ (s ∷ [])) (remove_irrelevant_statements v c (front ++ (s ∷ [])) i only_data)
  unfolding remove_irrelevant_statements
  remove-Keeps [] s i h = elim (Bool-cases (is_assume_false (c.stmt s))) [
    | inl e ↦ rw e tt
    | inr e ↦ rw e (λ σ run. run)
  ]
  remove-Keeps (f ∷ []) s i h = remove_by_block-Keeps (f ∷ []) s i (c.node (c.parent s)) h
  remove-Keeps (f ∷ g ∷ r) s i h =
      rw (last?-append (g ∷ r) s, remove_irrelevant_statements)
        (remove_by_block-Keeps (f ∷ g ∷ r) s i (c.node (c.parent s)) h)

  -- If no concrete run takes the core that remove_irrelevant_statements gives as an explanation,
  -- none takes the path. This holds with and without control dependencies, of a path that ends in
  -- the statement at bottom_stmt of its block, for statements that change only what they define
  -- and depend only on what they use.
  pub remove-infeasible :
      (front : List ℕ) (s i : ℕ) (core : List ℕ)
      → get_elem? (c.node (c.parent s)) i ≡ some s
      → remove_irrelevant_statements v c (front ++ (s ∷ [])) i only_data ≡ ok (explanation, core)
      → ((σ : ℕ → k.Val) → ¬ Runs k core σ)
      → (σ : ℕ → k.Val) → ¬ Runs k (front ++ (s ∷ [])) σ
  remove-infeasible front s i core h e none_runs σ run =
      none_runs σ (subst (Keeps (front ++ (s ∷ []))) e (remove-Keeps front s i h) σ run)
