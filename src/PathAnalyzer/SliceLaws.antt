-- ===== src/PathAnalyzer/SliceLaws.antt =====
-- remove_irrelevant_statements: its result on each branch, and what the backward loop drops.
use mathlib.Core.List.{Sublist, append_assoc, reverse-cons, reverse-append, reverse-reverse}
use mathlib.Core.List.Sublist
use clam.Prelude.{
  ℕ, Bool, true, List, [], ◌∷◌, ◌++◌, some, ◌≡◌, refl, last?-append, get_elem?, reverse, arith,
  Bool-cases, Option-cases, inl, inr, ==_refl,
}
use clam.PathAnalyzer.Interface.{Stmt, Cfg, VarDom, Result, ok, err}
use clam.PathAnalyzer.Slice.{
  FalsePathInfo, trivial_explanation, not_explanation, explanation, is_assume_false,
  find_assume_false, before_last, slice_criteria, relevant, slice, slice_from, remove_by_block,
  remove_irrelevant_statements,
}

-- A statement stands in one block, its parent.
pub record OwnsStmts (c : Cfg) : Type 0 where
  pub parent_of : (b i s : ℕ) → get_elem? (c.node b) i ≡ some s → c.parent s ≡ b

find_assume_false_sound :
    (stmt : ℕ → Stmt) (ss : List ℕ) {s : ℕ}
    → find_assume_false stmt ss ≡ some s
    → is_assume_false (stmt s) ≡ true
unfolding find_assume_false
find_assume_false_sound stmt [] h = ground arith
find_assume_false_sound stmt (t ∷ ss) h = elim (Bool-cases (is_assume_false (stmt t))) [
  | inl e ↦ let same : some t ≡ some _ = rw e at h in ground arith
  | inr e ↦ find_assume_false_sound stmt ss (rw e at h)
]

-- What a core is, for each answer: a trivial one is a single assume(false), and an explanation
-- keeps statements of the path in their order.
abbrev pub IsCore : Cfg → List ℕ → FalsePathInfo × List ℕ → Type 0
IsCore c path (trivial_explanation, core) =
    (s : ℕ) × (core ≡ s ∷ []) × (is_assume_false (c.stmt s) ≡ true)
IsCore c path (not_explanation, core) = core ≡ path
IsCore c path (explanation, core) = Sublist core path

abbrev pub Returns : Cfg → List ℕ → Result (FalsePathInfo × List ℕ) → Type 0
Returns c path (ok r) = IsCore c path r
Returns c path (err e) = ⊥

module _ (v : VarDom) (only_data : Bool) where
  slice-sublist :
      (stmt : ℕ → Stmt) (d : v.Set) (ss kept later : List ℕ)
      → Sublist kept later
      → Sublist (slice v only_data stmt d ss kept) (reverse ss ++ later)
  unfolding slice
  slice-sublist stmt d [] kept later h = h
  slice-sublist stmt d (s ∷ ss) kept later h =
      let r = relevant v only_data d (stmt s) in
      let shape : reverse (s ∷ ss) ++ later ≡ reverse ss ++ (s ∷ later) =
        rw (reverse-cons s ss) (append_assoc (reverse ss) (s ∷ []) later) in
      rw shape (elim (Bool-cases r.0) [
        | inl e ↦ rw e (slice-sublist stmt r.1 ss (s ∷ kept) (s ∷ later) (Sublist.cons-cons s h))
        | inr e ↦ rw e (slice-sublist stmt r.1 ss kept (s ∷ later) (Sublist.cons s h))
      ])

  module _ (c : Cfg) (front : List ℕ) (s : ℕ) where
    abbrev whole : List ℕ
    whole = front ++ (s ∷ [])

    slice_from-Returns : Returns c whole (slice_from v c only_data s whole)
    unfolding slice_from before_last
    slice_from-Returns =
        let d = slice_criteria v (c.stmt s) in
        let back : reverse whole ≡ s ∷ reverse front = reverse-append front (s ∷ []) in
        elim (Bool-cases (v.is_empty d)) [
          | inl e ↦ rw e refl
          | inr e ↦
              rw (e, back, before_last, ==_refl s)
                (let below =
                    slice-sublist c.stmt d (reverse front) (s ∷ []) (s ∷ [])
                      (Sublist.refl (s ∷ [])) in
                  rw (reverse-reverse front) at below)
        ]

    remove_by_block-Returns :
        (block : List ℕ) (i : ℕ)
        → get_elem? block i ≡ some s
        → Returns c whole (remove_by_block v c only_data i block whole)
    unfolding remove_by_block
    remove_by_block-Returns block i h =
        elim (Option-cases (find_assume_false c.stmt (reverse block))) [
          | inl e ↦ rw (e, h, remove_by_block) slice_from-Returns
          | inr (t, e) ↦
              rw (e, remove_by_block) (t, refl, find_assume_false_sound c.stmt (reverse block) e)
        ]

-- With the last statement the one at bottom_stmt of its block, no access is out of bounds.
module _ (v : VarDom) (only_data : Bool) (c : Cfg) where
  pub remove-Returns :
      (front : List ℕ) (s i : ℕ)
      → get_elem? (c.node (c.parent s)) i ≡ some s
      → Returns c
          (front ++ (s ∷ []))
          (remove_irrelevant_statements v c (front ++ (s ∷ [])) i only_data)
  unfolding remove_irrelevant_statements
  remove-Returns [] s i h = elim (Bool-cases (is_assume_false (c.stmt s))) [
    | inl e ↦ rw e (s, refl, e)
    | inr e ↦ rw e (Sublist.refl (s ∷ []))
  ]
  remove-Returns (f ∷ []) s i h =
      remove_by_block-Returns v only_data c (f ∷ []) s (c.node (c.parent s)) i h
  remove-Returns (f ∷ g ∷ r) s i h =
      rw (last?-append (g ∷ r) s, remove_irrelevant_statements)
        (remove_by_block-Returns v only_data c (f ∷ g ∷ r) s (c.node (c.parent s)) i h)
