-- ===== src/PathAnalyzer/SolveLaws.antt =====
-- solve: what each of its answers means.
use mathlib.Core.List.{Sublist}
use mathlib.Core.List.Sublist
use clam.Prelude.{
  ℕ, Bool, true, false, List, [], ◌∷◌, ◌≡◌, refl, sym, ◌∙◌, Bool-cases, inl, inr, ◌⊎◌,
}
use clam.PathAnalyzer.Interface.{Cfg, Domain, VarDom, core_not_unsat, Result, ok, err, ◌>>=◌}
use clam.PathAnalyzer.Slice.{
  FalsePathInfo, trivial_explanation, not_explanation, explanation, is_assume_false,
  remove_irrelevant_statements,
}
use clam.PathAnalyzer.Minimize.{
  switches, reaches_bottom, minimize_core, semantic_core, second_round, after_data, minimize_path,
}
use clam.PathAnalyzer.ForwardLaws.{reaches_bottom-run_core}
use clam.PathAnalyzer.SliceLaws.{Returns}
use clam.PathAnalyzer.MinimizeLaws.{minimize_core-bottoms, minimize_core-sublist}

module _ (d : Domain) where
  -- The sanity check passes on the core of a list of statements that reaches bottom from top.
  pub semantic_core-ok :
      (core : List ℕ)
      → d.is_bottom d.top ≡ false
      → reaches_bottom d core d.top ≡ true
      → semantic_core d switches [] core ≡ ok (true, minimize_core d [] core)
  unfolding semantic_core
  semantic_core-ok core h e =
      let kept =
        minimize_core-bottoms d [] core (sym (reaches_bottom-run_core d core d.top h) ∙ e) in
      rw (reaches_bottom-run_core d (minimize_core d [] core) d.top h, kept)

module _ (d : Domain) (v : VarDom) (c : Cfg) where
  -- A core that explains why the path is false: assume(false) alone, or statements of the path in
  -- their order that reach bottom from top.
  abbrev pub Unsat : List ℕ → List ℕ → Type 0
  Unsat path core =
      ((s : ℕ) × (core ≡ s ∷ []) × (is_assume_false (c.stmt s) ≡ true))
      ⊎ (Sublist core path × (reaches_bottom d core d.top ≡ true))

  abbrev pub Answers : List ℕ → Result (Bool × List ℕ) → Type 0
  Answers path (ok (true, core)) = Unsat path core
  Answers path (ok (false, core)) = core ≡ []
  Answers path (err e) = e ≡ core_not_unsat

  semantic_core-Answers :
      (path core : List ℕ) → Sublist core path → Answers path (semantic_core d switches [] core)
  unfolding semantic_core
  semantic_core-Answers path core sub =
      elim (Bool-cases (reaches_bottom d (minimize_core d [] core) d.top)) [
        | inl e ↦ rw e (inr (Sublist.trans (minimize_core-sublist d [] core) sub, e))
        | inr e ↦ rw e refl
      ]

  second_round-Answers :
      (path : List ℕ) (i : ℕ)
      → Returns c path (remove_irrelevant_statements v c path i false)
      → Answers path (second_round d v c switches [] path i)
  unfolding second_round
  second_round-Answers path i h = by_result (remove_irrelevant_statements v c path i false) h
    where
      by_result :
          (r : Result (FalsePathInfo × List ℕ))
          → Returns c path r
          → Answers path (
              r >>= λ r. elim r.0 [
                | trivial_explanation ↦ ok (true, r.1)
                | not_explanation ↦ ok (false, [])
                | explanation ↦ semantic_core d switches [] r.1
              ])
      by_result (ok (trivial_explanation, core)) h = inl h
      by_result (ok (not_explanation, core)) h = refl
      by_result (ok (explanation, core)) h = semantic_core-Answers path core h
      by_result (err e) h = absurd h

  after_data-Answers :
      (path : List ℕ) (i : ℕ) (core : List ℕ)
      → Sublist core path
      → Returns c path (remove_irrelevant_statements v c path i false)
      → Answers path (after_data d v c switches [] path i core)
  unfolding after_data
  after_data-Answers path i core sub h = elim (Bool-cases (reaches_bottom d core d.top)) [
    | inl e ↦ rw e (semantic_core-Answers path core sub)
    | inr e ↦ rw e (second_round-Answers path i h)
  ]

  pub minimize_path-Answers :
      (path : List ℕ) (i : ℕ)
      → ((only_data : Bool) → Returns c path (remove_irrelevant_statements v c path i only_data))
      → Answers path (minimize_path d v c switches [] path i)
  unfolding minimize_path
  minimize_path-Answers path i h = by_result (remove_irrelevant_statements v c path i true) (h true)
    where
      by_result :
          (r : Result (FalsePathInfo × List ℕ))
          → Returns c path r
          → Answers path (
              r >>= λ r. elim r.0 [
                | trivial_explanation ↦ ok (true, r.1)
                | not_explanation ↦ ok (false, [])
                | explanation ↦ after_data d v c switches [] path i r.1
              ])
      by_result (ok (trivial_explanation, core)) h' = inl h'
      by_result (ok (not_explanation, core)) h' = refl
      by_result (ok (explanation, core)) h' = after_data-Answers path i core h' (h false)
      by_result (err e) h' = absurd h'
