-- ===== src/PathAnalyzer/SolveAnswers.antt =====
-- solve as a whole: its answers, in both modes, and what the layered mode hands over.
use clam.Prelude.{
  ℕ, Bool, true, false, not, List, [], ◌∷◌, ◌++◌, some, ◌≡◌, refl, ◌∙◌, get_elem?, Bool-cases, inl,
  inr, length,
}
use clam.PathAnalyzer.Interface.{
  Cfg, Domain, VarDom, not_acyclic, core_not_unsat, out_of_bounds, Result, ok, err, ◌>>=◌,
}
use clam.PathAnalyzer.Forward.{Run, PathRun, Entry, solve_path}
use clam.PathAnalyzer.Minimize.{switches, reaches_bottom, minimize_path}
use clam.PathAnalyzer.Solve.{
  PathCheck, path_ok, repeated, missing_edge, check, erase_all, Analyzer, forward, conclude, solve,
}
use clam.PathAnalyzer.ForwardLaws.{path_stmts, executed}
use clam.PathAnalyzer.PathLaws.{run_path-found, run_path-Explains, run_path_bottom, Explains}
use clam.PathAnalyzer.SliceLaws.{OwnsStmts, remove-Returns}
use clam.PathAnalyzer.SolveLaws.{Answers, Unsat, minimize_path-Answers}

module _ (c : Cfg) (d : Domain) where
  open d use {Dom, is_bottom}

  module _ (init : Dom) (path : List ℕ) (only_bool : Bool) where
    -- solve_path finds bottom exactly when the statements of the path, or only the Boolean ones,
    -- reach it from a first state that is not bottom; it appends the statements that it
    -- interpreted, up to the first that gave bottom.
    pub solve_path_lem :
        (map : List (Entry Dom)) (before : List ℕ) (k : ℕ)
        → is_bottom init ≡ false
        → ((solve_path c d init path only_bool map before k).run.found
            ≡ reaches_bottom d (path_stmts c only_bool path) init)
          × ((solve_path c d init path only_bool map before k).run.statements
              ≡ before ++ executed d (path_stmts c only_bool path) init)
    unfolding solve_path
    solve_path_lem map before k h = run_path-found c d only_bool 0 path _ h refl

    pub solve_path-Explains :
        (map : List (Entry Dom)) (before : List ℕ) (k : ℕ)
        → (solve_path c d init path only_bool map before k).run.found ≡ true
        → Explains c d only_bool (solve_path c d init path only_bool map before k).run
    unfolding solve_path
    solve_path-Explains map before k found = elim (Bool-cases (is_bottom init)) [
      | inl bot ↦ absurd (
          cc (
            run_path_bottom c d only_bool 0 path
              (record {
                run = record { value = init; statements = before; bottom_stmt = k; found = false };
                fwd_dom_map = map;
                bottom_block = length path;
              })
              bot))
      | inr go ↦ run_path-Explains c d only_bool 0 path _ go refl found
    ]

  module _ (v : VarDom) where
    -- In the layered mode, when Boolean reasoning does not find bottom, the statements that the
    -- core is computed from are the Boolean ones followed by those of the second run, which
    -- holds the Boolean ones again.
    pub forward_layered :
        (init : Dom) (path : List ℕ)
        → is_bottom init ≡ false
        → reaches_bottom d (path_stmts c true path) init ≡ false
        → (forward v d c switches init path true).run.statements
          ≡ executed d (path_stmts c true path) init ++ executed d (path_stmts c false path) init
    unfolding forward
    forward_layered init path h none_found =
        let bools = solve_path_lem init path true [] [] 0 h in
        let p = solve_path c d init path true [] [] 0 in
        let again =
          solve_path_lem init path false (erase_all path p.fwd_dom_map) p.run.statements
            p.run.bottom_stmt h in
        rw (bools.0, none_found) (again.1 ∙ rw bools.1)

    forward-Explains :
        (init : Dom) (path : List ℕ) (layered : Bool)
        → (forward v d c switches init path layered).run.found ≡ true
        → Explains c d layered (forward v d c switches init path layered).run
    unfolding forward
    forward-Explains init path false found = solve_path-Explains init path false [] [] 0 found
    forward-Explains init path true found =
        let p = solve_path c d init path true [] [] 0 in
        elim (Bool-cases p.run.found) [
          | inl e ↦ rw e (solve_path-Explains init path true [] [] 0 e)
          | inr e ↦ rw e (
              solve_path-Explains init path false (erase_all path p.fwd_dom_map) p.run.statements
                p.run.bottom_stmt (rw e at found))
        ]

    -- What each answer of solve says, for the forward run `p` of the path.
    abbrev pub SolveAnswer : List ℕ → PathRun Dom → Result (Bool × Analyzer Dom) → Type 0
    SolveAnswer path p (ok (false, a)) = (p.run.found ≡ true) × Unsat d v c p.run.statements a.core
    SolveAnswer path p (ok (true, a)) = a.core ≡ []
    SolveAnswer path p (err not_acyclic) = check c path ≡ repeated
    SolveAnswer path p (err core_not_unsat) = p.run.found ≡ true
    SolveAnswer path p (err out_of_bounds) = ⊥

    module _ (owns : OwnsStmts c) where
      explained-Answers :
          (r : Run Dom) (b s : ℕ) (front : List ℕ)
          → r.statements ≡ front ++ (s ∷ [])
          → get_elem? (c.node b) r.bottom_stmt ≡ some s
          → Answers d v c r.statements (minimize_path d v c switches [] r.statements r.bottom_stmt)
      explained-Answers r b s front e at =
          let home : get_elem? (c.node (c.parent s)) r.bottom_stmt ≡ some s =
            rw (owns.parent_of b r.bottom_stmt s at) at in
          rw e (
            minimize_path-Answers d v c (front ++ (s ∷ [])) r.bottom_stmt
              λ only_data. remove-Returns v only_data c front s r.bottom_stmt home)

      conclude-SolveAnswer :
          (path : List ℕ) (p : PathRun Dom)
          → (p.run.found ≡ true → Explains c d false p.run)
          → SolveAnswer path p (conclude v d c switches p)
      unfolding conclude
      conclude-SolveAnswer path p known = elim (Bool-cases p.run.found) [
        | inr e ↦ rw e refl
        | inl e ↦
            let (b, s, front, shape, at) = known e in
            simp e (
              by_result e (minimize_path d v c switches [] p.run.statements p.run.bottom_stmt)
                (explained-Answers p.run b s front shape at))
      ]
        where
          by_result :
              p.run.found ≡ true
              → (r : Result (Bool × List ℕ)) → Answers d v c p.run.statements r
              → SolveAnswer path p
                  (r >>= λ r. ok (not r.0, record { fwd_dom_map = p.fwd_dom_map; core = r.1 }))
          by_result f (ok (true, core)) h = (f, h)
          by_result f (ok (false, core)) h = h
          by_result f (err not_acyclic) h = absurd (cc h)
          by_result f (err core_not_unsat) h = f
          by_result f (err out_of_bounds) h = absurd (cc h)

      -- Every answer of solve, in either mode. It is false only if the forward analysis of the
      -- path found bottom, and then the core explains it: assume(false) alone, or statements that
      -- were interpreted, in their order, that reach bottom from top. When it is true there is no
      -- core. An error is a path with a repeated block, or a core that fails the sanity check
      -- after bottom was found; no vector is ever indexed out of its bounds. Each statement is
      -- taken to stand in one block, its parent.
      pub solve-answers :
          (init : Dom) (path : List ℕ) (layered : Bool)
          → SolveAnswer path
              (forward v d c switches init path layered)
              (solve v d c switches init path layered)
      unfolding solve
      solve-answers init [] layered = refl
      solve-answers init (b ∷ bs) layered = by_check (check c (b ∷ bs)) refl
        where
          by_check :
              (r : PathCheck)
              → check c (b ∷ bs) ≡ r
              → SolveAnswer (b ∷ bs) (forward v d c switches init (b ∷ bs) layered) (elim r [
                | repeated ↦ err not_acyclic
                | missing_edge ↦ ok (true, record { fwd_dom_map = []; core = [] })
                | path_ok ↦ conclude v d c switches (forward v d c switches init (b ∷ bs) layered)
              ])
          by_check path_ok e =
              conclude-SolveAnswer (b ∷ bs) (forward v d c switches init (b ∷ bs) layered)
                (forward-Explains init (b ∷ bs) layered)
          by_check repeated e = e
          by_check missing_edge e = refl
