-- ===== src/PathAnalyzer/Solve.antt =====
-- path_analyzer::solve: the checks of the path, the forward analysis and the core.
use clam.Prelude.{ℕ, Bool, true, false, not, List, [], ◌∷◌, ◌==◌, if◌then◌else◌, elem}
use clam.PathAnalyzer.Interface.{Cfg, Domain, VarDom, not_acyclic, Result, ok, err, ◌>>=◌}
use clam.PathAnalyzer.Forward.{Entry, PathRun, solve_path}
use clam.PathAnalyzer.Minimize.{Switches, minimize_path}

-- has_kid
unfoldable pub has_kid : Cfg → ℕ → ℕ → Bool
has_kid c b1 b2 = elem b2 (c.next_nodes b1)

pub data PathCheck : Type 0 where
  path_ok repeated missing_edge : PathCheck

-- The loop over a path of two blocks or more, with the blocks visited so far.
unfoldable pub check_path : Cfg → List ℕ → List ℕ → PathCheck
unfolding has_kid
check_path c visited [] = path_ok
check_path c visited (b ∷ []) = if elem b visited then repeated else path_ok
check_path c visited (b ∷ b' ∷ bs) =
    let rest = check_path c (b ∷ visited) (b' ∷ bs) in
    if elem b visited then repeated else if has_kid c b b' then rest else missing_edge

unfoldable pub check : Cfg → List ℕ → PathCheck
unfolding check_path
check c [] = path_ok
check c (b ∷ []) = path_ok
check c (b ∷ b' ∷ bs) = check_path c [] (b ∷ b' ∷ bs)

-- The loop that erases the blocks of the path from m_fwd_dom_map.
unfoldable pub erase : {D : Type 0} → ℕ → List (Entry D) → List (Entry D)
erase b [] = []
erase b (e ∷ es) = let rest = erase b es in if e.block == b then rest else e ∷ rest

unfoldable pub erase_all : {D : Type 0} → List ℕ → List (Entry D) → List (Entry D)
unfolding erase
erase_all [] m = m
erase_all (b ∷ bs) m = erase_all bs (erase b m)

-- The members that solve changes.
pub record Analyzer (D : Type 0) : Type 0 where
  pub fwd_dom_map : List (Entry D)
  pub core : List ℕ

module _ (v : VarDom) (d : Domain) (c : Cfg) (w : Switches) where
  open d use {Dom}

  -- Boolean reasoning first, if `layered`; the second run goes on from the statements of the first.
  unfoldable pub forward : Dom → List ℕ → Bool → PathRun Dom
  unfolding solve_path erase_all
  forward init path layered =
      let plain = solve_path c d init path false [] [] 0 in
      let bools = solve_path c d init path true [] [] 0 in
      let again =
        solve_path c d init path false (erase_all path bools.fwd_dom_map) bools.run.statements
          bools.run.bottom_stmt in
      if layered then (if bools.run.found then bools else again) else plain

  -- The answer from a forward run: with bottom found, true still if there is no explanation.
  unfoldable pub conclude : PathRun Dom → Result (Bool × Analyzer Dom)
  unfolding minimize_path
  conclude p =
      if p.run.found
      then (do
        r ← minimize_path d v c w [] p.run.statements p.run.bottom_stmt
        ok (not r.0, record { fwd_dom_map = p.fwd_dom_map; core = r.1 }))
      else ok (true, record { fwd_dom_map = p.fwd_dom_map; core = [] })

  unfoldable pub solve : Dom → List ℕ → Bool → Result (Bool × Analyzer Dom)
  unfolding check forward conclude
  solve init [] layered = ok (true, record { fwd_dom_map = []; core = [] })
  solve init (b ∷ bs) layered = elim (check c (b ∷ bs)) [
    | repeated ↦ err not_acyclic
    | missing_edge ↦ ok (true, record { fwd_dom_map = []; core = [] })
    | path_ok ↦ conclude (forward init (b ∷ bs) layered)
  ]
