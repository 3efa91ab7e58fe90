-- ===== src/PathAnalyzer/Minimize.antt =====
-- path_analyzer::minimize_path: a core by dependencies, then by the abstract semantics.
use clam.Prelude.{ℕ, Bool, true, false, List, [], ◌∷◌, ◌++◌, if◌then◌else◌}
use clam.PathAnalyzer.Interface.{Cfg, Domain, VarDom, core_not_unsat, Result, ok, err, ◌>>=◌}
use clam.PathAnalyzer.Slice.{
  trivial_explanation, not_explanation, explanation, remove_irrelevant_statements,
}

-- The static switches of the file, and their values there.
pub record Switches : Type 0 where
  pub do_sanity_check : Bool
  pub only_syntactic_core : Bool
  pub speculative_only_data : Bool

abbrev pub switches : Switches
switches = record {
  do_sanity_check = true;
  only_syntactic_core = false;
  speculative_only_data = true;
}

module _ (d : Domain) where
  open d use {Dom, is_bottom, top, transform}

  -- Interprets statements from `v` up to the first that gives bottom.
  unfoldable pub run_core : List ℕ → Dom → Dom
  run_core [] v = v
  run_core (s ∷ ss) v =
      let v' = transform s v in let rest = run_core ss v' in if is_bottom v' then v' else rest

  -- The same loop, with the flag that it sets.
  unfoldable pub reaches_bottom : List ℕ → Dom → Bool
  reaches_bottom [] v = false
  reaches_bottom (s ∷ ss) v =
      let v' = transform s v in
      let rest = reaches_bottom ss v' in if is_bottom v' then true else rest

  -- The loop that tries to do without each statement in turn: those of `kept` are enabled.
  unfoldable pub minimize_core : List ℕ → List ℕ → List ℕ
  unfolding run_core
  minimize_core kept [] = kept
  minimize_core kept (s ∷ ss) =
      minimize_core (if is_bottom (run_core (kept ++ ss) top) then kept else kept ++ (s ∷ [])) ss

  -- The semantic half, which appends to m_core and checks it.
  unfoldable pub semantic_core : Switches → List ℕ → List ℕ → Result (Bool × List ℕ)
  unfolding minimize_core reaches_bottom
  semantic_core w m_core core =
      let core' = m_core ++ minimize_core [] core in
      if w.do_sanity_check
      then (if reaches_bottom core' top then ok (true, core') else err core_not_unsat)
      else ok (true, core')

  module _ (v : VarDom) (c : Cfg) where
    -- The second round, by data and control dependencies.
    unfoldable pub second_round : Switches → List ℕ → List ℕ → ℕ → Result (Bool × List ℕ)
    unfolding remove_irrelevant_statements semantic_core
    second_round w m_core path bottom_stmt = do
      r ← remove_irrelevant_statements v c path bottom_stmt false
      elim r.0 [
        | trivial_explanation ↦ ok (true, r.1)
        | not_explanation ↦ ok (false, [])
        | explanation ↦ semantic_core w m_core r.1
      ]

    -- After the first round by data dependencies alone: is what it keeps enough?
    unfoldable pub after_data : Switches → List ℕ → List ℕ → ℕ → List ℕ → Result (Bool × List ℕ)
    unfolding second_round reaches_bottom
    after_data w m_core path bottom_stmt core =
        if reaches_bottom core top
        then semantic_core w m_core core
        else second_round w m_core path bottom_stmt

    -- The result and m_core after the call.
    unfoldable pub minimize_path : Switches → List ℕ → List ℕ → ℕ → Result (Bool × List ℕ)
    unfolding after_data
    minimize_path w m_core path bottom_stmt =
        if w.only_syntactic_core
        then (do
          r ← remove_irrelevant_statements v c path bottom_stmt false
          elim r.0 [ not_explanation ↦ ok (false, []) | _ ↦ ok (true, r.1) ])
        else (do
          r ← remove_irrelevant_statements v c path bottom_stmt w.speculative_only_data
          elim r.0 [
            | trivial_explanation ↦ ok (true, r.1)
            | not_explanation ↦ ok (false, [])
            | explanation ↦
                if w.speculative_only_data
                then after_data w m_core path bottom_stmt r.1
                else semantic_core w m_core r.1
          ])
