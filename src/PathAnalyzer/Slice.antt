-- ===== src/PathAnalyzer/Slice.antt =====
-- path_analyzer::remove_irrelevant_statements: a core by data and control dependencies.
use clam.Prelude.{
  ℕ, Bool, true, false, not, ◌&&◌, ◌||◌, List, [], ◌∷◌, Option, none, some, ◌==◌, if◌then◌else◌,
  last?, get_elem?, reverse,
}
use clam.PathAnalyzer.Interface.{
  Kind, assume, bool_assume, ref_assume, assert, bool_assert, ref_assert, Stmt, Cfg, VarDom,
  out_of_bounds, Result, ok, err,
}

pub data FalsePathInfo : Type 0 where
  trivial_explanation not_explanation explanation : FalsePathInfo

-- bool_assume(false) is no part of CrabIR.
unfoldable pub is_contradiction : Kind → Bool → Bool
is_contradiction assume b = b
is_contradiction ref_assume b = b
is_contradiction _ b = false

unfoldable pub is_assume_false : Stmt → Bool
unfolding is_contradiction
is_assume_false s = is_contradiction s.kind s.contradiction

-- The loop over parent_bb from its last statement back.
unfoldable pub find_assume_false : (ℕ → Stmt) → List ℕ → Option ℕ
unfolding is_assume_false
find_assume_false stmt [] = none
find_assume_false stmt (s ∷ ss) =
    if is_assume_false (stmt s) then some s else find_assume_false stmt ss

-- The part of the core before its last occurrence of `target`; the core is given from its end.
unfoldable pub before_last : ℕ → List ℕ → Option (List ℕ)
before_last target [] = none
before_last target (s ∷ ss) = if s == target then some ss else before_last target ss

module _ (v : VarDom) where
  open v use {Set, empty, add, join, minus, meet, is_empty}

  unfoldable pub set_of : List ℕ → Set
  set_of [] = empty
  set_of (x ∷ xs) = add (set_of xs) x

  unfoldable pub criteria_of : Kind → List ℕ → Set
  unfolding set_of
  criteria_of assume xs = set_of xs
  criteria_of bool_assume xs = set_of xs
  criteria_of ref_assume xs = set_of xs
  criteria_of assert xs = set_of xs
  criteria_of bool_assert xs = set_of xs
  criteria_of ref_assert xs = set_of xs
  criteria_of _ xs = empty

  unfoldable pub slice_criteria : Stmt → Set
  unfolding criteria_of
  slice_criteria s = criteria_of s.kind s.variables

  -- One round of the backward loop: whether the statement is enabled, and the set after it.
  unfoldable pub relevant : Bool → Set → Stmt → Bool × Set
  unfolding set_of
  relevant only_data d s =
      let uses = set_of s.uses in
      let defs = set_of s.defs in
      if is_empty defs && not (is_empty uses)
      then (if not only_data || not (is_empty (meet uses d))
          then (true, join d uses)
          else (false, d))
      else if not (is_empty (meet d defs))
      then (true, join (minus d defs) uses)
      else (false, d)

  -- The backward loop; `kept` holds the enabled statements of the part that is done.
  unfoldable pub slice : Bool → (ℕ → Stmt) → Set → List ℕ → List ℕ → List ℕ
  unfolding relevant
  slice only_data stmt d [] kept = kept
  slice only_data stmt d (s ∷ ss) kept =
      let (enabled, d') = relevant only_data d (stmt s) in
      slice only_data stmt d' ss (if enabled then s ∷ kept else kept)

  module _ (c : Cfg) where
    open c use {node, stmt, parent}

    -- From the statement where bottom was first found, once it is known.
    unfoldable pub slice_from : Bool → ℕ → List ℕ → Result (FalsePathInfo × List ℕ)
    unfolding slice_criteria before_last slice
    slice_from only_data last_stmt core =
        let d = slice_criteria (stmt last_stmt) in
        if is_empty d
        then ok (not_explanation, core)
        else elim (before_last last_stmt (reverse core)) [
          | none ↦ err out_of_bounds
          | some earlier ↦ ok (explanation, slice only_data stmt d earlier (last_stmt ∷ []))
        ]

    -- The core has two statements or more.
    unfoldable pub remove_by_block : Bool → ℕ → List ℕ → List ℕ → Result (FalsePathInfo × List ℕ)
    unfolding slice_from find_assume_false
    remove_by_block only_data bottom_stmt block core =
        elim (find_assume_false stmt (reverse block)) [
          | some s ↦ ok (trivial_explanation, s ∷ [])
          | none ↦ elim (get_elem? block bottom_stmt) [
            | none ↦ ok (not_explanation, core)
            | some last_stmt ↦ slice_from only_data last_stmt core
          ]
        ]

    unfoldable pub remove_irrelevant_statements :
        List ℕ → ℕ → Bool → Result (FalsePathInfo × List ℕ)
    unfolding remove_by_block is_assume_false
    remove_irrelevant_statements [] bottom_stmt only_data = err out_of_bounds
    remove_irrelevant_statements (s ∷ []) bottom_stmt only_data =
        if is_assume_false (stmt s)
        then ok (trivial_explanation, s ∷ [])
        else ok (explanation, s ∷ [])
    remove_irrelevant_statements (s ∷ t ∷ r) bottom_stmt only_data = elim (last? (t ∷ r)) [
      | none ↦ err out_of_bounds
      | some last ↦ remove_by_block only_data bottom_stmt (node (parent last)) (s ∷ t ∷ r)
    ]
