-- ===== src/PathAnalyzer/Forward.antt =====
-- path_analyzer::solve_path: the forward analysis of a path, block by block.
use clam.Prelude.{
  ℕ, suc, Bool, true, false, not, ◌&&◌, List, [], ◌∷◌, ◌++◌, Option, none, some, ◌==◌,
  if◌then◌else◌, length,
}
use clam.PathAnalyzer.Interface.{
  Kind, bool_assume, bool_assert, bool_bin_op, bool_assign_cst, bool_assign_var, bool_select, Cfg,
  Domain,
}

-- The statements that Boolean reasoning keeps.
unfoldable pub is_bool_stmt : Kind → Bool
is_bool_stmt bool_bin_op = true
is_bool_stmt bool_assign_cst = true
is_bool_stmt bool_assign_var = true
is_bool_stmt bool_assume = true
is_bool_stmt bool_assert = true
is_bool_stmt bool_select = true
is_bool_stmt _ = false

-- m_fwd_dom_map, an unordered_map from blocks to abstract states.
pub record Entry (D : Type 0) : Type 0 where
  pub block : ℕ
  pub state : D

unfoldable pub find : {D : Type 0} → ℕ → List (Entry D) → Option D
find b [] = none
find b (e ∷ es) = if e.block == b then some e.state else find b es

-- insert only where find fails
unfoldable pub insert_new : {D : Type 0} → ℕ → D → List (Entry D) → List (Entry D)
unfolding find
insert_new b v m = elim (find b m) [ none ↦ record { block = b; state = v } ∷ m | some _ ↦ m ]

-- The locals of solve_path: the transformer's value, the statements interpreted so far,
-- bottom_stmt, and whether this run found bottom.
pub record Run (D : Type 0) : Type 0 where
  pub value : D
  pub statements : List ℕ
  pub bottom_stmt : ℕ
  pub found : Bool

pub record PathRun (D : Type 0) : Type 0 where
  pub run : Run D
  pub fwd_dom_map : List (Entry D)
  pub bottom_block : ℕ

module _ (c : Cfg) (d : Domain) where
  open c use {node, stmt}
  open d use {Dom, is_bottom, transform}

  -- The loop over the statements of one block.
  unfoldable pub run_block : Bool → List ℕ → Run Dom → Run Dom
  unfolding is_bool_stmt
  run_block only_bool [] r = r
  run_block only_bool (s ∷ ss) r =
      let skipped = run_block only_bool ss (record r { bottom_stmt = suc r.bottom_stmt }) in
      let v = transform s r.value in
      let pushed = r.statements ++ (s ∷ []) in
      let rest =
        run_block only_bool ss
          (record r { value = v; statements = pushed; bottom_stmt = suc r.bottom_stmt }) in
      if only_bool && not (is_bool_stmt (stmt s).kind)
      then skipped
      else if is_bottom v
      then record r { value = v; statements = pushed; found = true }
      else rest

  -- The loop over the blocks of the path; `i` is the position of the first of them.
  unfoldable pub run_path : Bool → ℕ → List ℕ → PathRun Dom → PathRun Dom
  unfolding run_block insert_new
  run_path only_bool i [] p = p
  run_path only_bool i (b ∷ bs) p =
      let map' = insert_new b p.run.value p.fwd_dom_map in
      let r = run_block only_bool (node b) (record p.run { bottom_stmt = 0; found = false }) in
      let block' = if r.found && not p.run.found then i else p.bottom_block in
      let found' = if r.found then true else p.run.found in
      let rest =
        run_path only_bool (suc i) bs (record {
          run = record r { found = found' };
          fwd_dom_map = map';
          bottom_block = block';
        }) in
      if is_bottom p.run.value then p else rest

  -- solve_path, over the map, the statements and bottom_stmt that the caller passes.
  unfoldable pub solve_path : Dom → List ℕ → Bool → List (Entry Dom) → List ℕ → ℕ → PathRun Dom
  unfolding run_path
  solve_path init path only_bool map statements stmt_in = run_path only_bool 0 path (record {
    run = record { value = init; statements = statements; bottom_stmt = stmt_in; found = false };
    fwd_dom_map = map;
    bottom_block = length path;
  })

  -- get_fwd_constraints: a block that has no entry is unreachable.
  unfoldable pub get_fwd_constraints : List (Entry Dom) → ℕ → Dom
  unfolding find
  get_fwd_constraints map b = elim (find b map) [ some v ↦ v | none ↦ d.bottom ]
