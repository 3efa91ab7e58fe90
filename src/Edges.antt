-- ===== src/Edges.antt =====
-- lib/Clam/CfgBuilder.cc: execEdge and addBlockInBetween, the block of an edge of the LLVM function;
-- and the part of buildCfg that puts the assignments of PHI nodes into it.

pub mod Guards
pub mod Unsigned
pub mod Links
use clam.Prelude.{
  ℕ, ◌+◌, ◌≡◌, Bool, true, false, not, ◌&&◌, ◌||◌, List, [], ◌∷◌, ◌++◌, map, Option, none, some,
  ◌==◌, if◌then◌else◌,
}
use clam.Llvm.{Predicate, icmp_ugt, icmp_uge, icmp_ult, icmp_ule, Icmp}
use clam.Lit.Values.{Value, Params, Var, VarFactory, is_bool, is_integer, is_reference}
use clam.Lit.Consts.{ApInt}
use clam.Lit.Literal.{Checked, ok, clam_error, Lit, bool_var}
use clam.Lit.Factory.{Factory, get_lit}
use clam.Compare.Crab.{LinCst, CstTests}
use clam.Compare.Crab as Cst
use clam.Compare.Insts.{CmpInst, cmp_inst_to_crab_int, unsigned_cmp_inst_to_crab_int}
use clam.Ir.{RefCst, Stmt, comparison, assume, bool_assume, assume_ref, unreachable}
use clam.Uses.{Users, all_uses_are_br_or_int_select_cond_inst, no_verifier_call}
use clam.Ops.Refs.{cmp_inst_to_crab_ref}

-- The condition of a branch: a constant, a constant expression, a comparison, or another value.
pub data Condition : Type 0 where
  constant_int : ℕ → Condition
  constant_expr : Condition
  cmp_inst : CmpInst → Condition
  other_value : ℕ → Condition

-- BranchInst with its condition and its two successors, and the other terminators.
pub data Terminator : Type 0 where
  cond_br : Condition → ℕ → ℕ → Terminator
  uncond_br : ℕ → Terminator
  switch_inst : Terminator
  other_terminator : Terminator

-- CmpInst::isUnsigned
unfoldable pub pred_is_unsigned : Predicate → Bool
pred_is_unsigned icmp_ugt = true
pred_is_unsigned icmp_uge = true
pred_is_unsigned icmp_ult = true
pred_is_unsigned icmp_ule = true
pred_is_unsigned _ = false

-- Which of the translations a comparison gets, by the types of its operands.
pub data OperandKind : Type 0 where
  both_bool both_int both_ref neither : OperandKind

-- Crab's control flow graph: the edges between its blocks.
pub record GraphOps : Type 1 where
  pub Graph : Type 0
  pub insert : ℕ → Graph → Graph
  pub link : ℕ → ℕ → Graph → Graph
  pub unlink : ℕ → ℕ → Graph → Graph
  pub linked : Graph → ℕ → ℕ → Bool

unfoldable pub add_block_in_between : (g : GraphOps) → ℕ → ℕ → ℕ → g.Graph → g.Graph
add_block_in_between g src dst bb graph = g.link bb dst (g.link src bb (g.unlink src dst graph))

module _ {half : ℕ} (m : Icmp half) (f : VarFactory) (value_at : ℕ → Value) (ap : (w : ℕ) → ApInt w)
    (content_width : ℕ → ℕ) (params : Params) (tests : CstTests) (negate : RefCst → RefCst)
    (uses_of : ℕ → Users) where
  open f use {State}

  abbrev pub Emitted : Type 0
  Emitted = Checked (List Stmt × Factory State)

  unfoldable pub operand_kind : CmpInst → OperandKind
  unfolding is_bool is_integer is_reference
  operand_kind i =
      let t0 = (value_at i.v0).type in
      let t1 = (value_at i.v1).type in
      if is_bool t0 && is_bool t1
      then both_bool
      else (if is_integer t0 && is_integer t1
          then both_int
          else (if is_reference t0 params && is_reference t1 params then both_ref else neither))

  abbrev assume_unsigned : Checked (Option (Var × List Cst.Stmt) × Factory State) → Emitted
  assume_unsigned (ok (some (x, block), fac)) =
      ok (map comparison block ++ (bool_assume x false ∷ []), fac)
  assume_unsigned (ok (none, fac)) = ok ([], fac)
  assume_unsigned clam_error = clam_error

  abbrev pub assume_int : Option LinCst × Factory State → Emitted
  assume_int (some c, fac) = ok (assume c ∷ [], fac)
  assume_int (none, fac) = ok ([], fac)

  abbrev pub assume_reference : Checked (Option RefCst × Factory State) → Emitted
  assume_reference (ok (some c, fac)) = ok (assume_ref c ∷ [], fac)
  assume_reference (ok (none, fac)) = ok ([], fac)
  assume_reference clam_error = clam_error

  -- The assumption that stands for the comparison itself.
  unfoldable pub assume_cmp : OperandKind → CmpInst → Bool → Factory State → Emitted
  unfolding pred_is_unsigned unsigned_cmp_inst_to_crab_int cmp_inst_to_crab_int cmp_inst_to_crab_ref
  assume_cmp both_int i negated fac =
      if params.lower_unsigned_icmp && pred_is_unsigned i.pred
      then assume_unsigned
          (unsigned_cmp_inst_to_crab_int m f value_at ap content_width params tests i negated fac)
      else assume_int
          (cmp_inst_to_crab_int m f value_at ap content_width params tests i negated fac)
  assume_cmp both_ref i negated fac =
      assume_reference
        (cmp_inst_to_crab_ref negate m f value_at ap content_width params i negated fac)
  assume_cmp _ i negated fac = ok ([], fac)

  -- Whether the Boolean variable of the comparison is assumed as well.
  unfoldable pub lower_cond_as_bool : OperandKind → CmpInst → Bool
  unfolding all_uses_are_br_or_int_select_cond_inst no_verifier_call
  lower_cond_as_bool both_bool i = true
  lower_cond_as_bool _ i =
      not (all_uses_are_br_or_int_select_cond_inst params no_verifier_call (uses_of i.self))

  unfoldable pub assume_lit : List Stmt → Bool → Option Lit × Factory State → Emitted
  assume_lit block negated (some (bool_var x), fac) =
      ok (block ++ (bool_assume x negated ∷ []), fac)
  assume_lit block negated (_, fac) = clam_error

  unfoldable pub then_bool : Bool → ℕ → Bool → Emitted → Emitted
  unfolding assume_lit
  then_bool lower self negated clam_error = clam_error
  then_bool false self negated (ok (block, fac)) = ok (block, fac)
  then_bool true self negated (ok (block, fac)) =
      assume_lit block negated (get_lit f value_at ap content_width params self true fac)

  -- The statements of the block of an edge, from whether the edge is to the second successor and
  -- whether it is to the first.
  unfoldable pub edge_block : Condition → Bool → Bool → Factory State → Emitted
  unfolding then_bool assume_cmp lower_cond_as_bool operand_kind
  edge_block (constant_int n) to_first to_second fac =
      if (n == 1 && not to_first) || (n == 0 && not to_second)
      then ok (unreachable ∷ [], fac)
      else ok ([], fac)
  edge_block constant_expr to_first to_second fac = ok ([], fac)
  edge_block (cmp_inst i) to_first to_second fac =
      let kind = operand_kind i in
      then_bool (lower_cond_as_bool kind i) i.self to_second (assume_cmp kind i to_second fac)
  edge_block (other_value v) to_first to_second fac = then_bool true v to_second (ok ([], fac))

  -- The graph, the number of the last block and the factory.
  pub record EdgeState (g : GraphOps) : Type 0 where
    pub graph : g.Graph
    pub id : ℕ
    pub factory : Factory State

  -- The new block, where there is one: its number and its statements.
  abbrev pub with_block :
      (g : GraphOps) → g.Graph → ℕ → Emitted → Checked (Option (ℕ × List Stmt) × EdgeState g)
  with_block g graph id (ok (block, fac)) =
      ok (some (id, block), record { graph = graph; id = id; factory = fac })
  with_block g graph id clam_error = clam_error

  -- `node` is the number of Crab's block for a block of the function.
  unfoldable pub exec_edge :
      (g : GraphOps)
      → (ℕ → ℕ)
      → Terminator
      → ℕ
      → ℕ
      → EdgeState g
      → Checked (Option (ℕ × List Stmt) × EdgeState g)
  unfolding edge_block add_block_in_between
  exec_edge g node (cond_br c succ0 succ1) src dst s =
      let id = s.id + 1 in
      let graph = add_block_in_between g (node src) (node dst) id (g.insert id s.graph) in
      with_block g graph id (edge_block c (succ0 == dst) (succ1 == dst) s.factory)
  exec_edge g node (uncond_br succ) src dst s =
      ok (none, record s { graph = g.link (node src) (node dst) s.graph })
  exec_edge g node switch_inst src dst s =
      ok (none, record s { graph = g.link (node src) (node dst) s.graph })
  exec_edge g node other_terminator src dst s = ok (none, s)

-- buildCfg: the assignments of the PHI nodes are put at the front of the block of a self-loop, and at
-- the back of any other.
unfoldable pub with_phis : ℕ → ℕ → List Stmt → List Stmt → List Stmt
with_phis src dst phis block = if src == dst then phis ++ block else block ++ phis
