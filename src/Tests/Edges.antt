-- ===== src/Tests/Edges.antt =====
-- The blocks of edges and the scans of uses at concrete inputs.
use clam.Prelude.{ℕ, ◌+◌, ◌≡◌, refl, Bool, true, false, not, ◌&&◌, ◌||◌, List, [], ◌∷◌, some}
use clam.Prelude.Int.{◌+ℤ◌}
use clam.Llvm.{icmp_sgt, icmp_ugt}
use clam.Lit.Values.{Params, is_bool, is_integer, integer_bit_width}
use clam.Lit.Literal.{ok, get_exp}
use clam.Lit.Factory.{Factory, get_lit}
use clam.Compare.Crab.{exp_value}
use clam.Compare.Insts.{CmpInst, normalize_inst, operand_exps}
use clam.Ir.{Stmt, exec}
use clam.Uses.{
  Callee, Users, branch_inst, call_inst, no_uses, use_then, all_uses_are_verifier_calls,
}
use clam.Uses.Laws.{Scans, all_uses_are_verifier_calls-Scans}
use clam.Edges.{
  cmp_inst, constant_int, GraphOps, EdgeState, operand_kind, lower_cond_as_bool,
  add_block_in_between, edge_block, exec_edge,
}
use clam.Edges.Unsigned.{or_equal, edge_block-lowered}
use clam.Edges.Guards.{Guards, edge_block-Guards}
use clam.Edges.Links.{is_edge, GraphLaws, linked_between, exec_edge-Splits}
use clam.Tests.Lower.{i8, reference_laws}
use clam.Tests.Lit.{bits_of, plain_params}
use clam.Tests.Compare.{
  list_factory, plain_values, new_factory, int_of, bits_at, bits_at-below, no_tests, no_tests_laws,
  list_factory_laws,
}
use clam.Tests.Numbers.{int_ops}
use clam.Tests.Ops.{env, negate_cst, negate_cst_law}

-- x sgt y, which is read as y slt x
abbrev x_sgt_y : CmpInst
x_sgt_y = record { self = 1; pred = icmp_sgt; v0 = 2; v1 = 3 }

-- every comparison is used by a branch only
abbrev one_branch : ℕ → Users
one_branch a = use_then branch_inst no_uses

abbrev after_ints : Factory (List ℕ)
after_ints =
    (operand_exps i8 list_factory plain_values bits_of (λ g. 8) plain_params no_tests
      (normalize_inst i8 x_sgt_y) true new_factory).1

-- the edge to the second successor
edge_block-Guards_example :
    Guards int_ops env i8
      (reference_laws 128)
      list_factory
      plain_values
      bits_of
      (λ g. 8)
      plain_params
      no_tests
      negate_cst
      one_branch
      bits_at
      bits_at-below
      env
      (negate_cst_law env.refs)
      (edge_block i8 list_factory plain_values bits_of
        (λ g. 8)
        plain_params
        no_tests
        negate_cst
        one_branch
        (cmp_inst x_sgt_y)
        false
        true
        new_factory)
      true
      true
      after_ints
unfolding exp_value ◌+ℤ◌ operand_exps normalize_inst get_lit is_bool is_integer integer_bit_width
    get_exp operand_kind lower_cond_as_bool
edge_block-Guards_example =
    edge_block-Guards int_ops env i8 (reference_laws 128) list_factory plain_values bits_of (λ g. 8)
      plain_params no_tests negate_cst one_branch bits_at bits_at-below env
      (negate_cst_law env.refs) (cmp_inst x_sgt_y) true false new_factory after_ints
      (refl, (after_ints, (refl, ((int_of 3, int_of 2), (refl, refl, refl))), refl))

-- x ugt y for the bits 200 and 3, which are -56 and 3 as signed numbers
abbrev x_ugt_y : CmpInst
x_ugt_y = record { self = 1; pred = icmp_ugt; v0 = 2; v1 = 3 }

abbrev lowering : Params
lowering = record plain_params { lower_unsigned_icmp = true }

abbrev after_unsigned : Factory (List ℕ)
after_unsigned =
    (operand_exps i8 list_factory plain_values bits_of (λ g. 8) lowering no_tests
      (normalize_inst i8 x_ugt_y) false new_factory).1

-- The edge to the second successor lets the state through, since 3 is not less than -56.
edge_block-lowered_example :
    (block : List Stmt) × (fac : Factory (List ℕ)) × (bools : ℕ → Bool) × (edge_block i8
        list_factory plain_values bits_of
        (λ g. 8)
        lowering
        no_tests
        negate_cst
        one_branch
        (cmp_inst x_ugt_y)
        false
        true
        new_factory
      ≡ ok (block, fac))
    × (exec int_ops env block env ≡ some (record env { bools = bools }))
unfolding exp_value ◌+ℤ◌ operand_exps normalize_inst get_lit is_bool is_integer integer_bit_width
    get_exp operand_kind lower_cond_as_bool or_equal
edge_block-lowered_example =
    edge_block-lowered int_ops env i8 (reference_laws 128) list_factory list_factory_laws
      plain_values bits_of (λ g. 8) lowering no_tests no_tests_laws negate_cst one_branch x_ugt_y
      true (int_of 3, int_of 2) new_factory after_unsigned env refl refl refl refl refl

-- A graph is its test for an edge.
abbrev edge_tests : GraphOps
edge_tests = record {
  Graph = ℕ → ℕ → Bool;
  insert = λ b graph. graph;
  link = λ a b graph x y. is_edge a b x y || graph x y;
  unlink = λ a b graph x y. not (is_edge a b x y) && graph x y;
  linked = λ graph. graph;
}

edge_tests_laws : GraphLaws edge_tests
edge_tests_laws = record {
  insert_law = λ b graph x y. refl;
  link_law = λ a b graph x y. refl;
  unlink_law = λ a b graph x y. refl;
}

abbrev Edge : Type 0
Edge =
    EdgeState i8 list_factory plain_values bits_of (λ g. 8) plain_params no_tests negate_cst
      one_branch edge_tests

-- Block 5 goes to block 10 if the condition, which is true, holds.
abbrev before_edge : Edge
before_edge = record { graph = is_edge 5 10; id = 20; factory = new_factory }

abbrev after_edge : Edge
after_edge = record {
  graph = linked_between edge_tests edge_tests_laws 5 10 21 (is_edge 5 10);
  id = 21;
  factory = new_factory;
}

exec_edge-Splits_example :
    (after_edge.id ≡ before_edge.id + 1)
    × (after_edge.id ≡ after_edge.id)
    × (edge_block i8 list_factory plain_values bits_of
          (λ g. 8)
          plain_params
          no_tests
          negate_cst
          one_branch
          (constant_int 1)
          true
          false
          new_factory
        ≡ ok ([], new_factory))
    × ((x y : ℕ)
        → after_edge.graph x y
          ≡ linked_between edge_tests edge_tests_laws 5 10 21 (is_edge 5 10) x y)
unfolding exec_edge edge_block add_block_in_between
exec_edge-Splits_example =
    exec_edge-Splits edge_tests edge_tests_laws i8 list_factory plain_values bits_of (λ g. 8)
      plain_params no_tests negate_cst one_branch (λ b. b) (constant_int 1) 10 11 5 10 before_edge
      after_edge 21 [] refl

-- a call of an assumption
abbrev assume_fn : Callee
assume_fn = record {
  is_declaration = true;
  is_assert_fn = false;
  is_error_fn = false;
  is_assume_fn = true;
  is_not_assume_fn = false;
  is_seahorn_fail = false;
}

abbrev two_calls : Users
two_calls =
    use_then (call_inst 30 (some assume_fn) false)
      (use_then (call_inst 31 (some assume_fn) false) no_uses)

all_uses_are_verifier_calls-Scans_example :
    Scans false true two_calls (29 ∷ []) (true, 29 ∷ 30 ∷ 31 ∷ [])
unfolding all_uses_are_verifier_calls
all_uses_are_verifier_calls-Scans_example =
    all_uses_are_verifier_calls-Scans false true two_calls (29 ∷ [])
