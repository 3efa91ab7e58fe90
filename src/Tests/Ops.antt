-- ===== src/Tests/Ops.antt =====
-- The translated operators at concrete inputs.
use clam.Prelude.{
  ℕ, ◌≡◌, refl, Bool, true, false, not, List, none, some, ◌==◌, if◌then◌else◌, arith,
}
use clam.Prelude.Int.{◌+ℤ◌, ◌-ℤ◌, negsuc}
use clam.Tests.Numbers.{numbers, int_ops, int_ops_laws}
use clam.Ops.Meaning.{meaning, is_bitwise}
use clam.Llvm.{icmp_eq, icmp_ugt}
use clam.Lit.Values.{
  integer, pointer, plain, Value, Params, Var, int_type, bool_type, ref_type, is_bool, is_integer,
  integer_bit_width, is_tracked_type, is_pointer_type, mem,
}
use clam.Lit.Literal.{ok, get_exp, bool_var}
use clam.Lit.Factory.{Factory, get_lit, mk_bool_var}
use clam.Compare.Crab.{exp_value}
use clam.Compare.Insts.{CmpInst, normalize_inst}
use clam.Ir.{
  bool_xor, RefCst, mk_true, mk_false, mk_null, mk_gt_null, mk_lt_null, mk_le_null, mk_ge_null,
  mk_eq, mk_not_eq, mk_lt, mk_le, Stmt, Env, put_bool, ref_holds, bool_op, exec,
}
use clam.Ops.Views.{op_sub, op_xor, BinaryInst, bool_variable, view, bool_view}
use clam.Ops.Binary.{int_operands, visit_binary_operator, do_bool_logic_op}
use clam.Ops.BinaryLaws.{Puts}
use clam.Ops.VisitLaws.{visit_binary_operator-Puts}
use clam.Ops.VisitBools.{bit_meaning, visit_binary_operator-bits}
use clam.Ops.BoolLaws.{do_bool_logic_op_lem}
use clam.Uses.{no_uses}
use clam.Ops.Cmp.{visit_cmp_inst}
use clam.Ops.CmpLaws.{compared, visit_cmp_inst-compared}
use clam.Ops.Refs.{ref_variable, ref_view, cmp_inst_to_crab_ref}
use clam.Ops.RefsLaws.{Translates, cmp_inst_to_crab_ref-Translates}
use clam.Tests.Lower.{i8, reference_laws}
use clam.Tests.Lit.{bits_of, plain_params}
use clam.Tests.Compare.{
  list_factory, list_factory_laws, plain_values, new_factory, ints_at, int_of, all_false, no_tests,
}

abbrev pub env : Env
env = record { ints = ints_at; bools = all_false; refs = λ n. if n == 2 then 64 else 8 }

-- z := x - y, of 8 bits
abbrev z_minus : BinaryInst
z_minus = record { self = 4; opcode = op_sub; v0 = 2; v1 = 3 }

abbrev z_var : Var
z_var = record { name = 4; type = record { kind = int_type; bitwidth = some 8 } }

abbrev pub lits : ℕ → Factory (List ℕ) → Factory (List ℕ)
lits v fac = (get_lit list_factory plain_values bits_of (λ g. 8) plain_params v true fac).1

visit_binary_operator-Puts_example :
    (block : List Stmt) × (fac' : Factory (List ℕ)) × (visit_binary_operator int_ops list_factory
        plain_values bits_of
        (λ g. 8)
        plain_params
        z_minus
        new_factory
      ≡ ok (block, fac'))
    × Puts int_ops numbers int_ops_laws env block env z_var
        (negsuc 58)
        (list_factory.known (lits 3 (lits 2 (lits 4 new_factory))).vfac)
unfolding exp_value ◌+ℤ◌ ◌-ℤ◌ meaning is_bitwise int_operands get_lit is_bool is_integer
    integer_bit_width get_exp is_tracked_type view
visit_binary_operator-Puts_example =
    visit_binary_operator-Puts int_ops numbers int_ops_laws env list_factory plain_values bits_of
      (λ g. 8) plain_params list_factory_laws z_minus z_var 8 (int_of 2, int_of 3) new_factory
      (lits 4 new_factory) (lits 3 (lits 2 (lits 4 new_factory))) env tt refl refl refl refl refl

-- two Boolean values, at the addresses 5 and 6
abbrev bool_values : ℕ → Value
bool_values a = record { type = integer 1; kind = plain }

abbrev bool_at : ℕ → Var
bool_at n = record { name = n; type = record { kind = bool_type; bitwidth = some 1 } }

abbrev bool_lits : ℕ → Factory (List ℕ) → Factory (List ℕ)
bool_lits v fac = (get_lit list_factory bool_values bits_of (λ g. 8) plain_params v true fac).1

do_bool_logic_op_lem_example :
    (block : List Stmt) × (do_bool_logic_op int_ops list_factory bool_values bits_of
        (λ g. 8)
        plain_params
        bool_xor
        (some (bool_var (bool_at 7)))
        5
        6
        new_factory
      ≡ ok (bool_at 7, block, bool_lits 6 (bool_lits 5 new_factory)))
    × (exec int_ops env block env ≡ some (put_bool (bool_at 7) false env))
unfolding get_lit is_bool is_integer is_tracked_type bool_view bool_op
do_bool_logic_op_lem_example =
    do_bool_logic_op_lem int_ops env list_factory bool_values bits_of (λ g. 8) plain_params bool_xor
      (some (bool_at 7)) 5 6 (bool_variable (bool_at 5)) (bool_variable (bool_at 6)) new_factory
      new_factory (bool_lits 6 (bool_lits 5 new_factory)) (bool_at 7) env refl (refl, refl, refl)

-- b := x xor y of two Booleans, of which only the first is true
abbrev b_xor : BinaryInst
b_xor = record { self = 7; opcode = op_xor; v0 = 5; v1 = 6 }

abbrev first_true : Env
first_true = record env { bools = λ n. n == 5 }

visit_binary_operator-bits_example :
    (block : List Stmt) × (visit_binary_operator int_ops list_factory bool_values bits_of
        (λ g. 8)
        plain_params
        b_xor
        new_factory
      ≡ ok (block, bool_lits 6 (bool_lits 5 (bool_lits 7 new_factory))))
    × (exec int_ops first_true block first_true ≡ some (put_bool (bool_at 7) true first_true))
unfolding get_lit is_bool is_integer is_tracked_type bool_view is_bitwise bit_meaning
visit_binary_operator-bits_example =
    visit_binary_operator-bits int_ops first_true list_factory bool_values bits_of (λ g. 8)
      plain_params b_xor (bool_at 7) (bool_variable (bool_at 5)) (bool_variable (bool_at 6))
      new_factory (bool_lits 7 new_factory) (bool_lits 6 (bool_lits 5 (bool_lits 7 new_factory)))
      first_true refl refl refl refl (refl, refl, refl)

-- Crab's negation of the constraints that the builder makes.
abbrev pub negate_cst : RefCst → RefCst
negate_cst mk_true = mk_false
negate_cst mk_false = mk_true
negate_cst (mk_null x) = mk_gt_null x
negate_cst (mk_gt_null x) = mk_le_null x
negate_cst (mk_lt_null x) = mk_ge_null x
negate_cst (mk_le_null x) = mk_gt_null x
negate_cst (mk_ge_null x) = mk_lt_null x
negate_cst (mk_eq x y) = mk_not_eq x y
negate_cst (mk_not_eq x y) = mk_eq x y
negate_cst (mk_lt x y) = mk_le y x
negate_cst (mk_le x y) = mk_lt y x

not-not : (b : Bool) → b ≡ not (not b)
not-not true = refl
not-not false = refl

pub negate_cst_law :
    (refs : ℕ → ℕ) (c : RefCst) → ref_holds refs (negate_cst c) ≡ not (ref_holds refs c)
unfolding ref_holds
negate_cst_law refs mk_true = refl
negate_cst_law refs mk_false = refl
negate_cst_law refs (mk_null x) = ground arith
negate_cst_law refs (mk_gt_null x) = refl
negate_cst_law refs (mk_lt_null x) = refl
negate_cst_law refs (mk_le_null x) = not-not _
negate_cst_law refs (mk_ge_null x) = not-not _
negate_cst_law refs (mk_eq x y) = refl
negate_cst_law refs (mk_not_eq x y) = not-not _
negate_cst_law refs (mk_lt x y) = refl
negate_cst_law refs (mk_le x y) = not-not _

-- two pointers, at the addresses 2 and 3
abbrev pointer_values : ℕ → Value
pointer_values a = record { type = pointer; kind = plain }

abbrev mem_params : Params
mem_params = record plain_params { precision_level = mem }

abbrev ref_at : ℕ → Var
ref_at n = record { name = n; type = record { kind = ref_type; bitwidth = none } }

abbrev ref_lits : ℕ → Factory (List ℕ) → Factory (List ℕ)
ref_lits v fac = (get_lit list_factory pointer_values bits_of (λ g. 8) mem_params v true fac).1

-- p ugt q, which is read as q ult p
abbrev p_ugt_q : CmpInst
p_ugt_q = record { self = 1; pred = icmp_ugt; v0 = 2; v1 = 3 }

cmp_inst_to_crab_ref-Translates_example :
    Translates negate_cst env.refs
      (negate_cst_law env.refs)
      i8
      (reference_laws 128)
      list_factory
      pointer_values
      bits_of
      (λ g. 8)
      mem_params
      (cmp_inst_to_crab_ref negate_cst i8 list_factory pointer_values bits_of
        (λ g. 8)
        mem_params
        p_ugt_q
        true
        new_factory)
      true
      (ref_variable (ref_at 3))
      (ref_variable (ref_at 2))
      true
      (ref_lits 2 (ref_lits 3 new_factory))
unfolding normalize_inst get_lit is_bool is_integer ref_view is_pointer_type
cmp_inst_to_crab_ref-Translates_example =
    cmp_inst_to_crab_ref-Translates negate_cst env.refs (negate_cst_law env.refs) i8
      (reference_laws 128) list_factory pointer_values bits_of (λ g. 8) mem_params env.refs p_ugt_q
      true (ref_variable (ref_at 3)) (ref_variable (ref_at 2)) new_factory
      (ref_lits 2 (ref_lits 3 new_factory)) tt (refl, refl, refl, refl, refl)

-- icmp eq of the two Booleans, at the address 7
abbrev bools_eq : CmpInst
bools_eq = record { self = 7; pred = icmp_eq; v0 = 5; v1 = 6 }

abbrev after_tmp : Factory (List ℕ)
after_tmp =
    (mk_bool_var list_factory bool_values bits_of (λ g. 8) plain_params (bool_lits 7 new_factory)).1

visit_cmp_inst-compared_example :
    (block : List Stmt) × (visit_cmp_inst int_ops i8 list_factory bool_values bits_of
        (λ g. 8)
        plain_params
        no_tests
        negate_cst
        (λ a. no_uses)
        (λ a. false)
        bools_eq
        new_factory
      ≡ ok (block, bool_lits 6 (bool_lits 5 after_tmp)))
    × (exec int_ops env block env ≡ some (compared true (bool_at 7) (bool_at 8) false false env))
unfolding get_lit is_bool is_integer is_tracked_type bool_view bool_op mk_bool_var
visit_cmp_inst-compared_example =
    visit_cmp_inst-compared int_ops env i8 list_factory bool_values bits_of (λ g. 8) plain_params
      no_tests negate_cst (λ a. no_uses) (λ a. false) true bools_eq (bool_at 7) (bool_at 8)
      (bool_variable (bool_at 5)) (bool_variable (bool_at 6)) new_factory (bool_lits 7 new_factory)
      after_tmp (bool_lits 6 (bool_lits 5 after_tmp)) env refl refl refl refl refl refl
      (refl, refl, refl)
