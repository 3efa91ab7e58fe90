-- ===== src/Ops/Views.antt =====
-- lib/Clam/CfgBuilder.cc: the operands and the opcodes of binary operators; doBinOp and the switch of
-- doBoolLogicOp.
use clam.Prelude.{
  ℕ, zero, Bool, true, false, not, ◌&&◌, ◌||◌, List, [], ◌∷◌, Option, none, some, if◌then◌else◌,
}
use clam.Prelude.Int.{ℤ, pos}
use clam.Lit.Values.{Var}
use clam.Lit.Literal.{Checked, ok, clam_error, Lit, bool_cst, bool_var, LinExp}
use clam.Compare.Crab.{LinCst, get_true, get_false, number_exp}
use clam.Compare.Crab as Cst
use clam.Ir.{
  IntOp, add, sub, mul, sdiv, udiv, srem, urem, bitwise_and, bitwise_or, bitwise_xor, shl, ashr,
  lshr, BoolOp, bool_and, bool_or, bool_xor, Stmt, assign, int_vars, int_number, bool_vars,
  bool_copy, comparison, havoc, IntOps,
}

-- LLVM's opcodes of BinaryOperator: those on integers, and the others, which are on floating point.
pub data Opcode : Type 0 where
  op_add op_sub op_mul op_sdiv op_udiv op_srem op_urem op_shl op_ashr op_lshr : Opcode
  op_and op_or op_xor other_opcode : Opcode

pub record BinaryInst : Type 0 where
  pub self : ℕ
  pub opcode : Opcode
  pub v0 : ℕ
  pub v1 : ℕ

-- get_variable() and is_constant() of a lin_exp_t.
pub data View : Type 0 where
  variable : Var → View
  number : ℤ → View
  neither : View

unfoldable pub view_of : Option Var → ℤ → View
view_of none n = number n
view_of (some x) (pos zero) = variable x
view_of (some x) n = neither

unfoldable pub view : LinExp → View
unfolding view_of
view e = view_of e.var e.constant

-- What a case of doBinOp passes to its macro: the statement, and the operator of number_t on two
-- constants, which CRAB_BINARY_OPERATION_NO_BOTH_CONSTANT does not have.
pub record Row : Type 0 where
  pub stmt : IntOp
  pub operator : Option IntOp

abbrev pub with_operator : IntOp → IntOp → Option Row
with_operator s c = some (record { stmt = s; operator = some c })

abbrev pub no_both_constant : IntOp → Option Row
no_both_constant s = some (record { stmt = s; operator = none })

-- The switch of doBinOp.
unfoldable pub row_of : Opcode → Option Row
row_of op_add = with_operator add add
row_of op_sub = with_operator sub sub
row_of op_mul = with_operator mul mul
row_of op_sdiv = with_operator sdiv sdiv
row_of op_udiv = no_both_constant udiv
row_of op_srem = no_both_constant srem
row_of op_urem = no_both_constant urem
row_of op_and = with_operator bitwise_and bitwise_and
row_of op_or = with_operator bitwise_or bitwise_or
row_of op_xor = with_operator bitwise_xor bitwise_xor
row_of op_shl = with_operator shl shl
row_of op_ashr = with_operator ashr ashr
row_of op_lshr = no_both_constant lshr
row_of other_opcode = none

module _ (o : IntOps) where
  unfoldable pub both_constant : Option IntOp → Var → ℤ → ℤ → Stmt
  both_constant (some c) lhs m n = assign lhs (number_exp (o.fold c m n))
  both_constant none lhs m n = havoc lhs

  -- The macros.
  unfoldable pub bin_op : Row → Var → View → View → List Stmt
  unfolding both_constant
  bin_op row lhs (variable x) (variable y) = int_vars row.stmt lhs x y ∷ []
  bin_op row lhs (variable x) (number n) = int_number row.stmt lhs x n ∷ []
  bin_op row lhs (number m) (number n) = both_constant row.operator lhs m n ∷ []
  bin_op row lhs _ _ = havoc lhs ∷ []

  unfoldable pub do_bin_op : Opcode → Var → LinExp → LinExp → Checked (List Stmt)
  unfolding bin_op view row_of
  do_bin_op op lhs op1 op2 = elim (row_of op) [
    | none ↦ clam_error
    | some row ↦ ok (bin_op row lhs (view op1) (view op2))
  ]

-- The opcodes that doArithmetic takes.
unfoldable pub is_arithmetic : Opcode → Bool
is_arithmetic op_and = false
is_arithmetic op_or = false
is_arithmetic op_xor = false
is_arithmetic other_opcode = false
is_arithmetic _ = true

unfoldable pub is_number : View → Bool
is_number (number n) = true
is_number _ = false

abbrev pub var_exp : Var → LinExp
var_exp x = record { var = some x; constant = pos 0 }

-- A Boolean literal, and its variable if it is one.
pub data BoolView : Type 0 where
  bool_variable : Var → BoolView
  bool_constant : Bool → BoolView

unfoldable pub bool_view : Option Lit → Option BoolView
bool_view (some (bool_var x)) = some (bool_variable x)
bool_view (some (bool_cst b)) = some (bool_constant b)
bool_view _ = none

abbrev pub constant_of : Bool → LinCst
constant_of b = if b then get_true else get_false

abbrev pub assign_constant : Var → Bool → List Stmt
assign_constant lhs b = comparison (Cst.bool_assign lhs (constant_of b)) ∷ []

-- The switch of doBoolLogicOp.
unfoldable pub bool_logic : BoolOp → Var → BoolView → BoolView → List Stmt
bool_logic op lhs (bool_variable x) (bool_variable y) = bool_vars op lhs x y ∷ []
bool_logic bool_and lhs (bool_constant a) (bool_constant b) = assign_constant lhs (a && b)
bool_logic bool_and lhs (bool_constant a) (bool_variable y) =
    if not a then assign_constant lhs false else bool_copy lhs y false ∷ []
bool_logic bool_and lhs (bool_variable x) (bool_constant b) =
    if not b then assign_constant lhs false else bool_copy lhs x false ∷ []
bool_logic bool_or lhs (bool_constant a) (bool_constant b) = assign_constant lhs (a || b)
bool_logic bool_or lhs (bool_constant a) (bool_variable y) =
    if a then assign_constant lhs true else bool_copy lhs y false ∷ []
bool_logic bool_or lhs (bool_variable x) (bool_constant b) =
    if b then assign_constant lhs true else bool_copy lhs x false ∷ []
bool_logic bool_xor lhs (bool_constant a) (bool_constant b) =
    assign_constant lhs ((a && not b) || (not a && b))
bool_logic bool_xor lhs (bool_constant a) (bool_variable y) =
    if a then bool_copy lhs y true ∷ [] else bool_copy lhs y false ∷ []
bool_logic bool_xor lhs (bool_variable x) (bool_constant b) =
    if b then bool_copy lhs x true ∷ [] else bool_copy lhs x false ∷ []

-- The opcodes that doBoolLogicOp and doIntLogicOp take.
unfoldable pub bool_op_of : Opcode → Option BoolOp
bool_op_of op_and = some bool_and
bool_op_of op_or = some bool_or
bool_op_of op_xor = some bool_xor
bool_op_of _ = none
