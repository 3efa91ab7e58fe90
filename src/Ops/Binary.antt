-- ===== src/Ops/Binary.antt =====
-- lib/Clam/CfgBuilder.cc: doArithmetic, doBoolLogicOp, doIntLogicOp and visitBinaryOperator.
use clam.Prelude.{ℕ, true, not, ◌&&◌, List, [], ◌∷◌, ◌++◌, Option, none, some, if◌then◌else◌}
use clam.Lit.Values.{Value, Params, Var, VarFactory, is_bool, integer_bit_width, is_tracked_type}
use clam.Lit.Consts.{ApInt}
use clam.Lit.Literal.{Checked, ok, clam_error, Lit, bool_var, int_var, ref_var, LinExp}
use clam.Lit.Factory.{Factory, get_lit, mk_int_var, mk_bool_var}
use clam.Compare.Insts.{int_exp}
use clam.Ir.{BoolOp, Stmt, assign, havoc, IntOps}
use clam.Ops.Views.{
  BinaryInst, BoolView, Opcode, bool_logic, bool_op_of, bool_view, do_bin_op, is_arithmetic,
  is_number, var_exp, view,
}

module _ (o : IntOps) (f : VarFactory) (value_at : ℕ → Value) (ap : (w : ℕ) → ApInt w)
    (content_width : ℕ → ℕ) (params : Params) where
  open f use {State}

  abbrev lit_at : ℕ → Factory State → Option Lit × Factory State
  lit_at a fac = get_lit f value_at ap content_width params a true fac

  abbrev make_int : ℕ → Factory State → Var × Factory State
  make_int = mk_int_var f value_at ap content_width params

  -- havoc, where the useless ones are asked for
  abbrev pub havoc_of : Var → List Stmt
  havoc_of x = if params.include_useless_havoc then havoc x ∷ [] else []

  -- The second operand is not asked for if the first is none.
  unfoldable pub join_operands :
      Option LinExp
      → Factory State
      → Option LinExp × Factory State
      → Option (LinExp × LinExp) × Factory State
  join_operands none fac1 second = (none, fac1)
  join_operands (some op1) fac1 (none, fac2) = (none, fac2)
  join_operands (some op1) fac1 (some op2, fac2) = (some (op1, op2), fac2)

  -- The integer operands.
  unfoldable pub int_operands : ℕ → ℕ → Factory State → Option (LinExp × LinExp) × Factory State
  unfolding int_exp join_operands
  int_operands v0 v1 fac =
      let (lit1, fac1) = lit_at v0 fac in
      let (lit2, fac2) = lit_at v1 fac1 in join_operands (int_exp lit1) fac1 (int_exp lit2, fac2)

  -- The statements of doBinOp after the first ones.
  abbrev pub after :
      List Stmt → Factory State → Checked (List Stmt) → Checked (List Stmt × Factory State)
  after first fac (ok block) = ok (first ++ block, fac)
  after first fac clam_error = clam_error

  -- doArithmetic on two expressions: constants on the left get a variable first.
  unfoldable pub arithmetic :
      Opcode → ℕ → Var → LinExp → LinExp → Factory State → Checked (List Stmt × Factory State)
  unfolding do_bin_op is_number
  arithmetic op w lhs op1 op2 fac =
      let (t1, fac1) = make_int w fac in
      let (t2, fac2) = make_int w fac1 in
      if is_number (view op1) && is_number (view op2)
      then after (assign t1 op1 ∷ assign t2 op2 ∷ []) fac2
          (do_bin_op o op lhs (var_exp t1) (var_exp t2))
      else if is_number (view op1)
      then after (assign t1 op1 ∷ []) fac1 (do_bin_op o op lhs (var_exp t1) op2)
      else after [] fac (do_bin_op o op lhs op1 op2)

  unfoldable pub arithmetic_on :
      Opcode
      → ℕ
      → Var
      → Option (LinExp × LinExp) × Factory State
      → Checked (List Stmt × Factory State)
  unfolding arithmetic is_arithmetic
  arithmetic_on op w lhs (none, fac) = ok (havoc_of lhs, fac)
  arithmetic_on op w lhs (some ops, fac) =
      if is_arithmetic op then arithmetic op w lhs ops.0 ops.1 fac else clam_error

  unfoldable pub do_arithmetic :
      Opcode → Option Lit → BinaryInst → Factory State → Checked (List Stmt × Factory State)
  unfolding arithmetic_on int_operands integer_bit_width
  do_arithmetic op (some (int_var lhs w)) i fac =
      arithmetic_on op (integer_bit_width (value_at i.self).type) lhs (int_operands i.v0 i.v1 fac)
  do_arithmetic op _ i fac = clam_error

  -- The variable of the result, the statements and the factory.
  abbrev pub BoolResult : Type 0
  BoolResult = Checked (Var × List Stmt × Factory State)

  unfoldable pub join_bools :
      BoolOp → Var → Option BoolView → Factory State → Option BoolView × Factory State → BoolResult
  unfolding bool_logic
  join_bools op lhs none fac1 second = ok (lhs, havoc_of lhs, fac1)
  join_bools op lhs (some x) fac1 (none, fac2) = ok (lhs, havoc_of lhs, fac2)
  join_bools op lhs (some x) fac1 (some y, fac2) = ok (lhs, bool_logic op lhs x y, fac2)

  -- From the variable of the result.
  unfoldable pub bool_logic_on : BoolOp → Var → ℕ → ℕ → Factory State → BoolResult
  unfolding join_bools bool_view
  bool_logic_on op lhs v1 v2 fac =
      let (b1, fac1) = lit_at v1 fac in
      let (b2, fac2) = lit_at v2 fac1 in join_bools op lhs (bool_view b1) fac1 (bool_view b2, fac2)

  -- lit may be null; then the result gets a new variable.
  unfoldable pub do_bool_logic_op : BoolOp → Option Lit → ℕ → ℕ → Factory State → BoolResult
  unfolding bool_logic_on
  do_bool_logic_op op none v1 v2 fac =
      let (lhs, fac') = mk_bool_var f value_at ap content_width params fac in
      bool_logic_on op lhs v1 v2 fac'
  do_bool_logic_op op (some (bool_var lhs)) v1 v2 fac = bool_logic_on op lhs v1 v2 fac
  do_bool_logic_op op (some _) v1 v2 fac = clam_error

  unfoldable pub int_logic_on :
      Opcode → Var → Option (LinExp × LinExp) × Factory State → Checked (List Stmt × Factory State)
  unfolding do_bin_op bool_op_of
  int_logic_on op lhs (none, fac) = ok (havoc_of lhs, fac)
  int_logic_on op lhs (some ops, fac) = elim (bool_op_of op) [
    | some b ↦ after [] fac (do_bin_op o op lhs ops.0 ops.1)
    | none ↦ ok (havoc_of lhs, fac)
  ]

  unfoldable pub do_int_logic_op :
      Opcode → Option Lit → BinaryInst → Factory State → Checked (List Stmt × Factory State)
  unfolding int_operands int_logic_on
  do_int_logic_op op (some (int_var lhs w)) i fac = int_logic_on op lhs (int_operands i.v0 i.v1 fac)
  do_int_logic_op op _ i fac = clam_error

  -- The literal of the instruction is a variable.
  unfoldable pub lit_variable : Option Lit → Option Var
  lit_variable (some (bool_var x)) = some x
  lit_variable (some (int_var x w)) = some x
  lit_variable (some (ref_var x)) = some x
  lit_variable _ = none

  abbrev pub only_block : BoolResult → Checked (List Stmt × Factory State)
  only_block (ok (x, ss, fac)) = ok (ss, fac)
  only_block clam_error = clam_error

  -- The cases of and, or and xor of visitBinaryOperator, and its default.
  unfoldable pub dispatch_logic :
      BinaryInst
      → Opcode
      → Option BoolOp
      → Option Lit
      → Var
      → Factory State
      → Checked (List Stmt × Factory State)
  unfolding do_bool_logic_op do_int_logic_op is_bool
  dispatch_logic i op none lit x fac = ok (havoc_of x, fac)
  dispatch_logic i op (some b) lit x fac =
      if is_bool (value_at i.self).type
      then only_block (do_bool_logic_op b lit i.v0 i.v1 fac)
      else do_int_logic_op op lit i fac

  -- The switch of visitBinaryOperator.
  unfoldable pub dispatch_op :
      BinaryInst → Opcode → Option Lit → Var → Factory State → Checked (List Stmt × Factory State)
  unfolding do_arithmetic dispatch_logic is_arithmetic bool_op_of
  dispatch_op i op lit x fac =
      if is_arithmetic op
      then do_arithmetic op lit i fac
      else dispatch_logic i op (bool_op_of op) lit x fac

  unfoldable pub visit_with :
      BinaryInst → Option Lit × Factory State → Checked (List Stmt × Factory State)
  unfolding dispatch_op lit_variable
  visit_with i (lit, fac) = elim (lit_variable lit) [
    | none ↦ clam_error
    | some x ↦ dispatch_op i i.opcode lit x fac
  ]

  unfoldable pub visit_binary_operator :
      BinaryInst → Factory State → Checked (List Stmt × Factory State)
  unfolding visit_with is_tracked_type
  visit_binary_operator i fac =
      if not (is_tracked_type (value_at i.self).type params)
      then ok ([], fac)
      else visit_with i (lit_at i.self fac)
