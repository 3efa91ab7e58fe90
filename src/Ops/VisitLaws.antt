-- ===== src/Ops/VisitLaws.antt =====
-- visitBinaryOperator: the block that is emitted for an instruction leaves its result.
use clam.Prelude.{
  ℕ, ◌≡◌, refl, ap, subst, ◌∙◌, ◌⊎◌, inl, inr, Bool, true, false, List, Option, none, some,
  if◌then◌else◌, some_inv,
}
use clam.Lit.Values.{
  Value, Params, Var, VarFactory, VarFactoryLaws, is_bool, integer_bit_width, is_tracked_type,
}
use clam.Lit.Consts.{ApInt}
use clam.Lit.Literal.{Checked, ok, Lit, int_var, LinExp}
use clam.Lit.Factory.{Factory, get_lit}
use clam.Compare.Crab.{exp_value}
use clam.Compare.Insts.{int_exp}
use clam.Ir.{BoolOp, bool_and, bool_or, bool_xor, Stmt, Env, IntOps, Numbers, IntOpsLaws}
use clam.Ops.Views.{
  Opcode, op_and, op_or, op_xor, other_opcode, Row, row_of, BinaryInst, view, BoolView,
  bool_variable, bool_constant, is_arithmetic, bool_op_of,
}
use clam.Ops.Meaning.{IsIntOp, meaning, is_bitwise, row_of-RowMeans}
use clam.Ops.Binary.{
  join_operands, arithmetic_on, int_logic_on, dispatch_logic, visit_with, arithmetic, int_operands,
  do_arithmetic, do_int_logic_op, lit_variable, dispatch_op, visit_binary_operator,
}
use clam.Ops.ViewLaws.{IsPlain, int_exp-IsPlain}
use clam.Ops.BinaryLaws.{
  IsKnown, Puts, result, weaken, emitted, do_bin_op-emitted, do_bin_op-Puts, arithmetic-Puts,
}

op-cases :
    (op : Opcode)
    → IsIntOp op
    → ((is_arithmetic op ≡ true) × (is_bitwise op ≡ false))
      ⊎ ((b : BoolOp) × (bool_op_of op ≡ some b)
          × (is_arithmetic op ≡ false)
          × (is_bitwise op ≡ true))
unfolding bool_op_of is_arithmetic is_bitwise
op-cases op_and h = inr (bool_and, refl, refl, refl)
op-cases op_or h = inr (bool_or, refl, refl, refl)
op-cases op_xor h = inr (bool_xor, refl, refl, refl)
op-cases other_opcode h = absurd h
op-cases _ h = inl (refl, refl)

-- the value of a Boolean literal
abbrev pub bool_value : (ℕ → Bool) → BoolView → Bool
bool_value bools (bool_variable x) = bools x.name
bool_value bools (bool_constant b) = b

module _ (o : IntOps) (numbers : Numbers) (laws : IntOpsLaws o numbers) (picked : Env)
    (f : VarFactory) (value_at : ℕ → Value) (ap' : (w : ℕ) → ApInt w) (content_width : ℕ → ℕ)
    (params : Params) (names : VarFactoryLaws f) where
  open f use {State, known}

  abbrev operands : ℕ → ℕ → Factory State → Option (LinExp × LinExp) × Factory State
  operands = int_operands o f value_at ap' content_width params

  join_operands-IsPlain :
      (r1 r2 : Option Lit) (fac1 fac2 fac' : Factory State) (ops : LinExp × LinExp)
      (a b : Option LinExp)
      → int_exp r1 ≡ a
      → int_exp r2 ≡ b
      → join_operands o f value_at ap' content_width params a fac1 (b, fac2) ≡ (some ops, fac')
      → IsPlain (view ops.0) × IsPlain (view ops.1)
  unfolding join_operands
  join_operands-IsPlain r1 r2 fac1 fac2 fac' ops none b e k h =
      let no_ops : none ≡ some ops = ap (λ r. r.0) h in absurd (cc no_ops)
  join_operands-IsPlain r1 r2 fac1 fac2 fac' ops (some a) none e k h =
      let no_ops : none ≡ some ops = ap (λ r. r.0) h in absurd (cc no_ops)
  join_operands-IsPlain r1 r2 fac1 fac2 fac' ops (some a) (some b) e k h =
      let found : some (a, b) ≡ some ops = ap (λ r. r.0) h in
      subst (λ (p : LinExp × LinExp). IsPlain (view p.0) × IsPlain (view p.1)) (some_inv found)
        (int_exp-IsPlain r1 a e, int_exp-IsPlain r2 b k)

  operands-IsPlain :
      (v0 v1 : ℕ) (fac fac' : Factory State) (ops : LinExp × LinExp)
      → operands v0 v1 fac ≡ (some ops, fac')
      → IsPlain (view ops.0) × IsPlain (view ops.1)
  unfolding int_operands
  operands-IsPlain v0 v1 fac fac' ops h =
      let r1 = get_lit f value_at ap' content_width params v0 true fac in
      let r2 = get_lit f value_at ap' content_width params v1 true r1.1 in
      join_operands-IsPlain r1.0 r2.0 r1.1 r2.1 fac' ops (int_exp r1.0) (int_exp r2.0) refl refl h

  abbrev dispatch :
      BinaryInst → Opcode → Option Lit → Var → Factory State → Checked (List Stmt × Factory State)
  dispatch = dispatch_op o f value_at ap' content_width params

  visited :
      (i : BinaryInst) (lhs : Var) (w : ℕ) (fac fac1 : Factory State)
      → is_tracked_type (value_at i.self).type params ≡ true
      → get_lit f value_at ap' content_width params i.self true fac ≡ (some (int_var lhs w), fac1)
      → visit_binary_operator o f value_at ap' content_width params i fac
        ≡ dispatch i i.opcode (some (int_var lhs w)) lhs fac1
  unfolding visit_binary_operator visit_with lit_variable
  visited i lhs w fac fac1 tracked at_lhs =
      rw tracked (ap (visit_with o f value_at ap' content_width params i) at_lhs)

  dispatch-arithmetic :
      (i : BinaryInst) (op : Opcode) (lhs : Var) (w : ℕ) (ops : LinExp × LinExp)
      (fac1 fac2 : Factory State)
      → is_arithmetic op ≡ true
      → operands i.v0 i.v1 fac1 ≡ (some ops, fac2)
      → dispatch i op (some (int_var lhs w)) lhs fac1
        ≡ arithmetic o f value_at ap' content_width params op
            (integer_bit_width (value_at i.self).type)
            lhs
            ops.0
            ops.1
            fac2
  unfolding dispatch_op do_arithmetic arithmetic_on
  dispatch-arithmetic i op lhs w ops fac1 fac2 arith_op read = rw arith_op (
      ap
        (arithmetic_on o f value_at ap' content_width params op
          (integer_bit_width (value_at i.self).type) lhs)
        read
      ∙ rw arith_op refl)

  dispatch-logic :
      (i : BinaryInst) (op : Opcode) (row : Row) (b : BoolOp) (lhs : Var) (w : ℕ)
      (ops : LinExp × LinExp) (fac1 fac2 : Factory State)
      → row_of op ≡ some row
      → bool_op_of op ≡ some b
      → is_arithmetic op ≡ false
      → is_bool (value_at i.self).type ≡ false
      → operands i.v0 i.v1 fac1 ≡ (some ops, fac2)
      → dispatch i op (some (int_var lhs w)) lhs fac1
        ≡ ok (emitted o numbers laws picked row lhs ops.0 ops.1, fac2)
  unfolding dispatch_op dispatch_logic do_int_logic_op int_logic_on
  dispatch-logic i op row b lhs w ops fac1 fac2 is_row is_bool_op not_arith not_bool read =
      rw (not_arith, is_bool_op, not_bool)
        (ap (int_logic_on o f value_at ap' content_width params op lhs) read
          ∙ rw
              (
                int_logic_on,
                is_bool_op,
                do_bin_op-emitted o numbers laws picked op row lhs ops.0 ops.1 is_row,
              )
              refl)

  -- visitBinaryOperator emits a block for a tracked integer instruction whose operands are read, with
  -- an opcode on integers. An arithmetic opcode leaves its result, the one that LLVM's name stands for
  -- but without wrap-around, in the variable of the instruction, whichever operands are constants. A
  -- bitwise one does so too, unless the left operand is a constant and the right one a variable: then
  -- the variable is havocked. No other variable that was known changes.
  pub visit_binary_operator-Puts :
      (i : BinaryInst) (lhs : Var) (w : ℕ) (ops : LinExp × LinExp) (fac fac1 fac2 : Factory State)
      (e : Env)
      → IsIntOp i.opcode
      → is_tracked_type (value_at i.self).type params ≡ true
      → is_bool (value_at i.self).type ≡ false
      → get_lit f value_at ap' content_width params i.self true fac ≡ (some (int_var lhs w), fac1)
      → operands i.v0 i.v1 fac1 ≡ (some ops, fac2)
      → IsKnown o numbers laws picked (known fac2.vfac) (view ops.1)
      → (block : List Stmt) × (fac3 : Factory State) × (visit_binary_operator o f value_at ap'
            content_width params i fac
          ≡ ok (block, fac3))
        × Puts o numbers laws picked block e lhs
            (if is_bitwise i.opcode
              then result o numbers laws picked i.opcode lhs
                  (view ops.0)
                  (view ops.1)
                  (exp_value e.ints ops.0)
                  (exp_value e.ints ops.1)
              else meaning numbers i.opcode (exp_value e.ints ops.0) (exp_value e.ints ops.1))
            (known fac2.vfac)
  unfolding visit_binary_operator visit_with
  visit_binary_operator-Puts i lhs w ops fac fac1 fac2 e int_op tracked not_bool at_lhs read k =
      let op = i.opcode in
      let (p1, p2) = operands-IsPlain i.v0 i.v1 fac1 fac2 ops read in
      let width = integer_bit_width (value_at i.self).type in
      let dispatched = visited i lhs w fac fac1 tracked at_lhs in
      let (row, is_row, means) = row_of-RowMeans o numbers laws op int_op in
      elim (op-cases op int_op) [
        | inl (arith_op, not_bits) ↦
            let (block, fac3, made, puts) =
              arithmetic-Puts o numbers laws picked f value_at ap' content_width params names op row
                width lhs ops.0 ops.1 fac2 e is_row means p1 p2 k in
            (
              block,
              fac3,
              dispatched ∙ dispatch-arithmetic i op lhs w ops fac1 fac2 arith_op read ∙ made,
              rw not_bits puts,
            )
        | inr (b, is_bool_op, not_arith, bits) ↦ (
          emitted o numbers laws picked row lhs ops.0 ops.1,
          fac2,
          dispatched
              ∙ dispatch-logic i op row b lhs w ops fac1 fac2 is_row is_bool_op not_arith not_bool
                  read,
          rw bits (
              weaken o numbers laws picked (emitted o numbers laws picked row lhs ops.0 ops.1) e lhs
                _ (known fac2.vfac)
                (do_bin_op-Puts o numbers laws picked op row means lhs ops.0 ops.1 e p1 p2)),
        )
      ]
