-- ===== src/Ops/VisitBools.antt =====
-- visitBinaryOperator on Booleans: the block that is emitted leaves the result of the opcode.
use clam.Prelude.{ℕ, ◌≡◌, refl, ap, ◌∙◌, Bool, true, false, not, ◌&&◌, ◌||◌, List, some}
use clam.Lit.Values.{Value, Params, Var, VarFactory, is_bool, is_tracked_type}
use clam.Lit.Consts.{ApInt}
use clam.Lit.Literal.{ok, bool_var}
use clam.Lit.Factory.{Factory, get_lit}
use clam.Ir.{BoolOp, bool_and, bool_or, bool_xor, Stmt, Env, bool_op, put_bool, IntOps, exec}
use clam.Ops.Views.{Opcode, op_and, op_or, op_xor, BinaryInst, BoolView, is_arithmetic, bool_op_of}
use clam.Ops.Meaning.{is_bitwise}
use clam.Ops.Binary.{
  visit_with, lit_variable, dispatch_logic, dispatch_op, visit_binary_operator, only_block,
  do_bool_logic_op,
}
use clam.Ops.VisitLaws.{bool_value}
use clam.Ops.BoolLaws.{ReadsBools, do_bool_logic_op_lem}

-- The result of a bitwise opcode on two single bits.
unfoldable pub bit_meaning : Opcode → Bool → Bool → Bool
bit_meaning op_and a b = a && b
bit_meaning op_or a b = a || b
bit_meaning op_xor a b = (a && not b) || (not a && b)
bit_meaning _ a b = false

xor_bits : (a b : Bool) → bool_op bool_xor a b ≡ bit_meaning op_xor a b
unfolding bool_op bit_meaning
xor_bits true true = refl
xor_bits true false = refl
xor_bits false true = refl
xor_bits false false = refl

bit-cases :
    (op : Opcode)
    → is_bitwise op ≡ true
    → (b : BoolOp) × (bool_op_of op ≡ some b)
      × (is_arithmetic op ≡ false)
      × ((x y : Bool) → bool_op b x y ≡ bit_meaning op x y)
unfolding is_bitwise bool_op_of is_arithmetic bool_op bit_meaning
bit-cases op_and h = (bool_and, refl, refl, λ x y. refl)
bit-cases op_or h = (bool_or, refl, refl, λ x y. refl)
bit-cases op_xor h = (bool_xor, refl, refl, xor_bits)
bit-cases _ h = absurd (cc h)

module _ (o : IntOps) (picked : Env) (f : VarFactory) (value_at : ℕ → Value)
    (ap' : (w : ℕ) → ApInt w) (content_width : ℕ → ℕ) (params : Params) where
  open f use {State}

  visited_bool :
      (i : BinaryInst) (b : BoolOp) (lhs : Var) (fac fac1 : Factory State)
      → bool_op_of i.opcode ≡ some b
      → is_arithmetic i.opcode ≡ false
      → is_tracked_type (value_at i.self).type params ≡ true
      → is_bool (value_at i.self).type ≡ true
      → get_lit f value_at ap' content_width params i.self true fac ≡ (some (bool_var lhs), fac1)
      → visit_binary_operator o f value_at ap' content_width params i fac
        ≡ only_block o f value_at ap' content_width params (
            do_bool_logic_op o f value_at ap' content_width params b
              (some (bool_var lhs))
              i.v0
              i.v1
              fac1)
  unfolding visit_binary_operator visit_with lit_variable dispatch_op dispatch_logic
  visited_bool i b lhs fac fac1 is_b not_arith tracked bool_type at_lhs = rw tracked (
      ap (visit_with o f value_at ap' content_width params i) at_lhs
      ∙ rw (not_arith, is_b, bool_type) refl)

  -- visitBinaryOperator emits a block for a tracked Boolean instruction with a bitwise opcode whose
  -- operands are read as Boolean literals. The block leaves the conjunction, the disjunction or the
  -- exclusive or, as the opcode says, in the variable of the instruction, and changes nothing else.
  pub visit_binary_operator-bits :
      (i : BinaryInst) (lhs : Var) (x y : BoolView) (fac fac1 fac' : Factory State) (e : Env)
      → is_bitwise i.opcode ≡ true
      → is_tracked_type (value_at i.self).type params ≡ true
      → is_bool (value_at i.self).type ≡ true
      → get_lit f value_at ap' content_width params i.self true fac ≡ (some (bool_var lhs), fac1)
      → ReadsBools o picked f value_at ap' content_width params i.v0 i.v1 x y fac1 fac'
      → (block : List Stmt) × (visit_binary_operator o f value_at ap' content_width params i fac
          ≡ ok (block, fac'))
        × (exec o picked block e
            ≡ some (
                put_bool lhs
                  (bit_meaning i.opcode (bool_value e.bools x) (bool_value e.bools y))
                  e))
  visit_binary_operator-bits i lhs x y fac fac1 fac' e bitwise tracked bool_type at_lhs reads =
      let (b, is_b, not_arith, means) = bit-cases i.opcode bitwise in
      let (block, made, run) =
        do_bool_logic_op_lem o picked f value_at ap' content_width params b (some lhs) i.v0 i.v1 x y
          fac1 fac1 fac' lhs e refl reads in
      (
        block,
        visited_bool i b lhs fac fac1 is_b not_arith tracked bool_type at_lhs
            ∙ ap (only_block o f value_at ap' content_width params) made,
        run
            ∙ ap (λ r. some (put_bool lhs r e))
                (means (bool_value e.bools x) (bool_value e.bools y)),
      )
