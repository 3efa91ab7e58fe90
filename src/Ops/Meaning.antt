-- ===== src/Ops/Meaning.antt =====
-- What LLVM's binary operators compute on integers, and what the switch of doBinOp has to do with it.
use clam.Prelude.{◌≡◌, refl, ◌∙◌, Bool, true, false, Option, none, some}
use clam.Prelude.Int.{ℤ, pos, ◌+ℤ◌, ◌-ℤ◌, ◌*ℤ◌}
use clam.Ir.{
  IntOp, add, sub, mul, sdiv, bitwise_and, bitwise_or, bitwise_xor, shl, ashr, IntOps, Numbers,
  IntOpsLaws,
}
use clam.Ops.Views.{
  Opcode, op_add, op_sub, op_mul, op_sdiv, op_udiv, op_srem, op_urem, op_shl, op_ashr, op_lshr,
  op_and, op_or, op_xor, other_opcode, Row, row_of,
}

-- an opcode on integers
abbrev pub IsIntOp : Opcode → Type 0
IsIntOp other_opcode = ⊥
IsIntOp _ = Unit

-- The result of an opcode on integers, without wrap-around.
unfoldable pub meaning : Numbers → Opcode → ℤ → ℤ → ℤ
meaning n op_add a b = a +ℤ b
meaning n op_sub a b = a -ℤ b
meaning n op_mul a b = a *ℤ b
meaning n op_sdiv a b = n.signed_div a b
meaning n op_udiv a b = n.unsigned_div a b
meaning n op_srem a b = n.signed_rem a b
meaning n op_urem a b = n.unsigned_rem a b
meaning n op_and a b = n.bits_and a b
meaning n op_or a b = n.bits_or a b
meaning n op_xor a b = n.bits_xor a b
meaning n op_shl a b = n.shift_left a b
meaning n op_ashr a b = n.arithmetic_shift_right a b
meaning n op_lshr a b = n.logical_shift_right a b
meaning n other_opcode a b = pos 0

-- The opcodes whose result on two constants is computed: not the unsigned ones and not srem.
unfoldable pub folds : Opcode → Bool
folds op_udiv = false
folds op_srem = false
folds op_urem = false
folds op_lshr = false
folds _ = true

-- the bitwise opcodes
unfoldable pub is_bitwise : Opcode → Bool
is_bitwise op_and = true
is_bitwise op_or = true
is_bitwise op_xor = true
is_bitwise _ = false

module _ (o : IntOps) (n : Numbers) (laws : IntOpsLaws o n) where
  -- the operator on two constants computes the opcode, or is not there
  abbrev pub OperatorMeans : Opcode → Option IntOp → Bool → Type 0
  OperatorMeans op (some c) true = (a b : ℤ) → o.fold c a b ≡ meaning n op a b
  OperatorMeans op none false = Unit
  OperatorMeans op c folded = ⊥

  abbrev pub RowMeans : Opcode → Row → Type 0
  RowMeans op row =
      ((a b : ℤ) → o.apply row.stmt a b ≡ meaning n op a b)
      × OperatorMeans op row.operator (folds op)

  -- the statement and the operator that doBinOp chooses compute the opcode
  pub row_of-RowMeans :
      (op : Opcode) → IsIntOp op → (row : Row) × (row_of op ≡ some row) × RowMeans op row
  unfolding row_of folds meaning
  row_of-RowMeans op_add h =
      (_, refl, (laws.add_law, λ a b. laws.fold_law add a b ∙ laws.add_law a b))
  row_of-RowMeans op_sub h =
      (_, refl, (laws.sub_law, λ a b. laws.fold_law sub a b ∙ laws.sub_law a b))
  row_of-RowMeans op_mul h =
      (_, refl, (laws.mul_law, λ a b. laws.fold_law mul a b ∙ laws.mul_law a b))
  row_of-RowMeans op_sdiv h =
      (_, refl, (laws.sdiv_law, λ a b. laws.fold_law sdiv a b ∙ laws.sdiv_law a b))
  row_of-RowMeans op_udiv h = (_, refl, (laws.udiv_law, tt))
  row_of-RowMeans op_srem h = (_, refl, (laws.srem_law, tt))
  row_of-RowMeans op_urem h = (_, refl, (laws.urem_law, tt))
  row_of-RowMeans op_and h =
      (_, refl, (laws.and_law, λ a b. laws.fold_law bitwise_and a b ∙ laws.and_law a b))
  row_of-RowMeans op_or h =
      (_, refl, (laws.or_law, λ a b. laws.fold_law bitwise_or a b ∙ laws.or_law a b))
  row_of-RowMeans op_xor h =
      (_, refl, (laws.xor_law, λ a b. laws.fold_law bitwise_xor a b ∙ laws.xor_law a b))
  row_of-RowMeans op_shl h =
      (_, refl, (laws.shl_law, λ a b. laws.fold_law shl a b ∙ laws.shl_law a b))
  row_of-RowMeans op_ashr h =
      (_, refl, (laws.ashr_law, λ a b. laws.fold_law ashr a b ∙ laws.ashr_law a b))
  row_of-RowMeans op_lshr h = (_, refl, (laws.lshr_law, tt))
  row_of-RowMeans other_opcode h = absurd h
