-- ===== src/Compare/Insts.antt =====
-- lib/Clam/CfgBuilder.cc: cmpInstToCrabBool, cmpInstToCrabInt and unsignedCmpInstToCrabInt; and
-- normalizeCmpInst of lib/Clam/CfgBuilderUtils.cc.
use clam.Prelude.{ℕ, Bool, true, false, not, List, [], ◌∷◌, Option, none, some, if◌then◌else◌}
use clam.Prelude.Int.{pos}
use clam.Llvm.{
  Predicate, icmp_eq, icmp_ne, icmp_ugt, icmp_uge, icmp_ult, icmp_ule, icmp_sgt, icmp_sge, icmp_slt,
  icmp_sle, Icmp,
}
use clam.Lit.Values.{Value, Params, Var, VarFactory}
use clam.Lit.Consts.{ApInt}
use clam.Lit.Literal.{Checked, ok, clam_error, Lit, bool_var, LinExp, get_exp}
use clam.Lit.Factory.{Factory, get_lit, mk_bool_var}
use clam.Compare.Crab.{
  LinCst, le, ge, eq, ne, plus_number, minus_number, Stmt, bool_assign, havoc, CstTests,
}
use clam.Compare.SignOnes.{unsigned_cmp_into_sign_ones}

-- A CmpInst: its own address, its predicate and the addresses of its operands.
pub record CmpInst : Type 0 where
  pub self : ℕ
  pub pred : Predicate
  pub v0 : ℕ
  pub v1 : ℕ

module _ {half : ℕ} (m : Icmp half) where
  -- swapOperands
  unfoldable pub swap_insts : CmpInst → CmpInst
  swap_insts i = record { self = i.self; pred = m.swapped i.pred; v0 = i.v1; v1 = i.v0 }

  unfoldable pub normalize_by : Predicate → CmpInst → CmpInst
  unfolding swap_insts
  normalize_by icmp_ugt i = swap_insts i
  normalize_by icmp_sgt i = swap_insts i
  normalize_by icmp_uge i = swap_insts i
  normalize_by icmp_sge i = swap_insts i
  normalize_by _ i = i

  unfoldable pub normalize_inst : CmpInst → CmpInst
  unfolding normalize_by
  normalize_inst i = normalize_by i.pred i

-- The expression of a literal, where there is one and it is an integer.
unfoldable pub int_exp : Option Lit → Option LinExp
unfolding get_exp
int_exp r = elim (get_exp r) [ ok e ↦ some e | clam_error ↦ none ]

-- The switch of cmpInstToCrabInt.
unfoldable pub cmp_cst : Predicate → Bool → LinExp → LinExp → Option LinCst
unfolding plus_number minus_number
cmp_cst icmp_eq negated op0 op1 = if not negated then some (eq op0 op1) else some (ne op0 op1)
cmp_cst icmp_ne negated op0 op1 = if not negated then some (ne op0 op1) else some (eq op0 op1)
cmp_cst icmp_slt negated op0 op1 =
    if not negated then some (le op0 (minus_number op1 (pos 1))) else some (ge op0 op1)
cmp_cst icmp_sle negated op0 op1 =
    if not negated then some (le op0 op1) else some (ge op0 (plus_number op1 (pos 1)))
cmp_cst _ negated op0 op1 = none

unfoldable pub interpret_as_signed : Predicate → Bool
interpret_as_signed icmp_ult = false
interpret_as_signed icmp_ule = false
interpret_as_signed _ = true

module _ {half : ℕ} (m : Icmp half) (f : VarFactory) (value_at : ℕ → Value) (ap : (w : ℕ) → ApInt w)
    (content_width : ℕ → ℕ) (params : Params) (tests : CstTests) where
  open f use {State}

  abbrev lit_at : ℕ → Bool → Factory State → Option Lit × Factory State
  lit_at = get_lit f value_at ap content_width params

  -- The expressions of the operands; the second is not asked for if the first is no integer.
  unfoldable pub operand_exps :
      CmpInst → Bool → Factory State → Option (LinExp × LinExp) × Factory State
  unfolding int_exp
  operand_exps i as_signed fac =
      let (ref0, fac1) = lit_at i.v0 as_signed fac in
      elim (int_exp ref0) [
        | none ↦ (none, fac1)
        | some op0 ↦
            let (ref1, fac2) = lit_at i.v1 as_signed fac1 in
            elim (int_exp ref1) [ none ↦ (none, fac2) | some op1 ↦ (some (op0, op1), fac2) ]
      ]

  unfoldable pub cmp_inst_to_crab_int :
      CmpInst → Bool → Factory State → Option LinCst × Factory State
  unfolding normalize_inst operand_exps cmp_cst
  cmp_inst_to_crab_int i negated fac =
      let j = normalize_inst m i in
      let (exps, fac') = operand_exps j true fac in
      elim exps [ none ↦ (none, fac') | some ops ↦ (cmp_cst j.pred negated ops.0 ops.1, fac') ]

  -- The lowering of one of the two unsigned comparisons.
  abbrev sign_ones : Var → LinExp × LinExp → Bool → Bool → Factory State → List Stmt × Factory State
  sign_ones res ops negated ule fac =
      unsigned_cmp_into_sign_ones f value_at ap content_width params tests res ops.0 ops.1 negated
        ule fac

  -- The variable that has the result, with the statements that compute it.
  abbrev with_result :
      LinExp × LinExp
      → Bool
      → Bool
      → Factory State
      → Checked (Option (Var × List Stmt) × Factory State)
  with_result ops negated ule fac =
      let (res, fac1) = mk_bool_var f value_at ap content_width params fac in
      let (block, fac2) = sign_ones res ops negated ule fac1 in ok (some (res, block), fac2)

  unfoldable pub unsigned_switch :
      Predicate
      → LinExp × LinExp
      → Bool
      → Factory State
      → Checked (Option (Var × List Stmt) × Factory State)
  unfolding unsigned_cmp_into_sign_ones
  unsigned_switch icmp_ult ops negated fac = with_result ops negated false fac
  unsigned_switch icmp_ule ops negated fac = with_result ops negated true fac
  unsigned_switch _ ops negated fac = clam_error

  unfoldable pub unsigned_cmp_inst_to_crab_int :
      CmpInst → Bool → Factory State → Checked (Option (Var × List Stmt) × Factory State)
  unfolding normalize_inst operand_exps unsigned_switch
  unsigned_cmp_inst_to_crab_int i negated fac =
      let j = normalize_inst m i in
      let (exps, fac') = operand_exps j false fac in
      elim exps [ none ↦ ok (none, fac') | some ops ↦ unsigned_switch j.pred ops negated fac' ]

  -- The switch of cmpInstToCrabBool; where the unsigned comparisons are kept it only warns.
  unfoldable pub bool_switch :
      Predicate → Var → LinExp × LinExp → Bool → Factory State → Checked (List Stmt × Factory State)
  unfolding minus_number unsigned_cmp_into_sign_ones
  bool_switch icmp_eq lhs ops remove fac = ok (bool_assign lhs (eq ops.0 ops.1) ∷ [], fac)
  bool_switch icmp_ne lhs ops remove fac = ok (bool_assign lhs (ne ops.0 ops.1) ∷ [], fac)
  bool_switch icmp_slt lhs ops remove fac =
      ok (bool_assign lhs (le ops.0 (minus_number ops.1 (pos 1))) ∷ [], fac)
  bool_switch icmp_sle lhs ops remove fac = ok (bool_assign lhs (le ops.0 ops.1) ∷ [], fac)
  bool_switch icmp_ult lhs ops remove fac =
      if remove then ok (sign_ones lhs ops false false fac) else ok ([], fac)
  bool_switch icmp_ule lhs ops remove fac =
      if remove then ok (sign_ones lhs ops false true fac) else ok ([], fac)
  bool_switch _ lhs ops remove fac = clam_error

  -- For the literal of the instruction and the expressions of the operands.
  unfoldable pub assign_cmp :
      CmpInst
      → Bool
      → Option Lit
      → Option (LinExp × LinExp) × Factory State
      → Checked (List Stmt × Factory State)
  unfolding bool_switch
  assign_cmp j remove (some (bool_var lhs)) (none, fac) =
      ok (if params.include_useless_havoc then havoc lhs ∷ [] else [], fac)
  assign_cmp j remove (some (bool_var lhs)) (some ops, fac) = bool_switch j.pred lhs ops remove fac
  assign_cmp j remove _ exps = clam_error

  unfoldable pub cmp_inst_to_crab_bool :
      CmpInst → Bool → Factory State → Checked (List Stmt × Factory State)
  unfolding normalize_inst operand_exps assign_cmp interpret_as_signed
  cmp_inst_to_crab_bool i remove fac =
      let j = normalize_inst m i in
      let (ref, fac1) = lit_at j.self true fac in
      assign_cmp j remove ref (operand_exps j (interpret_as_signed j.pred) fac1)
