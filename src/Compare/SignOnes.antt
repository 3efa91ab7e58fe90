-- ===== src/Compare/SignOnes.antt =====
-- lib/Clam/CfgBuilder.cc: unsignedCmpIntoSignOnes.
use clam.Prelude.{ℕ, Bool, true, false, not, List, [], ◌∷◌, if◌then◌else◌}
use clam.Prelude.Int.{pos}
use clam.Lit.Values.{Value, Params, Var, VarFactory}
use clam.Lit.Consts.{ApInt}
use clam.Lit.Literal.{LinExp}
use clam.Lit.Factory.{Factory, mk_bool_var}
use clam.Compare.Crab.{
  LinCst, get_true, get_false, le, ge, plus_number, minus_number, number_exp, Stmt, bool_assign,
  bool_select, CstTests,
}

-- the comparison, reversed if it is negated
unfoldable pub sign_cmp : Bool → Bool → LinExp → LinExp → LinCst
unfolding plus_number minus_number
sign_cmp negated true op0 op1 = if not negated then le op0 op1 else ge op0 (plus_number op1 (pos 1))
sign_cmp negated false op0 op1 =
    if not negated then le op0 (minus_number op1 (pos 1)) else ge op0 op1

abbrev pub constant_cst : Bool → LinCst
constant_cst b = if b then get_true else get_false

-- The three tests of the sign of an operand.
pub data Sign : Type 0 where
  non_negative negative unknown : Sign

unfoldable pub sign_of : CstTests → LinExp → Sign
sign_of t op =
    let cst = ge op (number_exp (pos 0)) in
    if t.is_tautology cst
    then non_negative
    else if t.is_contradiction cst
    then negative
    else unknown

-- the first operand is not negative, and the second unknown
unfoldable pub second_unknown : Var → LinCst → LinCst → LinCst → Var → Var → Var → List Stmt
second_unknown res cst_op1 cmp v_false_cst c1 cmp_var v_false =
    bool_assign c1 cst_op1
    ∷ bool_assign cmp_var cmp
    ∷ bool_assign v_false v_false_cst
    ∷ bool_select res c1 cmp_var v_false
    ∷ []

-- the first operand is negative, and the second unknown
unfoldable pub first_negative : Var → LinCst → LinCst → LinCst → Var → Var → Var → List Stmt
first_negative res cst_op1 cmp v_true_cst c1 v_true cmp_var =
    bool_assign c1 cst_op1
    ∷ bool_assign v_true v_true_cst
    ∷ bool_assign cmp_var cmp
    ∷ bool_select res c1 v_true cmp_var
    ∷ []

-- the first operand is unknown, and the sign of the second is known
unfoldable pub first_unknown : Var → LinCst → LinCst → LinCst → Var → Var → Var → List Stmt
first_unknown res cst_op0 if_ge if_lt c2 op0_ge_0 op0_lt_0 =
    bool_assign c2 cst_op0
    ∷ bool_assign op0_ge_0 if_ge
    ∷ bool_assign op0_lt_0 if_lt
    ∷ bool_select res c2 op0_ge_0 op0_lt_0
    ∷ []

-- the variables of the general case, in the order in which they are made
pub record Fresh : Type 0 where
  pub c2 : Var
  pub op0_ge_0 : Var
  pub op0_lt_0 : Var
  pub c1 : Var
  pub cmp_true : Var
  pub v_false : Var
  pub cmp_false : Var
  pub v_true : Var

unfoldable pub both_unknown : Var → LinCst → LinCst → LinCst → LinCst → LinCst → Fresh → List Stmt
both_unknown res cst_op0 cst_op1 cmp v_false_cst v_true_cst v =
    bool_assign v.c2 cst_op0
    ∷ bool_assign v.c1 cst_op1
    ∷ bool_assign v.cmp_true cmp
    ∷ bool_assign v.v_false v_false_cst
    ∷ bool_select v.op0_ge_0 v.c1 v.cmp_true v.v_false
    ∷ bool_assign v.cmp_false cmp
    ∷ bool_assign v.v_true v_true_cst
    ∷ bool_select v.op0_lt_0 v.c1 v.v_true v.cmp_false
    ∷ bool_select res v.c2 v.op0_ge_0 v.op0_lt_0
    ∷ []

module _ (f : VarFactory) (value_at : ℕ → Value) (ap : (w : ℕ) → ApInt w) (content_width : ℕ → ℕ)
    (params : Params) (tests : CstTests) where
  open f use {State}

  abbrev make : Factory State → Var × Factory State
  make = mk_bool_var f value_at ap content_width params

  -- The statements that are added to the block, and the factory after them.
  unfoldable pub unsigned_cmp_into_sign_ones :
      Var → LinExp → LinExp → Bool → Bool → Factory State → List Stmt × Factory State
  unfolding sign_cmp sign_of second_unknown first_negative first_unknown both_unknown
  unsigned_cmp_into_sign_ones res op0 op1 negated ule fac =
      let cmp = sign_cmp negated ule op0 op1 in
      let cst_op0 = ge op0 (number_exp (pos 0)) in
      let cst_op1 = ge op1 (number_exp (pos 0)) in
      let cst_no = constant_cst negated in
      let cst_yes = constant_cst (not negated) in
      let (a, fac1) = make fac in
      let (b, fac2) = make fac1 in
      let (c, fac3) = make fac2 in
      let (d, fac4) = make fac3 in
      let (e, fac5) = make fac4 in
      let (g, fac6) = make fac5 in
      let (h, fac7) = make fac6 in
      let (i, fac8) = make fac7 in
      elim (sign_of tests op0) [
        | non_negative ↦ elim (sign_of tests op1) [
          | non_negative ↦ (bool_assign res cmp ∷ [], fac)
          | negative ↦ (bool_assign res cst_no ∷ [], fac)
          | unknown ↦ (second_unknown res cst_op1 cmp cst_no a b c, fac3)
        ]
        | negative ↦ elim (sign_of tests op1) [
          | non_negative ↦ (bool_assign res cst_yes ∷ [], fac)
          | negative ↦ (bool_assign res cmp ∷ [], fac)
          | unknown ↦ (first_negative res cst_op1 cmp cst_yes a b c, fac3)
        ]
        | unknown ↦ elim (sign_of tests op1) [
          | non_negative ↦ (first_unknown res cst_op0 cmp cst_yes a b c, fac3)
          | negative ↦ (first_unknown res cst_op0 cst_no cmp a b c, fac3)
          | unknown ↦ (
            both_unknown res cst_op0 cst_op1 cmp cst_no cst_yes (record {
              c2 = a;
              op0_ge_0 = b;
              op0_lt_0 = c;
              c1 = d;
              cmp_true = e;
              v_false = g;
              cmp_false = h;
              v_true = i;
            }),
            fac8,
          )
        ]
      ]
