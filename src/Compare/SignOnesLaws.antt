-- ===== src/Compare/SignOnesLaws.antt =====
-- What the statements of unsignedCmpIntoSignOnes compute.
use clam.Prelude.{
  ℕ, ◌*◌, ◌<◌, ◌≡◌, ◌↔◌, refl, sym, ap, ◌∙◌, Bool, true, false, not, List, ◌==◌, ltb, if◌then◌else◌,
  arith, Bool-cases, inl, inr,
}
use clam.Prelude.Int.{ℤ, pos}
use clam.Llvm.{signed}
use clam.Lit.Values.{Value, Params, Var, VarFactory, VarFactoryLaws}
use clam.Lit.Consts.{ApInt}
use clam.Lit.Literal.{LinExp}
use clam.Lit.Factory.{Factory, mk_bool_var, new_var}
use clam.Compare.Crab.{ge, number_exp, Stmt, exp_value, holds, exec, CstTests, CstTestsLaws}
use clam.Compare.SignOnes.{
  sign_cmp, constant_cst, Sign, non_negative, negative, unknown, sign_of,
  unsigned_cmp_into_sign_ones,
}
use clam.Compare.Results.{
  signed_result, unsigned_result, sign_cmp_lem, constant_cst_lem, by_signs, results_agree,
}
use clam.Compare.Blocks.{
  one-run, second_unknown-run, first_negative-run, first_unknown-run, both_unknown-run, after,
  get_differs,
}

module _ (f : VarFactory) (value_at : ℕ → Value) (ap' : (w : ℕ) → ApInt w) (content_width : ℕ → ℕ)
    (params : Params) (tests : CstTests) (names : VarFactoryLaws f)
    (laws : CstTestsLaws tests) where
  open f use {State, get}

  -- what a test of a sign says of the value
  abbrev SignHolds : (ℕ → ℤ) → LinExp → Sign → Type 0
  SignHolds ints op non_negative = holds ints (ge op (number_exp (pos 0))) ≡ true
  SignHolds ints op negative = holds ints (ge op (number_exp (pos 0))) ≡ false
  SignHolds ints op unknown = Unit

  sign_of-SignHolds : (ints : ℕ → ℤ) (op : LinExp) → SignHolds ints op (sign_of tests op)
  unfolding sign_of
  sign_of-SignHolds ints op =
      let cst = ge op (number_exp (pos 0)) in
      elim (Bool-cases (tests.is_tautology cst)) [
        | inl e ↦ rw e (laws.tautology_law ints cst e)
        | inr e ↦ elim (Bool-cases (tests.is_contradiction cst)) [
          | inl k ↦ rw (e, k) (laws.contradiction_law ints cst k)
          | inr k ↦ rw (e, k) tt
        ]
      ]

  -- the new names differ
  differs :
      (i k : ℕ) (s : State)
      → ((get (after f names i s)).0 == (get (after f names k (get (after f names i s)).1)).0)
        ≡ false
  differs i k s = get_differs f names k (after f names i s)

  Differs-sym : (m n : ℕ) → (m == n) ≡ false → (n == m) ≡ false
  Differs-sym m n h = ground arith

  module _ (pick : ℕ → Bool) (ints : ℕ → ℤ) (bools : ℕ → Bool) (res : Var) (op0 op1 : LinExp)
      (negated ule : Bool) (fac : Factory State) where
    abbrev pub emitted : List Stmt
    emitted =
        (unsigned_cmp_into_sign_ones f value_at ap' content_width params tests res op0 op1 negated
          ule fac).0

    -- what the block computes, by the constraints on the signs
    abbrev by_constraints : Bool
    by_constraints =
        let t1 = holds ints (ge op1 (number_exp (pos 0))) in
        let cmp = holds ints (sign_cmp negated ule op0 op1) in
        if holds ints (ge op0 (number_exp (pos 0)))
        then (if t1 then cmp else holds ints (constant_cst negated))
        else (if t1 then holds ints (constant_cst (not negated)) else cmp)

    emitted-run :
        (s0 s1 : Sign)
        → sign_of tests op0 ≡ s0
        → sign_of tests op1 ≡ s1
        → SignHolds ints op0 s0
        → SignHolds ints op1 s1
        → exec pick ints
            (unsigned_cmp_into_sign_ones f value_at ap' content_width params tests res op0 op1
              negated ule fac).0
            bools
            res.name
          ≡ by_constraints
    unfolding unsigned_cmp_into_sign_ones mk_bool_var new_var
    emitted-run non_negative non_negative e0 e1 h0 h1 =
        rw (e0, e1, unsigned_cmp_into_sign_ones, h0, h1) (one-run pick ints bools res _)
    emitted-run non_negative negative e0 e1 h0 h1 =
        rw (e0, e1, unsigned_cmp_into_sign_ones, h0, h1) (one-run pick ints bools res _)
    emitted-run negative non_negative e0 e1 h0 h1 =
        rw (e0, e1, unsigned_cmp_into_sign_ones, h0, h1) (one-run pick ints bools res _)
    emitted-run negative negative e0 e1 h0 h1 =
        rw (e0, e1, unsigned_cmp_into_sign_ones, h0, h1) (one-run pick ints bools res _)
    emitted-run non_negative unknown e0 e1 h0 h1 =
        let s = fac.vfac in
        rw (e0, e1, unsigned_cmp_into_sign_ones, h0)
          (second_unknown-run pick ints bools res _ _ _ _ _ _ (differs 0 0 s) (differs 0 1 s)
            (differs 1 0 s))
    emitted-run negative unknown e0 e1 h0 h1 =
        let s = fac.vfac in
        rw (e0, e1, unsigned_cmp_into_sign_ones, h0)
          (first_negative-run pick ints bools res _ _ _ _ _ _ (differs 0 0 s) (differs 0 1 s)
            (differs 1 0 s))
    emitted-run unknown non_negative e0 e1 h0 h1 =
        let s = fac.vfac in
        rw (e0, e1, unsigned_cmp_into_sign_ones, h1)
          (first_unknown-run pick ints bools res _ _ _ _ _ _ (differs 0 0 s) (differs 0 1 s)
            (differs 1 0 s))
    emitted-run unknown negative e0 e1 h0 h1 =
        let s = fac.vfac in
        rw (e0, e1, unsigned_cmp_into_sign_ones, h1)
          (first_unknown-run pick ints bools res _ _ _ _ _ _ (differs 0 0 s) (differs 0 1 s)
            (differs 1 0 s))
    emitted-run unknown unknown e0 e1 h0 h1 =
        let s = fac.vfac in
        rw (e0, e1, unsigned_cmp_into_sign_ones)
          (both_unknown-run pick ints bools res _ _ _ _ _ _ (differs 0 0 s) (differs 0 1 s)
            (differs 0 2 s) (differs 0 3 s) (differs 0 4 s) (differs 0 5 s) (differs 0 6 s)
            (differs 1 0 s) (differs 1 4 s) (differs 1 5 s) (Differs-sym _ _ (differs 1 1 s))
            (differs 3 0 s) (differs 3 1 s) (differs 3 2 s) (differs 3 3 s) (differs 4 0 s)
            (differs 6 0 s))

    -- The block that unsignedCmpIntoSignOnes emits leaves in the result the signed comparison of the
    -- values of the two operands, reversed if it is negated, whatever is known of their signs.
    pub unsigned_cmp_into_sign_ones-signed :
        exec pick ints emitted bools res.name
        ≡ signed_result negated ule (exp_value ints op0) (exp_value ints op1)
    unfolding exp_value holds
    unsigned_cmp_into_sign_ones-signed =
        emitted-run (sign_of tests op0) (sign_of tests op1) refl refl (sign_of-SignHolds ints op0)
          (sign_of-SignHolds ints op1)
        ∙ rw
            (
              sign_cmp_lem ints negated ule op0 op1,
              constant_cst_lem ints negated,
              constant_cst_lem ints (not negated),
            )
            (by_signs negated ule (exp_value ints op0) (exp_value ints op1))

    -- If the operands have as their values the signed readings of two bit patterns, the result is
    -- the unsigned comparison of the bits, reversed if it is negated, exactly if their sign bits are
    -- equal.
    pub unsigned_cmp_into_sign_ones-agree :
        (half a0 a1 : ℕ)
        → exp_value ints op0 ≡ signed half a0
        → exp_value ints op1 ≡ signed half a1
        → a0 < 2 * half
        → a1 < 2 * half
        → (exec pick ints emitted bools res.name ≡ unsigned_result negated ule a0 a1)
          ↔ (ltb a0 half ≡ ltb a1 half)
    unsigned_cmp_into_sign_ones-agree half a0 a1 e0 e1 h0 h1 =
        let run : exec pick ints emitted bools res.name
            ≡ signed_result negated ule (signed half a0) (signed half a1) =
          unsigned_cmp_into_sign_ones-signed
          ∙ (ap (λ x. signed_result negated ule x (exp_value ints op1)) e0
              ∙ ap (λ y. signed_result negated ule (signed half a0) y) e1) in
        let iff = results_agree negated ule half a0 a1 h0 h1 in
        (λ h. iff.0 (sym run ∙ h), λ h. run ∙ iff.1 h)
