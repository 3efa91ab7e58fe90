-- ===== src/Lower/UnsignedIcmpLaws.antt =====
-- What the blocks that replace an unsigned comparison compute.
use clam.Prelude.{
  ℕ, ◌*◌, ◌<◌, ◌≡◌, ◌↔◌, refl, sym, ap, subst, some_inv, ◌∙◌, Bool, true, false, some, ltb,
  if◌then◌else◌, arith, inl, inr, Bool-cases,
}
use clam.Llvm.{
  Predicate, icmp_ugt, icmp_uge, icmp_ult, icmp_ule, icmp_sgt, icmp_sge, Icmp, IcmpLaws, Operand,
  constant, variable, Cmp, Fragment, of_bool, value_of, eval_cmp, run,
}
use clam.Lower.UnsignedIcmp.{
  is_non_neg_int_cst, swap_operands, normalize_by, normalize_cmp_inst, signed_cmp, lower_constant,
  lower_general, process_unsigned_icmp, is_unsigned_less,
}

of_bool-injective : (x y : Bool) → of_bool x ≡ of_bool y → x ≡ y
of_bool-injective x y h = ground arith

-- What the branches of the general case choose, from the two tests and the signed comparison.
abbrev pub choose : Bool → Bool → Bool → Bool
choose nonneg1 nonneg2 less =
    if nonneg1 then (if nonneg2 then less else false) else (if nonneg2 then true else less)

module _ {half : ℕ} (m : Icmp half) (laws : IcmpLaws m) where
  non_negative : (a : ℕ) → a < 2 * half → m.icmp icmp_sge a 0 ≡ ltb a half
  non_negative a h = laws.sge_law a 0 ∙ ground arith

  -- The signed comparisons give just what the branches choose.
  choose-signed :
      (p : Predicate) (a b : ℕ)
      → is_unsigned_less p ≡ true
      → a < 2 * half
      → b < 2 * half
      → choose (ltb a half) (ltb b half) (m.icmp (m.signed_of p) a b) ≡ m.icmp (m.signed_of p) a b
  unfolding is_unsigned_less
  choose-signed icmp_ult a b h ha hb = rw (laws.signed_ult, laws.slt_law a b) (ground arith)
  choose-signed icmp_ule a b h ha hb = rw (laws.signed_ule, laws.sle_law a b) (ground arith)
  choose-signed _ a b h ha hb = cc

  -- The unsigned comparison agrees with the signed one exactly for operands of one sign.
  agree_iff :
      (p : Predicate) (a b : ℕ)
      → is_unsigned_less p ≡ true
      → a < 2 * half
      → b < 2 * half
      → (m.icmp (m.signed_of p) a b ≡ m.icmp p a b) ↔ (ltb a half ≡ ltb b half)
  unfolding is_unsigned_less
  agree_iff icmp_ult a b h ha hb =
      rw (laws.signed_ult, laws.slt_law a b, laws.ult_law a b) (ground arith)
  agree_iff icmp_ule a b h ha hb =
      rw (laws.signed_ule, laws.sle_law a b, laws.ule_law a b) (ground arith)
  agree_iff _ a b h ha hb = absurd (cc)

module _ {half : ℕ} (m : Icmp half) (env : ℕ → ℕ) where
  -- every value is a bit pattern
  abbrev pub InRange : Cmp → Type 0
  InRange c = (value_of m env c.lhs < 2 * half) × (value_of m env c.rhs < 2 * half)

  lower_general-choose :
      (c : Cmp)
      → run m env (lower_general m c)
        ≡ some (
            of_bool (
              choose
                (m.icmp icmp_sge (value_of m env c.lhs) 0)
                (m.icmp icmp_sge (value_of m env c.rhs) 0)
                (eval_cmp m env (signed_cmp m c))))
  unfolding run lower_general
  lower_general-choose c = ground arith

  lower_constant-choose :
      (c : Cmp) (nonneg2 : Bool)
      → run m env (lower_constant m c nonneg2)
        ≡ some (
            of_bool (
              if nonneg2
              then choose
                  (m.icmp icmp_sge (value_of m env c.lhs) 0)
                  true
                  (eval_cmp m env (signed_cmp m c))
              else choose true
                  (m.icmp icmp_sge (value_of m env c.rhs) 0)
                  (eval_cmp m env (signed_cmp m c))))
  unfolding run lower_constant
  lower_constant-choose c true = ground arith
  lower_constant-choose c false = ground arith

module _ {half : ℕ} (m : Icmp half) (laws : IcmpLaws m) (env : ℕ → ℕ) where
  non_neg_int_cst-value :
      (x : Operand) → is_non_neg_int_cst half x ≡ true → ltb (value_of m env x) half ≡ true
  unfolding is_non_neg_int_cst value_of
  non_neg_int_cst-value (constant k) h = h
  non_neg_int_cst-value (variable x) h = cc

  module _ (c : Cmp) (less : is_unsigned_less c.pred ≡ true) (range : InRange m env c) where
    abbrev a : ℕ
    a = value_of m env c.lhs

    abbrev b : ℕ
    b = value_of m env c.rhs

    chosen :
        choose (ltb a half) (ltb b half) (eval_cmp m env (signed_cmp m c))
        ≡ eval_cmp m env (signed_cmp m c)
    unfolding eval_cmp signed_cmp
    chosen = choose-signed m laws c.pred a b less range.0 range.1

    general_signed :
        run m env (lower_general m c) ≡ some (of_bool (eval_cmp m env (signed_cmp m c)))
    general_signed =
        lower_general-choose m env c
        ∙ ap (λ x. some (of_bool x))
            (rw (non_negative m laws a range.0, non_negative m laws b range.1) chosen)

    constant_signed :
        (nonneg2 : Bool)
        → (if nonneg2 then ltb b half else ltb a half) ≡ true
        → run m env (lower_constant m c nonneg2) ≡ some (of_bool (eval_cmp m env (signed_cmp m c)))
    constant_signed true h =
        lower_constant-choose m env c true
        ∙ ap (λ x. some (of_bool x))
            (rw (non_negative m laws a range.0) (ground (arith, h, chosen)))
    constant_signed false h =
        lower_constant-choose m env c false
        ∙ ap (λ x. some (of_bool x))
            (rw (non_negative m laws b range.1) (ground (arith, h, chosen)))

    abbrev Gives : Fragment → Type 0
    Gives f = run m env f ≡ some (of_bool (eval_cmp m env (signed_cmp m c)))

    -- The blocks that replace an unsigned comparison always give the value of the signed one, for
    -- operands of both signs, in the special case of a constant operand and in the general case.
    pub process_unsigned_icmp-signed :
        (f : Fragment)
        → process_unsigned_icmp m c ≡ some f
        → run m env f ≡ some (of_bool (eval_cmp m env (signed_cmp m c)))
    unfolding process_unsigned_icmp
    process_unsigned_icmp-signed f h = elim (Bool-cases (is_non_neg_int_cst half c.rhs)) [
      | inl e2 ↦ elim (Bool-cases (is_non_neg_int_cst half c.lhs)) [
        | inl e1 ↦ absurd (cc (rw (e1, e2) at h))
        | inr e1 ↦
            let same : some (lower_constant m c true) ≡ some f = rw (e1, e2) at h in
            subst Gives (some_inv same) (constant_signed true (non_neg_int_cst-value c.rhs e2))
      ]
      | inr e2 ↦ elim (Bool-cases (is_non_neg_int_cst half c.lhs)) [
        | inl e1 ↦
            let same : some (lower_constant m c false) ≡ some f = rw (e1, e2) at h in
            subst Gives (some_inv same) (constant_signed false (non_neg_int_cst-value c.lhs e1))
        | inr e1 ↦
            let same : some (lower_general m c) ≡ some f = rw (e1, e2) at h in
            subst Gives (some_inv same) general_signed
      ]
    ]

    -- They give the value of the unsigned comparison that they replace exactly when both operands
    -- have the same sign bit.
    pub process_unsigned_icmp-agree :
        (f : Fragment)
        → process_unsigned_icmp m c ≡ some f
        → (run m env f ≡ some (of_bool (eval_cmp m env c))) ↔ (ltb a half ≡ ltb b half)
    unfolding eval_cmp signed_cmp
    process_unsigned_icmp-agree f h =
        let agree = agree_iff m laws c.pred a b less range.0 range.1 in
        let value = process_unsigned_icmp-signed f h in
        (
          λ e. agree.0 (of_bool-injective _ _ (some_inv (sym value ∙ e))),
          λ e. value ∙ ap (λ x. some (of_bool x)) (agree.1 e),
        )

-- The predicates that are left after normalization.
abbrev pub IsNormal : Predicate → Type 0
IsNormal icmp_ugt = ⊥
IsNormal icmp_sgt = ⊥
IsNormal icmp_uge = ⊥
IsNormal icmp_sge = ⊥
IsNormal _ = Unit

module _ {half : ℕ} (m : Icmp half) (laws : IcmpLaws m) (env : ℕ → ℕ) where
  eval_cmp-swap : (c : Cmp) → eval_cmp m env (swap_operands m c) ≡ eval_cmp m env c
  unfolding eval_cmp swap_operands
  eval_cmp-swap c = laws.swapped_law c.pred (value_of m env c.lhs) (value_of m env c.rhs)

  normalize_by-eval :
      (p : Predicate) (c : Cmp) → eval_cmp m env (normalize_by m p c) ≡ eval_cmp m env c
  unfolding normalize_by
  normalize_by-eval icmp_ugt c = eval_cmp-swap c
  normalize_by-eval icmp_sgt c = eval_cmp-swap c
  normalize_by-eval icmp_uge c = eval_cmp-swap c
  normalize_by-eval icmp_sge c = eval_cmp-swap c
  normalize_by-eval _ c = refl

  normalize_by-IsNormal :
      (p : Predicate) (c : Cmp) → c.pred ≡ p → IsNormal (normalize_by m p c).pred
  unfolding normalize_by swap_operands
  normalize_by-IsNormal icmp_ugt c e = rw (e, laws.swapped_ugt) tt
  normalize_by-IsNormal icmp_sgt c e = rw (e, laws.swapped_sgt) tt
  normalize_by-IsNormal icmp_uge c e = rw (e, laws.swapped_uge) tt
  normalize_by-IsNormal icmp_sge c e = rw (e, laws.swapped_sge) tt
  normalize_by-IsNormal _ c e = rw e tt

  -- Normalizing keeps the value of a comparison, and leaves none of UGT, UGE, SGT and SGE.
  pub normalize_cmp_inst-keeps :
      (c : Cmp)
      → (eval_cmp m env (normalize_cmp_inst m c) ≡ eval_cmp m env c)
        × IsNormal (normalize_cmp_inst m c).pred
  unfolding normalize_cmp_inst
  normalize_cmp_inst-keeps c = (normalize_by-eval c.pred c, normalize_by-IsNormal c.pred c refl)
