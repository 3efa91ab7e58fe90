-- ===== src/Compare/InstsLaws.antt =====
-- The translated comparisons mean what LLVM's comparisons mean.
use clam.Prelude.{
  ℕ, ◌*◌, ◌<◌, ◌≡◌, refl, sym, ap, ◌∙◌, Bool, true, false, not, Option, none, some, ◌==◌,
  if◌then◌else◌, arith,
}
use clam.Prelude.Int.{ℤ}
use clam.Llvm.{
  Predicate, icmp_eq, icmp_ne, icmp_ugt, icmp_uge, icmp_ult, icmp_ule, icmp_sgt, icmp_sge, icmp_slt,
  icmp_sle, Icmp, IcmpLaws, signed,
}
use clam.Lit.Values.{Value, Params, VarFactory}
use clam.Lit.Consts.{ApInt}
use clam.Lit.Literal.{LinExp}
use clam.Lit.Factory.{Factory}
use clam.Compare.Crab.{LinCst, exp_value, eqb_ℤ, holds, CstTests}
use clam.Compare.SignOnes.{sign_cmp}
use clam.Compare.Results.{signed_result, sign_cmp_lem}
use clam.Compare.Insts.{
  CmpInst, swap_insts, normalize_by, normalize_inst, cmp_cst, operand_exps, cmp_inst_to_crab_int,
}

abbrev pub is_unsigned : Predicate → Bool
is_unsigned icmp_ugt = true
is_unsigned icmp_uge = true
is_unsigned icmp_ult = true
is_unsigned icmp_ule = true
is_unsigned _ = false

-- the predicates that normalizeCmpInst leaves
abbrev pub IsNormalInst : Predicate → Type 0
IsNormalInst icmp_ugt = ⊥
IsNormalInst icmp_uge = ⊥
IsNormalInst icmp_sgt = ⊥
IsNormalInst icmp_sge = ⊥
IsNormalInst _ = Unit

abbrev pub negate_if : Bool → Bool → Bool
negate_if negated r = if negated then not r else r

not-not : (b : Bool) → not (not b) ≡ b
not-not true = refl
not-not false = refl

eqb_signed :
    (half a b : ℕ) → a < 2 * half → b < 2 * half → eqb_ℤ (signed half a) (signed half b) ≡ (a == b)
eqb_signed half a b h k = ground arith

module _ {half : ℕ} (m : Icmp half) (laws : IcmpLaws m) where
  -- the comparison of two operands with the values of their bits
  abbrev pub icmp_of_inst : (ℕ → ℕ) → CmpInst → Bool
  icmp_of_inst bits i = m.icmp i.pred (bits i.v0) (bits i.v1)

  abbrev pub Keeps : (ℕ → ℕ) → CmpInst → CmpInst → Type 0
  Keeps bits i j =
      (icmp_of_inst bits j ≡ icmp_of_inst bits i)
      × (is_unsigned j.pred ≡ is_unsigned i.pred)
      × IsNormalInst j.pred

  pub normalize_by-Keeps :
      (bits : ℕ → ℕ) (i : CmpInst) (p : Predicate) → i.pred ≡ p → Keeps bits i (normalize_by m p i)
  unfolding normalize_by swap_insts
  normalize_by-Keeps bits i icmp_ugt e =
      (laws.swapped_law i.pred _ _, rw (e, laws.swapped_ugt) refl, rw (e, laws.swapped_ugt) tt)
  normalize_by-Keeps bits i icmp_uge e =
      (laws.swapped_law i.pred _ _, rw (e, laws.swapped_uge) refl, rw (e, laws.swapped_uge) tt)
  normalize_by-Keeps bits i icmp_sgt e =
      (laws.swapped_law i.pred _ _, rw (e, laws.swapped_sgt) refl, rw (e, laws.swapped_sgt) tt)
  normalize_by-Keeps bits i icmp_sge e =
      (laws.swapped_law i.pred _ _, rw (e, laws.swapped_sge) refl, rw (e, laws.swapped_sge) tt)
  normalize_by-Keeps bits i icmp_eq e = (refl, refl, rw e tt)
  normalize_by-Keeps bits i icmp_ne e = (refl, refl, rw e tt)
  normalize_by-Keeps bits i icmp_ult e = (refl, refl, rw e tt)
  normalize_by-Keeps bits i icmp_ule e = (refl, refl, rw e tt)
  normalize_by-Keeps bits i icmp_slt e = (refl, refl, rw e tt)
  normalize_by-Keeps bits i icmp_sle e = (refl, refl, rw e tt)

  module _ (ints : ℕ → ℤ) (ops : LinExp × LinExp) (a b : ℕ) (ha : a < 2 * half) (hb : b < 2 * half)
      (ea : exp_value ints ops.0 ≡ signed half a) (eb : exp_value ints ops.1 ≡ signed half b) where
    -- the constraint of a signed comparison, or none
    abbrev Means : Predicate → Bool → Option LinCst → Type 0
    Means p negated none = is_unsigned p ≡ true
    Means p negated (some c) =
        (is_unsigned p ≡ false) × (holds ints c ≡ negate_if negated (m.icmp p a b))

    pub by_values :
        (negated ule : Bool)
        → holds ints (sign_cmp negated ule ops.0 ops.1)
          ≡ signed_result negated ule (signed half a) (signed half b)
    by_values negated ule =
        sign_cmp_lem ints negated ule ops.0 ops.1
        ∙ (ap (λ x. signed_result negated ule x (exp_value ints ops.1)) ea
            ∙ ap (λ y. signed_result negated ule (signed half a) y) eb)

    pub equal_values : eqb_ℤ (exp_value ints ops.0) (exp_value ints ops.1) ≡ (a == b)
    equal_values =
        ap (λ x. eqb_ℤ x (exp_value ints ops.1)) ea
        ∙ (ap (λ y. eqb_ℤ (signed half a) y) eb ∙ eqb_signed half a b ha hb)

    cmp_cst-Means :
        (p : Predicate) (negated : Bool)
        → IsNormalInst p
        → Means p negated (cmp_cst p negated ops.0 ops.1)
    unfolding cmp_cst holds sign_cmp
    cmp_cst-Means icmp_eq false h = (refl, equal_values ∙ sym (laws.eq_law a b))
    cmp_cst-Means icmp_eq true h = (refl, ap not (equal_values ∙ sym (laws.eq_law a b)))
    cmp_cst-Means icmp_ne false h = (refl, ap not equal_values ∙ sym (laws.ne_law a b))
    cmp_cst-Means icmp_ne true h =
        (refl, equal_values ∙ (sym (not-not (a == b)) ∙ ap not (sym (laws.ne_law a b))))
    cmp_cst-Means icmp_slt false h = (refl, by_values false false ∙ sym (laws.slt_law a b))
    cmp_cst-Means icmp_slt true h = (refl, by_values true false ∙ ap not (sym (laws.slt_law a b)))
    cmp_cst-Means icmp_sle false h = (refl, by_values false true ∙ sym (laws.sle_law a b))
    cmp_cst-Means icmp_sle true h = (refl, by_values true true ∙ ap not (sym (laws.sle_law a b)))
    cmp_cst-Means icmp_ult negated h = refl
    cmp_cst-Means icmp_ule negated h = refl
    cmp_cst-Means icmp_ugt negated h = refl
    cmp_cst-Means icmp_uge negated h = refl
    cmp_cst-Means icmp_sgt negated h = absurd h
    cmp_cst-Means icmp_sge negated h = absurd h

module _ {half : ℕ} (m : Icmp half) (laws : IcmpLaws m) (f : VarFactory) (value_at : ℕ → Value)
    (ap' : (w : ℕ) → ApInt w) (content_width : ℕ → ℕ) (params : Params) (tests : CstTests) where
  open f use {State}

  -- What a translation into a constraint gives: none for the unsigned comparisons, and for the
  -- others a constraint that holds exactly if the comparison, or its negation, does.
  abbrev pub Translates : (ℕ → ℤ) → (ℕ → ℕ) → CmpInst → Bool → Option LinCst → Type 0
  Translates ints bits i negated none = is_unsigned i.pred ≡ true
  Translates ints bits i negated (some c) =
      (is_unsigned i.pred ≡ false) × (holds ints c ≡ negate_if negated (icmp_of_inst m laws bits i))

  Translates-of :
      (ints : ℕ → ℤ) (bits : ℕ → ℕ) (i j : CmpInst) (negated : Bool) (o : Option LinCst)
      → icmp_of_inst m laws bits j ≡ icmp_of_inst m laws bits i
      → is_unsigned j.pred ≡ is_unsigned i.pred
      → Translates ints bits j negated o
      → Translates ints bits i negated o
  Translates-of ints bits i j negated none same kind t = sym kind ∙ t
  Translates-of ints bits i j negated (some c) same kind t =
      (sym kind ∙ t.0, t.1 ∙ ap (negate_if negated) same)

  -- what the operands of the normalized instruction are read as
  abbrev pub ReadsAs :
      CmpInst → Bool → (ℕ → ℤ) → (ℕ → ℕ) → LinExp × LinExp → Factory State → Factory State → Type 0
  ReadsAs i as_signed ints bits ops fac fac' =
      (operand_exps m f value_at ap' content_width params tests (normalize_inst m i) as_signed fac
        ≡ (some ops, fac'))
      × (exp_value ints ops.0 ≡ signed half (bits (normalize_inst m i).v0))
      × (exp_value ints ops.1 ≡ signed half (bits (normalize_inst m i).v1))

  -- If the operands are read as expressions whose values are the signed readings of their bits,
  -- cmpInstToCrabInt gives no constraint exactly for the unsigned comparisons, and for every other
  -- comparison one that holds exactly if LLVM's comparison of the bits, or its negation if that is
  -- asked for, is true.
  pub cmp_inst_to_crab_int-Translates :
      (i : CmpInst) (negated : Bool) (ints : ℕ → ℤ) (bits : ℕ → ℕ) (ops : LinExp × LinExp)
      (fac fac' : Factory State)
      → ((v : ℕ) → bits v < 2 * half)
      → ReadsAs i true ints bits ops fac fac'
      → Translates ints bits i negated
          (cmp_inst_to_crab_int m f value_at ap' content_width params tests i negated fac).0
  unfolding cmp_inst_to_crab_int normalize_inst
  cmp_inst_to_crab_int-Translates i negated ints bits ops fac fac' below (read, e0, e1) =
      let j = normalize_by m i.pred i in
      let (same, kind, normal) = normalize_by-Keeps m laws bits i i.pred refl in
      let means =
        cmp_cst-Means m laws ints ops (bits j.v0) (bits j.v1) (below j.v0) (below j.v1) e0 e1 j.pred
          negated normal in
      rw (read, cmp_inst_to_crab_int)
        (Translates-of ints bits i j negated _ same kind
          (of_means (cmp_cst j.pred negated ops.0 ops.1) means))
    where
      of_means :
          (o : Option LinCst)
          → Means m laws ints ops
              (bits (normalize_inst m i).v0)
              (bits (normalize_inst m i).v1)
              (below _)
              (below _)
              e0
              e1
              (normalize_inst m i).pred
              negated
              o
          → Translates ints bits (normalize_inst m i) negated o
      of_means none h = h
      of_means (some c) h = h
