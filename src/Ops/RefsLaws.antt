-- ===== src/Ops/RefsLaws.antt =====
-- A reference constraint holds exactly if the comparison of the addresses does.
use clam.Prelude.{
  ℕ, ◌≡◌, refl, sym, ap, subst, ◌∙◌, Bool, true, false, not, Option, none, some, ◌==◌, ltb, leb,
  arith,
}
use clam.Llvm.{
  Predicate, icmp_eq, icmp_ne, icmp_ugt, icmp_uge, icmp_ult, icmp_ule, icmp_sgt, icmp_sge, icmp_slt,
  icmp_sle, Icmp, IcmpLaws,
}
use clam.Lit.Values.{Value, Params, VarFactory}
use clam.Lit.Consts.{ApInt}
use clam.Lit.Literal.{Checked, ok, clam_error}
use clam.Lit.Factory.{Factory, get_lit}
use clam.Compare.Insts.{CmpInst, swap_insts, normalize_by, normalize_inst}
use clam.Compare.InstsLaws.{negate_if, icmp_of_inst, IsNormalInst, normalize_by-Keeps}
use clam.Ir.{RefCst, ref_holds}
use clam.Ops.Refs.{
  RefView, ref_variable, null, ref_view, eq_cst, ne_cst, lt_cst, le_cst, ref_switch, join_refs,
  cmp_inst_to_crab_ref, with_factory,
}

-- the address that a literal stands for
abbrev pub address : (ℕ → ℕ) → RefView → ℕ
address refs (ref_variable x) = refs x.name
address refs null = 0

-- the predicates that mean the same on addresses and on integers that are not signed
abbrev pub NotSigned : Predicate → Type 0
NotSigned icmp_sgt = ⊥
NotSigned icmp_sge = ⊥
NotSigned icmp_slt = ⊥
NotSigned icmp_sle = ⊥
NotSigned _ = Unit

module _ (negate : RefCst → RefCst) (refs : ℕ → ℕ)
    (negate_law : (c : RefCst) → ref_holds refs (negate c) ≡ not (ref_holds refs c)) where
  -- The constraint holds exactly if `r`, or its negation, does; the error is for two null pointers.
  abbrev Means : Checked RefCst → Bool → RefView → RefView → Bool → Type 0
  Means (ok c) negated a b r = ref_holds refs c ≡ negate_if negated r
  Means clam_error negated a b r = (a ≡ null) × (b ≡ null)

  eq_cst-holds :
      (negated : Bool) (a b : RefView)
      → ref_holds refs (eq_cst negate negated a b)
        ≡ negate_if negated (address refs a == address refs b)
  unfolding eq_cst ref_holds
  eq_cst-holds false (ref_variable x) null = refl
  eq_cst-holds true (ref_variable x) null = ground arith
  eq_cst-holds false null (ref_variable y) = ground arith
  eq_cst-holds true null (ref_variable y) = ground arith
  eq_cst-holds false (ref_variable x) (ref_variable y) = refl
  eq_cst-holds true (ref_variable x) (ref_variable y) = negate_law _
  eq_cst-holds false null null = refl
  eq_cst-holds true null null = negate_law _

  ne_cst-holds :
      (negated : Bool) (a b : RefView)
      → ref_holds refs (ne_cst negate negated a b)
        ≡ negate_if negated (not (address refs a == address refs b))
  unfolding ne_cst ref_holds
  ne_cst-holds false (ref_variable x) null = ground arith
  ne_cst-holds true (ref_variable x) null = negate_law _ ∙ ap not (ground arith)
  ne_cst-holds false null (ref_variable y) = ground arith
  ne_cst-holds true null (ref_variable y) = negate_law _ ∙ ap not (ground arith)
  ne_cst-holds false (ref_variable x) (ref_variable y) = refl
  ne_cst-holds true (ref_variable x) (ref_variable y) = negate_law _
  ne_cst-holds false null null = refl
  ne_cst-holds true null null = negate_law _

  lt_cst-Means :
      (negated : Bool) (a b : RefView)
      → Means (lt_cst negate negated a b) negated a b (ltb (address refs a) (address refs b))
  unfolding lt_cst ref_holds
  lt_cst-Means false (ref_variable x) null = refl
  lt_cst-Means true (ref_variable x) null = negate_law _
  lt_cst-Means false null (ref_variable y) = refl
  lt_cst-Means true null (ref_variable y) = negate_law _
  lt_cst-Means false (ref_variable x) (ref_variable y) = refl
  lt_cst-Means true (ref_variable x) (ref_variable y) = negate_law _
  lt_cst-Means negated null null = (refl, refl)

  le_cst-Means :
      (negated : Bool) (a b : RefView)
      → Means (le_cst negate negated a b) negated a b (leb (address refs a) (address refs b))
  unfolding le_cst ref_holds
  le_cst-Means false (ref_variable x) null = ground arith
  le_cst-Means true (ref_variable x) null = negate_law _ ∙ ap not (ground arith)
  le_cst-Means false null (ref_variable y) = ground arith
  le_cst-Means true null (ref_variable y) = negate_law _ ∙ ap not (ground arith)
  le_cst-Means false (ref_variable x) (ref_variable y) = ground arith
  le_cst-Means true (ref_variable x) (ref_variable y) = negate_law _ ∙ ap not (ground arith)
  le_cst-Means negated null null = (refl, refl)

  module _ {half : ℕ} (m : Icmp half) (laws : IcmpLaws m) where
    ref_switch-Means :
        (p : Predicate) (negated : Bool) (a b : RefView)
        → IsNormalInst p
        → NotSigned p
        → Means
            (ref_switch negate p negated a b)
            negated
            a
            b
            (m.icmp p (address refs a) (address refs b))
    unfolding ref_switch
    ref_switch-Means icmp_eq negated a b h k =
        eq_cst-holds negated a b ∙ ap (negate_if negated) (sym (laws.eq_law _ _))
    ref_switch-Means icmp_ne negated a b h k =
        ne_cst-holds negated a b ∙ ap (negate_if negated) (sym (laws.ne_law _ _))
    ref_switch-Means icmp_ult negated a b h k = rw (laws.ult_law _ _) (lt_cst-Means negated a b)
    ref_switch-Means icmp_ule negated a b h k = rw (laws.ule_law _ _) (le_cst-Means negated a b)
    ref_switch-Means icmp_ugt negated a b h k = absurd h
    ref_switch-Means icmp_uge negated a b h k = absurd h
    ref_switch-Means icmp_sgt negated a b h k = absurd h
    ref_switch-Means icmp_sge negated a b h k = absurd h
    ref_switch-Means icmp_slt negated a b h k = absurd k
    ref_switch-Means icmp_sle negated a b h k = absurd k

    -- the predicate that is left is of the same kind
    not_signed_lem :
        (p : Predicate) (i : CmpInst)
        → i.pred ≡ p
        → NotSigned p
        → NotSigned (normalize_by m p i).pred
    unfolding normalize_by swap_insts
    not_signed_lem icmp_ugt i e h = rw (e, laws.swapped_ugt) tt
    not_signed_lem icmp_uge i e h = rw (e, laws.swapped_uge) tt
    not_signed_lem icmp_eq i e h = rw e tt
    not_signed_lem icmp_ne i e h = rw e tt
    not_signed_lem icmp_ult i e h = rw e tt
    not_signed_lem icmp_ule i e h = rw e tt
    not_signed_lem icmp_sgt i e h = absurd h
    not_signed_lem icmp_sge i e h = absurd h
    not_signed_lem icmp_slt i e h = absurd h
    not_signed_lem icmp_sle i e h = absurd h

    module _ (f : VarFactory) (value_at : ℕ → Value) (ap' : (w : ℕ) → ApInt w)
        (content_width : ℕ → ℕ) (params : Params) where
      open f use {State}

      -- what the operands of the normalized instruction are read as, and their addresses
      abbrev pub ReadsRefs :
          CmpInst → (ℕ → ℕ) → RefView → RefView → Factory State → Factory State → Type 0
      ReadsRefs i bits a b fac fac' =
          let j = normalize_inst m i in
          let r0 = get_lit f value_at ap' content_width params j.v0 true fac in
          let r1 = get_lit f value_at ap' content_width params j.v1 true r0.1 in
          (ref_view r0.0 ≡ some a)
          × (ref_view r1.0 ≡ some b)
          × (r1.1 ≡ fac')
          × (address refs a ≡ bits j.v0)
          × (address refs b ≡ bits j.v1)

      -- what the translation gives, and the factory after it
      abbrev pub Translates :
          Checked (Option RefCst × Factory State)
          → Bool
          → RefView
          → RefView
          → Bool
          → Factory State
          → Type 0
      Translates (ok (some c, s)) negated a b r fac' =
          (ref_holds refs c ≡ negate_if negated r) × (s ≡ fac')
      Translates (ok (none, s)) negated a b r fac' = ⊥
      Translates clam_error negated a b r fac' = (a ≡ null) × (b ≡ null)

      with_factory-Translates :
          (c : Checked RefCst) (negated : Bool) (a b : RefView) (r : Bool) (fac' : Factory State)
          → Means c negated a b r
          → Translates (with_factory negate c fac') negated a b r fac'
      with_factory-Translates (ok c) negated a b r fac' h = (h, refl)
      with_factory-Translates clam_error negated a b r fac' h = h

      -- If the operands are read as references whose addresses are the ones that are compared, and the
      -- predicate is not signed, then the constraint that is returned holds exactly if the comparison
      -- does, or if its negation does where that is asked for. There always is one, except that the
      -- code reports an error only where both operands are null.
      pub cmp_inst_to_crab_ref-Translates :
          (bits : ℕ → ℕ) (i : CmpInst) (negated : Bool) (a b : RefView) (fac fac' : Factory State)
          → NotSigned i.pred
          → ReadsRefs i bits a b fac fac'
          → Translates
              (cmp_inst_to_crab_ref negate m f value_at ap' content_width params i negated fac)
              negated
              a
              b
              (icmp_of_inst m laws bits i)
              fac'
      unfolding cmp_inst_to_crab_ref join_refs normalize_inst
      cmp_inst_to_crab_ref-Translates bits i negated a b fac fac' kind (h0, h1, h2, e0, e1) =
          let j = normalize_inst m i in
          let (same, _, normal) = normalize_by-Keeps m laws bits i i.pred refl in
          let r0 = get_lit f value_at ap' content_width params j.v0 true fac in
          let r1 = get_lit f value_at ap' content_width params j.v1 true r0.1 in
          let join = join_refs negate m f value_at ap' content_width params j.pred negated in
          let read =
            ap (λ v. join v r0.1 (ref_view r1.0, r1.1)) h0
            ∙ (ap (λ v. join (some a) r0.1 (v, r1.1)) h1
                ∙ ap (λ s. with_factory negate (ref_switch negate j.pred negated a b) s) h2) in
          let value =
            ap (λ x. m.icmp j.pred x (address refs b)) e0
            ∙ (ap (λ y. m.icmp j.pred (bits j.v0) y) e1 ∙ same) in
          subst (λ c. Translates c negated a b (icmp_of_inst m laws bits i) fac') (sym read)
            (with_factory-Translates (ref_switch negate j.pred negated a b) negated a b
              (icmp_of_inst m laws bits i) fac'
              (subst (Means (ref_switch negate j.pred negated a b) negated a b) value
                (ref_switch-Means j.pred negated a b normal (not_signed_lem i.pred i refl kind))))
