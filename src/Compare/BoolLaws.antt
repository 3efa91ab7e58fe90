-- ===== src/Compare/BoolLaws.antt =====
-- What the statements of cmpInstToCrabBool compute.
use clam.Prelude.{
  ℕ, ◌*◌, ◌<◌, ◌≡◌, refl, sym, ap, ◌∙◌, Bool, true, false, not, List, some, if◌then◌else◌,
}
use clam.Prelude.Int.{ℤ}
use clam.Llvm.{
  Predicate, icmp_eq, icmp_ne, icmp_ugt, icmp_uge, icmp_ult, icmp_ule, icmp_sgt, icmp_sge, icmp_slt,
  icmp_sle, Icmp, IcmpLaws, signed,
}
use clam.Lit.Values.{Value, Params, Var, VarFactory, VarFactoryLaws}
use clam.Lit.Consts.{ApInt}
use clam.Lit.Literal.{Checked, ok, bool_var, LinExp}
use clam.Lit.Factory.{Factory, get_lit}
use clam.Compare.Crab.{eq, ne, Stmt, exp_value, holds, exec, CstTests, CstTestsLaws}
use clam.Compare.SignOnes.{sign_cmp}
use clam.Compare.Results.{signed_result}
use clam.Compare.Blocks.{one-run}
use clam.Compare.SignOnesLaws.{unsigned_cmp_into_sign_ones-signed}
use clam.Compare.Insts.{
  CmpInst, normalize_by, normalize_inst, interpret_as_signed, bool_switch, assign_cmp, operand_exps,
  cmp_inst_to_crab_bool,
}
use clam.Compare.InstsLaws.{
  is_unsigned, IsNormalInst, icmp_of_inst, normalize_by-Keeps, by_values, equal_values, ReadsAs,
}

module _ {half : ℕ} (m : Icmp half) (laws : IcmpLaws m) (f : VarFactory) (value_at : ℕ → Value)
    (ap' : (w : ℕ) → ApInt w) (content_width : ℕ → ℕ) (params : Params) (tests : CstTests)
    (names : VarFactoryLaws f) (tests_laws : CstTestsLaws tests) where
  open f use {State}

  -- The comparison; for an unsigned one the signed comparison if it is lowered, and else the value
  -- that the variable had.
  abbrev pub assigned : Predicate → Bool → Bool → ℕ → ℕ → Bool
  assigned p remove old a b =
      if is_unsigned p then (if remove then m.icmp (m.signed_of p) a b else old) else m.icmp p a b

  module _ (pick : ℕ → Bool) (ints : ℕ → ℤ) (bools : ℕ → Bool) (ops : LinExp × LinExp) (lhs : Var)
      (remove : Bool) (fac : Factory State) (a b : ℕ) (ha : a < 2 * half) (hb : b < 2 * half)
      (ea : exp_value ints ops.0 ≡ signed half a) (eb : exp_value ints ops.1 ≡ signed half b) where
    -- the switch emits a block that leaves the value in the variable
    abbrev Emits : Predicate → Checked (List Stmt × Factory State) → Bool → Type 0
    Emits p r value =
        (block : List Stmt) × (fac' : Factory State) × (r ≡ ok (block, fac'))
        × (exec pick ints block bools lhs.name ≡ value)

    lowered :
        (ule : Bool)
        → signed_result false ule (exp_value ints ops.0) (exp_value ints ops.1)
          ≡ signed_result false ule (signed half a) (signed half b)
    lowered ule =
        ap (λ x. signed_result false ule x (exp_value ints ops.1)) ea
        ∙ ap (λ y. signed_result false ule (signed half a) y) eb

    bool_switch-Emits :
        (p : Predicate) (r : Bool)
        → IsNormalInst p
        → Emits p
            (bool_switch m f value_at ap' content_width params tests p lhs ops r fac)
            (assigned p r (bools lhs.name) a b)
    unfolding bool_switch holds sign_cmp exec
    bool_switch-Emits icmp_eq r h = (
      _,
      _,
      refl,
      one-run pick ints bools lhs (eq ops.0 ops.1)
          ∙ (equal_values m laws ints ops a b ha hb ea eb ∙ sym (laws.eq_law a b)),
    )
    bool_switch-Emits icmp_ne r h = (
      _,
      _,
      refl,
      one-run pick ints bools lhs (ne ops.0 ops.1)
          ∙ (ap not (equal_values m laws ints ops a b ha hb ea eb) ∙ sym (laws.ne_law a b)),
    )
    bool_switch-Emits icmp_slt r h = (
      _,
      _,
      refl,
      one-run pick ints bools lhs (sign_cmp false false ops.0 ops.1)
          ∙ (by_values m laws ints ops a b ha hb ea eb false false ∙ sym (laws.slt_law a b)),
    )
    bool_switch-Emits icmp_sle r h = (
      _,
      _,
      refl,
      one-run pick ints bools lhs (sign_cmp false true ops.0 ops.1)
          ∙ (by_values m laws ints ops a b ha hb ea eb false true ∙ sym (laws.sle_law a b)),
    )
    bool_switch-Emits icmp_ult false h = (_, _, refl, refl)
    bool_switch-Emits icmp_ule false h = (_, _, refl, refl)
    bool_switch-Emits icmp_ult true h = (
      _,
      _,
      refl,
      unsigned_cmp_into_sign_ones-signed f value_at ap' content_width params tests names tests_laws
            pick ints bools lhs ops.0 ops.1 false false fac
          ∙ (lowered false
              ∙ (sym (laws.slt_law a b) ∙ ap (λ q. m.icmp q a b) (sym laws.signed_ult))),
    )
    bool_switch-Emits icmp_ule true h = (
      _,
      _,
      refl,
      unsigned_cmp_into_sign_ones-signed f value_at ap' content_width params tests names tests_laws
            pick ints bools lhs ops.0 ops.1 false true fac
          ∙ (lowered true
              ∙ (sym (laws.sle_law a b) ∙ ap (λ q. m.icmp q a b) (sym laws.signed_ule))),
    )
    bool_switch-Emits icmp_ugt r h = absurd h
    bool_switch-Emits icmp_uge r h = absurd h
    bool_switch-Emits icmp_sgt r h = absurd h
    bool_switch-Emits icmp_sge r h = absurd h

  -- If the instruction has a Boolean variable and its operands are read as expressions whose values
  -- are the signed readings of their bits, cmpInstToCrabBool emits a block. The block leaves in the
  -- variable the result of the comparison, if that is not an unsigned one. For an unsigned one it
  -- leaves the result of the signed comparison of the normalized instruction if unsigned comparisons
  -- are lowered, and the value that the variable had before if not.
  pub cmp_inst_to_crab_bool-Emits :
      (pick : ℕ → Bool) (ints : ℕ → ℤ) (bools : ℕ → Bool) (bits : ℕ → ℕ) (i : CmpInst)
      (remove : Bool) (ops : LinExp × LinExp) (lhs : Var) (fac fac1 fac2 : Factory State)
      → ((v : ℕ) → bits v < 2 * half)
      → get_lit f value_at ap' content_width params (normalize_inst m i).self true fac
        ≡ (some (bool_var lhs), fac1)
      → ReadsAs m laws f value_at ap' content_width params tests i
          (interpret_as_signed (normalize_inst m i).pred)
          ints
          bits
          ops
          fac1
          fac2
      → (block : List Stmt) × (fac' : Factory State) × (cmp_inst_to_crab_bool m f value_at ap'
            content_width params tests i remove fac
          ≡ ok (block, fac'))
        × (exec pick ints block bools lhs.name ≡ (
            if is_unsigned i.pred
            then (if remove
                then m.icmp
                    (m.signed_of (normalize_inst m i).pred)
                    (bits (normalize_inst m i).v0)
                    (bits (normalize_inst m i).v1)
                else bools lhs.name)
            else icmp_of_inst m laws bits i))
  unfolding cmp_inst_to_crab_bool assign_cmp normalize_inst
  cmp_inst_to_crab_bool-Emits pick ints bools bits i remove ops lhs fac fac1 fac2 below at_lhs
        (read, e0, e1) =
      let j = normalize_by m i.pred i in
      let (same, kind, normal) = normalize_by-Keeps m laws bits i i.pred refl in
      let (block, fac', emitted, run) =
        bool_switch-Emits pick ints bools ops lhs remove fac2 (bits j.v0) (bits j.v1) (below j.v0)
          (below j.v1) e0 e1 j.pred remove normal in
      let call = assign_cmp m f value_at ap' content_width params tests j remove in
      let exps =
        operand_exps m f value_at ap' content_width params tests j (interpret_as_signed j.pred) in
      (
        block,
        fac',
        ap (λ r. call r.0 (exps r.1)) at_lhs ∙ (ap (call (some (bool_var lhs))) read ∙ emitted),
        rw (← kind, ← same) run,
      )
