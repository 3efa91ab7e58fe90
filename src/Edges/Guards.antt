-- ===== src/Edges/Guards.antt =====
-- The block of an edge of a conditional branch lets through the states in which the branch goes
-- that way.
use clam.Prelude.{
  ℕ, zero, suc, ◌*◌, ◌<◌, ◌≡◌, refl, sym, ap, subst, ◌∙◌, Bool, true, false, not, ◌&&◌, ◌||◌, List,
  [], ◌∷◌, ◌++◌, Option, none, some, ◌==◌, if◌then◌else◌, arith,
}
use clam.Llvm.{Icmp, IcmpLaws}
use clam.Lit.Values.{Value, Params, Var, VarFactory}
use clam.Lit.Consts.{ApInt}
use clam.Lit.Literal.{Checked, ok, clam_error, bool_var, LinExp}
use clam.Lit.Factory.{Factory, get_lit}
use clam.Compare.Crab.{LinCst, holds, CstTests}
use clam.Compare.Insts.{CmpInst, cmp_inst_to_crab_int}
use clam.Compare.InstsLaws.{
  negate_if, icmp_of_inst, is_unsigned, ReadsAs, cmp_inst_to_crab_int-Translates,
}
use clam.Compare.InstsLaws as Ints
use clam.Ir.{
  RefCst, ref_holds, Stmt, assume, bool_assume, assume_ref, unreachable, Env, IntOps, step, exec,
}
use clam.Ir.Runs.{guard, and_then, guard_twice, exec-++}
use clam.Uses.{Users}
use clam.Ops.Refs.{RefView, null, cmp_inst_to_crab_ref}
use clam.Ops.RefsLaws.{NotSigned, ReadsRefs, cmp_inst_to_crab_ref-Translates}
use clam.Ops.RefsLaws as Refs
use clam.Edges.{
  Condition, constant_int, constant_expr, cmp_inst, other_value, pred_is_unsigned, OperandKind,
  both_bool, both_int, both_ref, neither, assume_int, assume_reference, assume_cmp,
  lower_cond_as_bool, assume_lit, then_bool, edge_block, operand_kind,
}

module _ (o : IntOps) (picked : Env) where
  pub bool_assume-guard :
      (x : Var) (negated b : Bool) (e : Env)
      → e.bools x.name ≡ b
      → exec o picked (bool_assume x negated ∷ []) e ≡ guard true (negate_if negated b) e
  unfolding exec step
  bool_assume-guard x false true e h = rw (h, exec, step) refl
  bool_assume-guard x false false e h = rw (h, exec, step) refl
  bool_assume-guard x true true e h = rw (h, exec, step) refl
  bool_assume-guard x true false e h = rw (h, exec, step) refl

  module _ {half : ℕ} (m : Icmp half) (laws : IcmpLaws m) (f : VarFactory) (value_at : ℕ → Value)
      (ap' : (w : ℕ) → ApInt w) (content_width : ℕ → ℕ) (params : Params) (tests : CstTests)
      (negate : RefCst → RefCst) (uses_of : ℕ → Users) (bits : ℕ → ℕ)
      (below : (v : ℕ) → bits v < 2 * half) (e : Env)
      (negate_law : (c : RefCst) → ref_holds e.refs (negate c) ≡ not (ref_holds e.refs c)) where
    open f use {State}

    abbrev assume_of :
        OperandKind → CmpInst → Bool → Factory State → Checked (List Stmt × Factory State)
    assume_of = assume_cmp m f value_at ap' content_width params tests negate uses_of

    -- the block that is emitted guards the state
    abbrev pub Guards : Checked (List Stmt × Factory State) → Bool → Bool → Factory State → Type 0
    Guards emitted asked right fac' =
        (block : List Stmt) × (emitted ≡ ok (block, fac'))
        × (exec o picked block e ≡ guard asked right e)

    assume_run :
        (b : Bool)
        → elim (if b then some e else none) [ none ↦ none | some e' ↦ exec o picked [] e' ]
          ≡ guard true b e
    unfolding exec
    assume_run true = refl
    assume_run false = refl

    int-Guards :
        (i : CmpInst) (negated : Bool) (c : Option LinCst) (fac' : Factory State)
        → Ints.Translates m laws f value_at ap' content_width params tests e.ints bits i negated c
        → Guards
            (assume_int m f value_at ap' content_width params tests negate uses_of (c, fac'))
            (not (is_unsigned i.pred))
            (negate_if negated (icmp_of_inst m laws bits i))
            fac'
    unfolding exec step
    int-Guards i negated none fac' h = ([], refl, rw h refl)
    int-Guards i negated (some c) fac' (signed_pred, means) = (
      assume c ∷ [],
      refl,
      rw signed_pred (assume_run (holds e.ints c) ∙ ap (λ r. guard true r e) means),
    )

    ref-Guards :
        (c : Checked (Option RefCst × Factory State)) (negated : Bool) (a b : RefView) (r : Bool)
        (fac' : Factory State)
        → ¬ ((a ≡ null) × (b ≡ null))
        → Refs.Translates negate e.refs negate_law m laws f value_at ap' content_width params c
            negated a b r fac'
        → Guards
            (assume_reference m f value_at ap' content_width params tests negate uses_of c)
            true
            (negate_if negated r)
            fac'
    unfolding exec step
    ref-Guards (ok (some c, s)) negated a b r fac' some_object (means, same) = (
      assume_ref c ∷ [],
      ap (λ s. ok (assume_ref c ∷ [], s)) same,
      assume_run (ref_holds e.refs c) ∙ ap (λ r. guard true r e) means,
    )
    ref-Guards (ok (none, s)) negated a b r fac' some_object h = absurd h
    ref-Guards clam_error negated a b r fac' some_object h = absurd (some_object h)

    -- whether the comparison itself becomes an assumption
    abbrev pub asks : OperandKind → CmpInst → Bool
    asks both_int i = not (is_unsigned i.pred)
    asks both_ref i = true
    asks _ i = false

    -- What the operands are read as. An unsigned comparison of integers is not lowered, and a
    -- comparison of references is not signed and not of two null pointers.
    abbrev pub ReadsOperands : OperandKind → CmpInst → Factory State → Factory State → Type 0
    ReadsOperands both_int i fac fac' =
        ((params.lower_unsigned_icmp && pred_is_unsigned i.pred) ≡ false)
        × ((ops : LinExp × LinExp) × ReadsAs m laws f value_at ap' content_width params tests i true
              e.ints bits ops fac fac')
    ReadsOperands both_ref i fac fac' =
        NotSigned i.pred
        × ((a : RefView) × (b : RefView) × ReadsRefs negate e.refs negate_law m laws f value_at ap'
              content_width params i bits a b fac fac'
            × (¬ ((a ≡ null) × (b ≡ null))))
    ReadsOperands _ i fac fac' = fac ≡ fac'

    abbrev right_way : CmpInst → Bool → Bool
    right_way i negated = negate_if negated (icmp_of_inst m laws bits i)

    int_factory :
        (i : CmpInst) (negated : Bool) (ops : LinExp × LinExp) (fac fac' : Factory State)
        → ReadsAs m laws f value_at ap' content_width params tests i true e.ints bits ops fac fac'
        → (cmp_inst_to_crab_int m f value_at ap' content_width params tests i negated fac).1 ≡ fac'
    unfolding cmp_inst_to_crab_int
    int_factory i negated ops fac fac' (read, _, _) =
        rw (read, cmp_inst_to_crab_int) (ap (λ r. r.1) read)

    assume_cmp-Guards :
        (k : OperandKind) (i : CmpInst) (negated : Bool) (fac fac' : Factory State)
        → ReadsOperands k i fac fac'
        → Guards (assume_of k i negated fac) (asks k i) (right_way i negated) fac'
    unfolding assume_cmp exec
    assume_cmp-Guards both_int i negated fac fac' (kept, (ops, reads)) =
        let made = cmp_inst_to_crab_int m f value_at ap' content_width params tests i negated fac in
        rw kept (
          subst
            (λ s.
              Guards
                (assume_int m f value_at ap' content_width params tests negate uses_of (made.0, s))
                (not (is_unsigned i.pred)) (right_way i negated) fac')
            (sym (int_factory i negated ops fac fac' reads))
            (int-Guards i negated made.0 fac' (
              cmp_inst_to_crab_int-Translates m laws f value_at ap' content_width params tests i
                negated e.ints bits ops fac fac' below reads)))
    assume_cmp-Guards both_ref i negated fac fac' (kind, (a, b, reads, some_object)) =
        ref-Guards (cmp_inst_to_crab_ref negate m f value_at ap' content_width params i negated fac)
          negated a b (icmp_of_inst m laws bits i) fac' some_object
          (cmp_inst_to_crab_ref-Translates negate e.refs negate_law m laws f value_at ap'
            content_width params bits i negated a b fac fac' kind reads)
    assume_cmp-Guards both_bool i negated fac fac' same = ([], ap (λ s. ok ([], s)) same, refl)
    assume_cmp-Guards neither i negated fac fac' same = ([], ap (λ s. ok ([], s)) same, refl)

    -- what the Boolean variable of the condition is read as, if it is assumed
    abbrev pub ReadsCondition : Bool → ℕ → Bool → Factory State → Factory State → Type 0
    ReadsCondition false v b fac fac' = fac ≡ fac'
    ReadsCondition true v b fac fac' =
        (x : Var) × (get_lit f value_at ap' content_width params v true fac
          ≡ (some (bool_var x), fac'))
        × (e.bools x.name ≡ b)

    or_false : (a : Bool) → a ≡ (a || false)
    or_false true = refl
    or_false false = refl

    then_bool-Guards :
        (lower : Bool) (v : ℕ) (negated b : Bool) (emitted : Checked (List Stmt × Factory State))
        (asked : Bool) (fac fac' : Factory State)
        → Guards emitted asked (negate_if negated b) fac
        → ReadsCondition lower v b fac fac'
        → Guards
            (then_bool m f value_at ap' content_width params tests negate uses_of lower v negated
              emitted)
            (asked || lower)
            (negate_if negated b)
            fac'
    unfolding then_bool assume_lit
    then_bool-Guards false v negated b emitted asked fac fac' (block, made, run) same = (
      block,
      ap (then_bool m f value_at ap' content_width params tests negate uses_of false v negated) made
          ∙ ap (λ s. ok (block, s)) same,
      run ∙ ap (λ a. guard a (negate_if negated b) e) (or_false asked),
    )
    then_bool-Guards true v negated b emitted asked fac fac' (block, made, run) (x, read, value) = (
      block ++ (bool_assume x negated ∷ []),
      ap (then_bool m f value_at ap' content_width params tests negate uses_of true v negated) made
          ∙ ap (assume_lit m f value_at ap' content_width params tests negate uses_of block negated)
              read,
      exec-++ o picked block (bool_assume x negated ∷ []) e
          ∙ (ap (λ r. and_then r (exec o picked (bool_assume x negated ∷ []))) run
              ∙ guard_twice asked true (negate_if negated b) e
                  (exec o picked (bool_assume x negated ∷ []))
                  (bool_assume-guard x negated b e value)),
    )

    -- What the condition is read as, and its value.
    abbrev pub Reads : Condition → Bool → Factory State → Factory State → Type 0
    Reads (constant_int n) b fac fac' = (n < 2) × (b ≡ (n == 1)) × (fac ≡ fac')
    Reads constant_expr b fac fac' = fac ≡ fac'
    Reads (cmp_inst i) b fac fac' =
        let k = operand_kind m f value_at ap' content_width params tests negate uses_of i in
        (icmp_of_inst m laws bits i ≡ b)
        × ((fac1 : Factory State) × ReadsOperands k i fac fac1
            × ReadsCondition
                (lower_cond_as_bool m f value_at ap' content_width params tests negate uses_of k i)
                i.self b fac1 fac')
    Reads (other_value v) b fac fac' = ReadsCondition true v b fac fac'

    -- whether the block of an edge assumes anything of the condition
    abbrev pub asks_for : Condition → Bool
    asks_for (constant_int n) = true
    asks_for constant_expr = false
    asks_for (cmp_inst i) =
        let k = operand_kind m f value_at ap' content_width params tests negate uses_of i in
        asks k i
        || lower_cond_as_bool m f value_at ap' content_width params tests negate uses_of k i
    asks_for (other_value v) = true

    constant-Guards :
        (n : ℕ) (negated : Bool) (fac : Factory State)
        → n < 2
        → Guards
            (edge_block m f value_at ap' content_width params tests negate uses_of
              (constant_int n)
              (not negated)
              negated
              fac)
            true
            (negate_if negated (n == 1))
            fac
    unfolding edge_block exec step
    constant-Guards zero true fac h = ([], refl, refl)
    constant-Guards zero false fac h = (unreachable ∷ [], refl, refl)
    constant-Guards (suc zero) true fac h = (unreachable ∷ [], refl, refl)
    constant-Guards (suc zero) false fac h = ([], refl, refl)
    constant-Guards (suc (suc n)) negated fac h = absurd (omega arith)

    -- For an edge of a conditional branch with two different successors, execEdge makes a block, if the
    -- condition is read: a constant is 0 or 1; the two operands of a comparison of integers or of
    -- references are read as expressions with their values; and a condition whose Boolean variable is
    -- assumed is read as a variable with its value. An unsigned comparison of integers must not be
    -- lowered, and a comparison of references must be neither signed nor of two null pointers. The block
    -- changes nothing. It lets a state through if the branch goes that way in the state, and blocks it
    -- otherwise, where the condition is a constant, a comparison of integers that is not unsigned, a
    -- comparison of references, or assumed by its Boolean variable. Where it is none of these, that is a
    -- constant expression, or a comparison, of integers and unsigned or of no integers and no references,
    -- whose Boolean variable is not assumed, the block lets every state through.
    pub edge_block-Guards :
        (c : Condition) (negated b : Bool) (fac fac' : Factory State)
        → Reads c b fac fac'
        → Guards
            (edge_block m f value_at ap' content_width params tests negate uses_of c
              (not negated)
              negated
              fac)
            (asks_for c)
            (negate_if negated b)
            fac'
    unfolding edge_block exec
    edge_block-Guards (constant_int n) negated b fac fac' (below_2, value, same) =
        subst
          (λ s.
            Guards
              (edge_block m f value_at ap' content_width params tests negate uses_of
                (constant_int n) (not negated) negated fac)
              true (negate_if negated b) s)
          same
          (subst
            (λ v.
              Guards
                (edge_block m f value_at ap' content_width params tests negate uses_of
                  (constant_int n) (not negated) negated fac)
                true (negate_if negated v) fac)
            (sym value) (constant-Guards n negated fac below_2))
    edge_block-Guards constant_expr negated b fac fac' same = ([], ap (λ s. ok ([], s)) same, refl)
    edge_block-Guards (cmp_inst i) negated b fac fac' (value, (fac1, operands, condition)) =
        let k = operand_kind m f value_at ap' content_width params tests negate uses_of i in
        then_bool-Guards
          (lower_cond_as_bool m f value_at ap' content_width params tests negate uses_of k i) i.self
          negated b (assume_of k i negated fac) (asks k i) fac1 fac'
          (subst (λ v. Guards (assume_of k i negated fac) (asks k i) (negate_if negated v) fac1)
            value (assume_cmp-Guards k i negated fac fac1 operands))
          condition
    edge_block-Guards (other_value v) negated b fac fac' reads =
        then_bool-Guards true v negated b (ok ([], fac)) false fac fac' ([], refl, refl) reads
