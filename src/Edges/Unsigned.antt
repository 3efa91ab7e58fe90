-- ===== src/Edges/Unsigned.antt =====
-- The block of an edge whose branch is on an unsigned comparison of integers that is lowered.
use clam.Prelude.{
  ℕ, ◌≡◌, refl, sym, ap, ◌∙◌, Bool, true, false, not, List, [], ◌∷◌, ◌++◌, map, none, some,
  if◌then◌else◌,
}
use clam.Prelude.Int.{ℤ}
use clam.Llvm.{
  Predicate, icmp_eq, icmp_ne, icmp_ugt, icmp_uge, icmp_ult, icmp_ule, icmp_sgt, icmp_sge, icmp_slt,
  icmp_sle, Icmp, IcmpLaws,
}
use clam.Lit.Values.{Value, Params, Var, VarFactory, VarFactoryLaws}
use clam.Lit.Consts.{ApInt}
use clam.Lit.Literal.{ok, LinExp}
use clam.Lit.Factory.{Factory, get_lit, mk_bool_var}
use clam.Compare.Crab.{exp_value, CstTests, CstTestsLaws}
use clam.Compare.Crab as Cst
use clam.Compare.Results.{signed_result}
use clam.Compare.SignOnes.{unsigned_cmp_into_sign_ones}
use clam.Compare.SignOnesLaws.{unsigned_cmp_into_sign_ones-signed}
use clam.Compare.Insts.{
  CmpInst, normalize_by, normalize_inst, operand_exps, unsigned_switch,
  unsigned_cmp_inst_to_crab_int,
}
use clam.Compare.InstsLaws.{is_unsigned, IsNormalInst, normalize_by-Keeps}
use clam.Ir.{RefCst, Stmt, comparison, bool_assume, Env, IntOps, step, exec}
use clam.Ir.Runs.{guard, and_then, exec-++}
use clam.Uses.{Users}
use clam.Edges.{
  cmp_inst, pred_is_unsigned, both_int, assume_cmp, lower_cond_as_bool, then_bool, edge_block,
  operand_kind,
}
use clam.Edges.Guards.{bool_assume-guard}

-- whether equal operands satisfy the comparison, for the two that a normalized instruction can have
unfoldable pub or_equal : Predicate → Bool
or_equal icmp_ule = true
or_equal _ = false

same_test : (p : Predicate) → pred_is_unsigned p ≡ is_unsigned p
unfolding pred_is_unsigned
same_test icmp_eq = refl
same_test icmp_ne = refl
same_test icmp_ugt = refl
same_test icmp_uge = refl
same_test icmp_ult = refl
same_test icmp_ule = refl
same_test icmp_sgt = refl
same_test icmp_sge = refl
same_test icmp_slt = refl
same_test icmp_sle = refl

module _ (o : IntOps) (picked : Env) where
  comparison-step :
      (s : Cst.Stmt) (ss : List Cst.Stmt) (ints : ℕ → ℤ) (bools : ℕ → Bool)
      → Cst.exec picked.bools ints (s ∷ ss) bools
        ≡ Cst.exec picked.bools ints ss (Cst.exec picked.bools ints (s ∷ []) bools)
  unfolding Cst.exec
  comparison-step (Cst.bool_assign x c) ss ints bools = refl
  comparison-step (Cst.bool_select x c a b) ss ints bools = refl
  comparison-step (Cst.havoc x) ss ints bools = refl

  -- statements of comparisons only change the Boolean variables
  comparisons-run :
      (ss : List Cst.Stmt) (e : Env)
      → exec o picked (map comparison ss) e
        ≡ some (record e { bools = Cst.exec picked.bools e.ints ss e.bools })
  unfolding exec step
  comparisons-run [] e = unfold Cst.exec in refl
  comparisons-run (s ∷ ss) e =
      comparisons-run ss (record e { bools = Cst.exec picked.bools e.ints (s ∷ []) e.bools })
      ∙ ap (λ b. some (record e { bools = b })) (sym (comparison-step s ss e.ints e.bools))

  -- the assumption of a variable after such statements
  assumed-run :
      (ss : List Cst.Stmt) (x : Var) (b : Bool) (e : Env)
      → Cst.exec picked.bools e.ints ss e.bools x.name ≡ b
      → exec o picked (map comparison ss ++ (bool_assume x false ∷ [])) e
        ≡ guard true b (record e { bools = Cst.exec picked.bools e.ints ss e.bools })
  assumed-run ss x b e value =
      exec-++ o picked (map comparison ss) (bool_assume x false ∷ []) e
      ∙ (ap (λ r. and_then r (exec o picked (bool_assume x false ∷ []))) (comparisons-run ss e)
          ∙ bool_assume-guard o picked x false b
              (record e { bools = Cst.exec picked.bools e.ints ss e.bools }) value)

  module _ {half : ℕ} (m : Icmp half) (laws : IcmpLaws m) (f : VarFactory)
      (names : VarFactoryLaws f) (value_at : ℕ → Value) (ap' : (w : ℕ) → ApInt w)
      (content_width : ℕ → ℕ) (params : Params) (tests : CstTests) (tests_laws : CstTestsLaws tests)
      (negate : RefCst → RefCst) (uses_of : ℕ → Users) where
    open f use {State}

    -- The variable of the result, and the statements that compute it.
    abbrev result_var : Factory State → Var × Factory State
    result_var fac = mk_bool_var f value_at ap' content_width params fac

    abbrev computed :
        Bool → Predicate → LinExp × LinExp → Factory State → List Cst.Stmt × Factory State
    computed negated p ops fac =
        unsigned_cmp_into_sign_ones f value_at ap' content_width params tests (result_var fac).0
          ops.0 ops.1 negated (or_equal p) (result_var fac).1

    unsigned_switch-computed :
        (p : Predicate) (negated : Bool) (ops : LinExp × LinExp) (fac : Factory State)
        → IsNormalInst p
        → is_unsigned p ≡ true
        → unsigned_switch m f value_at ap' content_width params tests p ops negated fac
          ≡ ok (
            some ((result_var fac).0, (computed negated p ops fac).0),
            (computed negated p ops fac).1,
          )
    unfolding unsigned_switch or_equal
    unsigned_switch-computed icmp_ult negated ops fac normal h = refl
    unsigned_switch-computed icmp_ule negated ops fac normal h = refl
    unsigned_switch-computed icmp_ugt negated ops fac normal h = absurd normal
    unsigned_switch-computed icmp_uge negated ops fac normal h = absurd normal
    unsigned_switch-computed icmp_sgt negated ops fac normal h = absurd normal
    unsigned_switch-computed icmp_sge negated ops fac normal h = absurd normal
    unsigned_switch-computed icmp_eq negated ops fac normal h = absurd (cc h)
    unsigned_switch-computed icmp_ne negated ops fac normal h = absurd (cc h)
    unsigned_switch-computed icmp_slt negated ops fac normal h = absurd (cc h)
    unsigned_switch-computed icmp_sle negated ops fac normal h = absurd (cc h)

    computed-call :
        (i : CmpInst) (negated : Bool) (ops : LinExp × LinExp) (fac fac' : Factory State)
        → is_unsigned i.pred ≡ true
        → operand_exps m f value_at ap' content_width params tests (normalize_inst m i) false fac
          ≡ (some ops, fac')
        → unsigned_cmp_inst_to_crab_int m f value_at ap' content_width params tests i negated fac
          ≡ ok (
            some ((result_var fac').0, (computed negated (normalize_inst m i).pred ops fac').0),
            (computed negated (normalize_inst m i).pred ops fac').1,
          )
    unfolding unsigned_cmp_inst_to_crab_int normalize_inst
    computed-call i negated ops fac fac' unsigned read =
        let (same, kind, normal) = normalize_by-Keeps m laws (λ v. v) i i.pred refl in
        let p = (normalize_by m i.pred i).pred in
        rw (read, unsigned_cmp_inst_to_crab_int)
          (ap (λ s. unsigned_switch m f value_at ap' content_width params tests p ops negated s)
              (ap (λ r. r.1) read)
            ∙ unsigned_switch-computed p negated ops fac' normal (kind ∙ unsigned))

    -- the statements of the block, and the factory
    abbrev block_of : Bool → Predicate → LinExp × LinExp → Factory State → List Stmt
    block_of negated p ops fac =
        map comparison (computed negated p ops fac).0 ++ (bool_assume (result_var fac).0 false ∷ [])

    assume_cmp-computed :
        (i : CmpInst) (negated : Bool) (ops : LinExp × LinExp) (fac fac' : Factory State)
        → params.lower_unsigned_icmp ≡ true
        → is_unsigned i.pred ≡ true
        → operand_exps m f value_at ap' content_width params tests (normalize_inst m i) false fac
          ≡ (some ops, fac')
        → assume_cmp m f value_at ap' content_width params tests negate uses_of both_int i negated
            fac
          ≡ ok (
            block_of negated (normalize_inst m i).pred ops fac',
            (computed negated (normalize_inst m i).pred ops fac').1,
          )
    unfolding assume_cmp get_lit mk_bool_var
    assume_cmp-computed i negated ops fac fac' lowered unsigned read =
        rw (lowered, same_test i.pred, unsigned, computed-call i negated ops fac fac' unsigned read)
          refl

    -- For an edge of a conditional branch with two different successors, on an unsigned comparison of
    -- two integers that are read as expressions, where unsigned comparisons are lowered and the
    -- Boolean variable of the comparison is not assumed, execEdge makes a block. It lets a state
    -- through, with other values of Boolean variables only, exactly if the signed comparison of the
    -- values of the operands in the normalized order is true, or is false on the edge to the second
    -- successor.
    pub edge_block-lowered :
        (i : CmpInst) (negated : Bool) (ops : LinExp × LinExp) (fac fac' : Factory State) (e : Env)
        → operand_kind m f value_at ap' content_width params tests negate uses_of i ≡ both_int
        → lower_cond_as_bool m f value_at ap' content_width params tests negate uses_of both_int i
          ≡ false
        → params.lower_unsigned_icmp ≡ true
        → is_unsigned i.pred ≡ true
        → operand_exps m f value_at ap' content_width params tests (normalize_inst m i) false fac
          ≡ (some ops, fac')
        → (block : List Stmt) × (fac'' : Factory State) × (bools : ℕ → Bool) × (edge_block m f
              value_at ap' content_width params tests negate uses_of
              (cmp_inst i)
              (not negated)
              negated
              fac
            ≡ ok (block, fac''))
          × (exec o picked block e ≡ (
              if signed_result negated
                (or_equal (normalize_inst m i).pred)
                (exp_value e.ints ops.0)
                (exp_value e.ints ops.1)
              then some (record e { bools = bools })
              else none))
    unfolding edge_block then_bool
    edge_block-lowered i negated ops fac fac' e ints only_branch lowered unsigned read =
        let p = (normalize_inst m i).pred in
        let then_of = then_bool m f value_at ap' content_width params tests negate uses_of in
        let assumed = assume_cmp m f value_at ap' content_width params tests negate uses_of in
        let lower = lower_cond_as_bool m f value_at ap' content_width params tests negate uses_of in
        (
          block_of negated p ops fac',
          (computed negated p ops fac').1,
          Cst.exec picked.bools e.ints (computed negated p ops fac').0 e.bools,
          ap (λ k. then_of (lower k i) i.self negated (assumed k i negated fac)) ints
              ∙ (ap (λ b. then_of b i.self negated (assumed both_int i negated fac)) only_branch
                  ∙ ap (then_of false i.self negated)
                      (assume_cmp-computed i negated ops fac fac' lowered unsigned read)),
          assumed-run (computed negated p ops fac').0 (result_var fac').0 _ e (
              unsigned_cmp_into_sign_ones-signed f value_at ap' content_width params tests names
                tests_laws picked.bools e.ints e.bools (result_var fac').0 ops.0 ops.1 negated
                (or_equal p) (result_var fac').1),
        )
