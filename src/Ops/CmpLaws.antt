-- ===== src/Ops/CmpLaws.antt =====
-- visitCmpInst on two Booleans.
use clam.Prelude.{
  ℕ, ◌≡◌, refl, sym, ap, ◌∙◌, Bool, true, false, not, List, [], ◌∷◌, ◌++◌, Option, none, some,
  if◌then◌else◌, ==_refl,
}
use clam.Llvm.{Predicate, icmp_eq, icmp_ne, Icmp}
use clam.Lit.Values.{
  integer, Value, Params, Var, VarFactory, is_bool, is_integer_type, is_reference, is_pointer_type,
  is_tracked_type,
}
use clam.Lit.Consts.{ApInt}
use clam.Lit.Literal.{ok, bool_var, get_var}
use clam.Lit.Factory.{Factory, get_lit}
use clam.Compare.Crab.{CstTests}
use clam.Compare.Insts.{CmpInst}
use clam.Ir.{RefCst, Stmt, bool_xor, bool_copy, Env, bool_op, put_bool, IntOps, step, exec}
use clam.Uses.{Users}
use clam.Ir.Runs.{exec-++, and_then}
use clam.Ops.Views.{BoolView}
use clam.Ops.VisitLaws.{bool_value}
use clam.Ops.BoolLaws.{target, ReadsBools, do_bool_logic_op_lem}
use clam.Ops.Cmp.{
  assign_negated, assign_directly, compare_bools, compare_values, compare_into, visit_cmp_inst,
}

-- the variable that doBoolLogicOp is given for the result
abbrev pub given : Bool → Var → Option Var
given true lhs = none
given false lhs = some lhs

abbrev pub bool_pred : Bool → Predicate
bool_pred true = icmp_eq
bool_pred false = icmp_ne

-- icmp eq and icmp ne of two Booleans
abbrev pub icmp_bools : Bool → Bool → Bool → Bool
icmp_bools true a b = if a then b else not b
icmp_bools false a b = if a then not b else b

-- the state after the comparison; for icmp eq the exclusive or stands in another variable
abbrev pub compared : Bool → Var → Var → Bool → Bool → Env → Env
compared true lhs tmp a b e =
    put_bool lhs (icmp_bools true a b) (put_bool tmp (bool_op bool_xor a b) e)
compared false lhs tmp a b e = put_bool lhs (icmp_bools false a b) e

not_xor : (a b : Bool) → not (bool_op bool_xor a b) ≡ icmp_bools true a b
unfolding bool_op
not_xor true true = refl
not_xor true false = refl
not_xor false true = refl
not_xor false false = refl

module _ (o : IntOps) (picked : Env) {half : ℕ} (m : Icmp half) (f : VarFactory)
    (value_at : ℕ → Value) (ap' : (w : ℕ) → ApInt w) (content_width : ℕ → ℕ) (params : Params)
    (tests : CstTests) (negate : RefCst → RefCst) (uses_of : ℕ → Users)
    (skip_translation : ℕ → Bool) where
  open f use {State}

  negated_copy :
      (lhs tmp : Var) (v : Bool) (e : Env)
      → exec o picked (bool_copy lhs tmp true ∷ []) (put_bool tmp v e)
        ≡ some (put_bool lhs (not v) (put_bool tmp v e))
  unfolding exec step
  negated_copy lhs tmp v e = rw (==_refl tmp.name) refl

  compare_bools-compared :
      (is_eq : Bool) (i : CmpInst) (lhs res : Var) (x y : BoolView) (fac fac1 fac' : Factory State)
      (e : Env)
      → target f value_at ap' content_width params (given is_eq lhs) fac ≡ (res, fac1)
      → ReadsBools o picked f value_at ap' content_width params i.v0 i.v1 x y fac1 fac'
      → (block : List Stmt) × (compare_bools o m f value_at ap' content_width params tests negate
            uses_of skip_translation
            (bool_pred is_eq)
            i
            (bool_var lhs)
            lhs
            fac
          ≡ ok (block, fac'))
        × (exec o picked block e
            ≡ some (compared is_eq lhs res (bool_value e.bools x) (bool_value e.bools y) e))
  unfolding compare_bools bool_op
  compare_bools-compared true i lhs res x y fac fac1 fac' e at_res reads =
      let (block, made, run) =
        do_bool_logic_op_lem o picked f value_at ap' content_width params bool_xor none i.v0 i.v1 x
          y fac fac1 fac' res e at_res reads in
      let a = bool_value e.bools x in
      let b = bool_value e.bools y in
      (
        block ++ (bool_copy lhs res true ∷ []),
        ap
            (assign_negated o m f value_at ap' content_width params tests negate uses_of
              skip_translation lhs)
            made,
        exec-++ o picked block (bool_copy lhs res true ∷ []) e
            ∙ (ap (λ r. and_then r (exec o picked (bool_copy lhs res true ∷ []))) run
                ∙ (negated_copy lhs res (bool_op bool_xor a b) e
                    ∙ ap (λ v. some (put_bool lhs v (put_bool res (bool_op bool_xor a b) e)))
                        (not_xor a b))),
      )
  compare_bools-compared false i lhs res x y fac fac1 fac' e at_res reads =
      let (block, made, run) =
        do_bool_logic_op_lem o picked f value_at ap' content_width params bool_xor (some lhs) i.v0
          i.v1 x y fac fac1 fac' res e at_res reads in
      let is_lhs : lhs ≡ res = ap (λ r. r.0) at_res in
      (
        block,
        ap
            (assign_directly o m f value_at ap' content_width params tests negate uses_of
              skip_translation)
            made,
        run
            ∙ ap
                (λ z.
                  some
                    (put_bool z (icmp_bools false (bool_value e.bools x) (bool_value e.bools y)) e))
                (sym is_lhs),
      )

  -- For a tracked comparison of two Booleans that are read as literals, icmp eq or icmp ne, visitCmpInst
  -- emits a block that leaves the result of the comparison in the variable of the instruction. For icmp
  -- eq it also leaves the exclusive or of the operands in a new variable; nothing else changes.
  pub visit_cmp_inst-compared :
      (is_eq : Bool) (i : CmpInst) (lhs res : Var) (x y : BoolView)
      (fac fac1 fac2 fac' : Factory State) (e : Env)
      → i.pred ≡ bool_pred is_eq
      → is_tracked_type (value_at i.self).type params ≡ true
      → (value_at i.v0).type ≡ integer 1
      → (value_at i.v1).type ≡ integer 1
      → get_lit f value_at ap' content_width params i.self true fac ≡ (some (bool_var lhs), fac1)
      → target f value_at ap' content_width params (given is_eq lhs) fac1 ≡ (res, fac2)
      → ReadsBools o picked f value_at ap' content_width params i.v0 i.v1 x y fac2 fac'
      → (block : List Stmt) × (visit_cmp_inst o m f value_at ap' content_width params tests negate
            uses_of skip_translation i fac
          ≡ ok (block, fac'))
        × (exec o picked block e
            ≡ some (compared is_eq lhs res (bool_value e.bools x) (bool_value e.bools y) e))
  unfolding visit_cmp_inst compare_into compare_values get_var is_bool is_integer_type is_reference
      is_pointer_type
  visit_cmp_inst-compared is_eq i lhs res x y fac fac1 fac2 fac' e is_pred tracked t0 t1 at_lhs
        at_res reads =
      let (block, made, run) =
        compare_bools-compared is_eq i lhs res x y fac1 fac2 fac' e at_res reads in
      let into =
        compare_into o m f value_at ap' content_width params tests negate uses_of
          skip_translation in
      let bools =
        compare_bools o m f value_at ap' content_width params tests negate uses_of
          skip_translation in
      (
        block,
        rw (tracked, visit_cmp_inst)
            (ap (into i) at_lhs
              ∙ (rw (t0, t1, compare_values) (ap (λ p. bools p i (bool_var lhs) lhs fac1) is_pred)
                  ∙ made)),
        run,
      )
