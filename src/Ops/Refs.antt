-- ===== src/Ops/Refs.antt =====
-- lib/Clam/CfgBuilder.cc: cmpInstToCrabRef, the comparison of two references.
use clam.Prelude.{ℕ, Bool, true, not, Option, none, some, if◌then◌else◌}
use clam.Llvm.{Predicate, icmp_eq, icmp_ne, icmp_ult, icmp_ule, icmp_slt, icmp_sle, Icmp}
use clam.Lit.Values.{Value, Params, Var, VarFactory}
use clam.Lit.Consts.{ApInt}
use clam.Lit.Literal.{Checked, ok, clam_error, Lit, ref_null, ref_var}
use clam.Lit.Factory.{Factory, get_lit}
use clam.Compare.Insts.{CmpInst, normalize_inst}
use clam.Ir.{
  RefCst, mk_true, mk_false, mk_null, mk_gt_null, mk_lt_null, mk_le_null, mk_ge_null, mk_eq,
  mk_not_eq, mk_lt, mk_le,
}

-- A reference literal: a variable or null.
pub data RefView : Type 0 where
  ref_variable : Var → RefView
  null : RefView

unfoldable pub ref_view : Option Lit → Option RefView
ref_view (some (ref_var x)) = some (ref_variable x)
ref_view (some ref_null) = some null
ref_view _ = none

-- `negate` is Crab's negation of a constraint.
module _ (negate : RefCst → RefCst) where
  abbrev negate_if_asked : Bool → RefCst → RefCst
  negate_if_asked negated c = if not negated then c else negate c

  unfoldable pub eq_cst : Bool → RefView → RefView → RefCst
  eq_cst negated (ref_variable x) null = if not negated then mk_null x else mk_gt_null x
  eq_cst negated null (ref_variable y) = if not negated then mk_null y else mk_gt_null y
  eq_cst negated (ref_variable x) (ref_variable y) = negate_if_asked negated (mk_eq x y)
  eq_cst negated null null = negate_if_asked negated mk_true

  unfoldable pub ne_cst : Bool → RefView → RefView → RefCst
  ne_cst negated (ref_variable x) null = negate_if_asked negated (mk_gt_null x)
  ne_cst negated null (ref_variable y) = negate_if_asked negated (mk_gt_null y)
  ne_cst negated (ref_variable x) (ref_variable y) = negate_if_asked negated (mk_not_eq x y)
  ne_cst negated null null = negate_if_asked negated mk_false

  unfoldable pub lt_cst : Bool → RefView → RefView → Checked RefCst
  lt_cst negated (ref_variable x) null = ok (negate_if_asked negated (mk_lt_null x))
  lt_cst negated null (ref_variable y) = ok (negate_if_asked negated (mk_gt_null y))
  lt_cst negated (ref_variable x) (ref_variable y) = ok (negate_if_asked negated (mk_lt x y))
  lt_cst negated null null = clam_error

  unfoldable pub le_cst : Bool → RefView → RefView → Checked RefCst
  le_cst negated (ref_variable x) null = ok (negate_if_asked negated (mk_le_null x))
  le_cst negated null (ref_variable y) = ok (negate_if_asked negated (mk_ge_null y))
  le_cst negated (ref_variable x) (ref_variable y) = ok (negate_if_asked negated (mk_le x y))
  le_cst negated null null = clam_error

  unfoldable pub ref_switch : Predicate → Bool → RefView → RefView → Checked RefCst
  unfolding eq_cst ne_cst lt_cst le_cst
  ref_switch icmp_eq negated a b = ok (eq_cst negated a b)
  ref_switch icmp_ne negated a b = ok (ne_cst negated a b)
  ref_switch icmp_ult negated a b = lt_cst negated a b
  ref_switch icmp_slt negated a b = lt_cst negated a b
  ref_switch icmp_ule negated a b = le_cst negated a b
  ref_switch icmp_sle negated a b = le_cst negated a b
  ref_switch _ negated a b = clam_error

  abbrev pub with_factory {ℓ} : {S : Type ℓ} → Checked RefCst → S → Checked (Option RefCst × S)
  with_factory (ok c) s = ok (some c, s)
  with_factory clam_error s = clam_error

  module _ {half : ℕ} (m : Icmp half) (f : VarFactory) (value_at : ℕ → Value)
      (ap : (w : ℕ) → ApInt w) (content_width : ℕ → ℕ) (params : Params) where
    open f use {State}

    unfoldable pub join_refs :
        Predicate
        → Bool
        → Option RefView
        → Factory State
        → Option RefView × Factory State
        → Checked (Option RefCst × Factory State)
    unfolding ref_switch
    join_refs p negated none fac1 second = ok (none, fac1)
    join_refs p negated (some a) fac1 (none, fac2) = ok (none, fac2)
    join_refs p negated (some a) fac1 (some b, fac2) = with_factory (ref_switch p negated a b) fac2

    unfoldable pub cmp_inst_to_crab_ref :
        CmpInst → Bool → Factory State → Checked (Option RefCst × Factory State)
    unfolding normalize_inst join_refs ref_view
    cmp_inst_to_crab_ref i negated fac =
        let j = normalize_inst m i in
        let (ref0, fac1) = get_lit f value_at ap content_width params j.v0 true fac in
        let (ref1, fac2) = get_lit f value_at ap content_width params j.v1 true fac1 in
        join_refs j.pred negated (ref_view ref0) fac1 (ref_view ref1, fac2)
