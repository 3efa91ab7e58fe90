-- ===== src/Ops/Cmp.antt =====
-- lib/Clam/CfgBuilder.cc: visitCmpInst, a comparison that is an operand of other instructions.
use clam.Prelude.{
  ℕ, Bool, true, false, not, ◌&&◌, ◌||◌, List, [], ◌∷◌, ◌++◌, map, Option, none, some,
  if◌then◌else◌,
}
use clam.Llvm.{Predicate, icmp_eq, icmp_ne, Icmp}
use clam.Lit.Values.{
  Value, Params, Var, VarFactory, is_bool, is_integer_type, is_reference, is_tracked_type,
}
use clam.Lit.Consts.{ApInt}
use clam.Lit.Literal.{Checked, ok, clam_error, Lit, get_var}
use clam.Lit.Factory.{Factory, get_lit}
use clam.Compare.Crab.{CstTests}
use clam.Compare.Crab as Cst
use clam.Compare.Insts.{CmpInst, cmp_inst_to_crab_bool}
use clam.Ir.{RefCst, Stmt, bool_xor, bool_copy, bool_ref, comparison, IntOps}
use clam.Uses.{
  Users, all_uses_are_br_inst, all_uses_are_br_or_int_select_cond_inst, no_verifier_call,
}
use clam.Ops.Binary.{havoc_of, do_bool_logic_op}
use clam.Ops.Refs.{cmp_inst_to_crab_ref}

-- `skip_translation` is the answer of the optimizer of verifier calls.
module _ (o : IntOps) {half : ℕ} (m : Icmp half) (f : VarFactory) (value_at : ℕ → Value)
    (ap : (w : ℕ) → ApInt w) (content_width : ℕ → ℕ) (params : Params) (tests : CstTests)
    (negate : RefCst → RefCst) (uses_of : ℕ → Users) (skip_translation : ℕ → Bool) where
  open f use {State}

  abbrev Block : Type 0
  Block = Checked (List Stmt × Factory State)

  abbrev unknown : Var → Factory State → Block
  unknown lhs fac = ok (havoc_of o f value_at ap content_width params lhs, fac)

  abbrev assign_ref : Var → Checked (Option RefCst × Factory State) → Block
  assign_ref lhs (ok (some c, fac)) = ok (bool_ref lhs c ∷ [], fac)
  assign_ref lhs (ok (none, fac)) = unknown lhs fac
  assign_ref lhs clam_error = clam_error

  abbrev assign_bools : Checked (List Cst.Stmt × Factory State) → Block
  assign_bools (ok (block, fac)) = ok (map comparison block, fac)
  assign_bools clam_error = clam_error

  abbrev pub assign_negated : Var → Checked (Var × List Stmt × Factory State) → Block
  assign_negated lhs (ok (tmp, block, fac)) = ok (block ++ (bool_copy lhs tmp true ∷ []), fac)
  assign_negated lhs clam_error = clam_error

  abbrev pub assign_directly : Checked (Var × List Stmt × Factory State) → Block
  assign_directly (ok (x, block, fac)) = ok (block, fac)
  assign_directly clam_error = clam_error

  -- Of two Booleans; the other predicates are skipped with a warning.
  unfoldable pub compare_bools : Predicate → CmpInst → Lit → Var → Factory State → Block
  unfolding do_bool_logic_op
  compare_bools icmp_eq i l lhs fac =
      assign_negated lhs
        (do_bool_logic_op o f value_at ap content_width params bool_xor none i.v0 i.v1 fac)
  compare_bools icmp_ne i l lhs fac =
      assign_directly
        (do_bool_logic_op o f value_at ap content_width params bool_xor (some l) i.v0 i.v1 fac)
  compare_bools _ i l lhs fac = ok ([], fac)

  unfoldable pub compare_refs : CmpInst → Var → Factory State → Block
  unfolding cmp_inst_to_crab_ref all_uses_are_br_inst
  compare_refs i lhs fac =
      if all_uses_are_br_inst (uses_of i.self) || skip_translation i.self
      then ok ([], fac)
      else assign_ref lhs
          (cmp_inst_to_crab_ref negate m f value_at ap content_width params i false fac)

  unfoldable pub compare_ints : CmpInst → Factory State → Block
  unfolding cmp_inst_to_crab_bool all_uses_are_br_or_int_select_cond_inst no_verifier_call
  compare_ints i fac =
      if all_uses_are_br_or_int_select_cond_inst params no_verifier_call (uses_of i.self)
        || skip_translation i.self
      then ok ([], fac)
      else assign_bools (
          cmp_inst_to_crab_bool m f value_at ap content_width params tests i
            params.lower_unsigned_icmp fac)

  unfoldable pub compare_values : CmpInst → Lit → Var → Factory State → Block
  unfolding compare_bools compare_refs compare_ints is_bool is_integer_type is_reference
  compare_values i l lhs fac =
      let t0 = (value_at i.v0).type in
      let t1 = (value_at i.v1).type in
      if is_reference t0 params && is_reference t1 params
      then compare_refs i lhs fac
      else (if not (is_integer_type t0) || not (is_integer_type t1)
          then unknown lhs fac
          else (if is_bool t0 && is_bool t1
              then compare_bools i.pred i l lhs fac
              else compare_ints i fac))

  unfoldable pub compare_into : CmpInst → Option Lit × Factory State → Block
  unfolding compare_values get_var
  compare_into i (none, fac) = clam_error
  compare_into i (some l, fac) = elim (get_var l) [
    | none ↦ clam_error
    | some lhs ↦ compare_values i l lhs fac
  ]

  unfoldable pub visit_cmp_inst : CmpInst → Factory State → Block
  unfolding compare_into is_tracked_type
  visit_cmp_inst i fac =
      if not (is_tracked_type (value_at i.self).type params)
      then ok ([], fac)
      else compare_into i (get_lit f value_at ap content_width params i.self true fac)
