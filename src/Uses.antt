-- ===== src/Uses.antt =====
-- lib/Clam/CfgBuilderUtils.cc: the scans over the uses of a value.
pub mod Laws
use clam.Prelude.{
  ℕ, Bool, true, false, not, ◌&&◌, ◌||◌, List, [], ◌∷◌, ◌++◌, Option, none, some, if◌then◌else◌,
}
use clam.Lit.Values.{Ty, Params, is_bool, is_reference}

-- What the tests of a function's name say, and whether the function is only declared.
pub record Callee : Type 0 where
  pub is_declaration : Bool
  pub is_assert_fn : Bool
  pub is_error_fn : Bool
  pub is_assume_fn : Bool
  pub is_not_assume_fn : Bool
  pub is_seahorn_fail : Bool

unfoldable pub is_verifier_call : Callee → Bool
is_verifier_call f =
    f.is_declaration
    && (f.is_assert_fn
        || (f.is_error_fn || (f.is_assume_fn || (f.is_not_assume_fn || f.is_seahorn_fail))))

-- An instruction that uses a value. A call has its address, the function that is called if that is
-- known, and whether its only parameter is not Boolean and it returns nothing; a select has its
-- type, whether the value is its condition, and its own uses; so have the casts.
mutual
  pub data User : Type 0 where
    branch_inst : User
    select_inst : Ty → Bool → Users → User
    call_inst : ℕ → Option Callee → Bool → User
    zext_inst : Users → User
    sext_inst : Users → User
    other_user : User

  pub data Users : Type 0 where
    no_uses : Users
    use_then : User → Users → Users

-- Whether the user is a call that `wanted` holds of, and its address.
unfoldable pub called : (Callee → Bool) → User → Option (ℕ × Bool)
called wanted (call_inst at (some f) non_bool) = if wanted f then some (at, non_bool) else none
called wanted _ = none

unfoldable pub any_use_is_verifier_call : Users → Bool
unfolding called is_verifier_call
any_use_is_verifier_call no_uses = false
any_use_is_verifier_call (use_then u us) =
    let rest = any_use_is_verifier_call us in
    elim (called is_verifier_call u) [ none ↦ rest | some _ ↦ true ]

unfoldable pub all_uses_are_br_inst : Users → Bool
all_uses_are_br_inst no_uses = true
all_uses_are_br_inst (use_then branch_inst us) = all_uses_are_br_inst us
all_uses_are_br_inst (use_then _ us) = false

-- `select_filter` is asked of the uses of the select.
unfoldable pub all_uses_are_br_or_int_select_cond_inst : Params → (Users → Bool) → Users → Bool
unfolding is_bool is_reference
all_uses_are_br_or_int_select_cond_inst params select_filter no_uses = true
all_uses_are_br_or_int_select_cond_inst params select_filter (use_then branch_inst us) =
    all_uses_are_br_or_int_select_cond_inst params select_filter us
all_uses_are_br_or_int_select_cond_inst params select_filter
      (use_then (select_inst ty is_condition uses) us) =
    let rest = all_uses_are_br_or_int_select_cond_inst params select_filter us in
    if is_bool ty || (not is_condition || is_reference ty params)
    then false
    else (if not (select_filter uses) then false else rest)
all_uses_are_br_or_int_select_cond_inst params select_filter (use_then _ us) = false

-- The filter that the builder passes.
unfoldable pub no_verifier_call : Users → Bool
unfolding any_use_is_verifier_call
no_verifier_call uses = not (any_use_is_verifier_call uses)

unfoldable pub wanted_call : Bool → Callee → Bool
unfolding is_verifier_call
wanted_call false f = is_verifier_call f
wanted_call true f = f.is_assume_fn || f.is_not_assume_fn

-- The call of a user that the scan accepts.
unfoldable pub accepted : Bool → Bool → User → Option ℕ
unfolding called wanted_call
accepted non_bool_cond only_assume u = elim (called (wanted_call only_assume) u) [
  | none ↦ none
  | some call ↦ if non_bool_cond then (if call.1 then some call.0 else none) else some call.0
]

-- verifierCalls, which the caller passes, is the last argument; it is cleared on a failure. The
-- first cast among the uses decides if the scan goes through casts.
unfoldable pub all_uses_are_verifier_calls : Bool → Bool → Bool → Users → List ℕ → Bool × List ℕ
unfolding accepted
all_uses_are_verifier_calls casts non_bool_cond only_assume no_uses calls = (true, calls)
all_uses_are_verifier_calls true non_bool_cond only_assume (use_then (zext_inst uses) us) calls =
    all_uses_are_verifier_calls true non_bool_cond only_assume uses calls
all_uses_are_verifier_calls true non_bool_cond only_assume (use_then (sext_inst uses) us) calls =
    all_uses_are_verifier_calls true non_bool_cond only_assume uses calls
all_uses_are_verifier_calls casts non_bool_cond only_assume (use_then u us) calls =
    elim (accepted non_bool_cond only_assume u) [
      | none ↦ (false, [])
      | some call ↦
          all_uses_are_verifier_calls casts non_bool_cond only_assume us (calls ++ (call ∷ []))
    ]
