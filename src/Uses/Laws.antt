-- ===== src/Uses/Laws.antt =====
-- The scan for verifier calls finds every call, in order, or nothing.
use clam.Prelude.{
  ℕ, ◌≡◌, refl, sym, ap, ◌∙◌, ◌⊎◌, inl, inr, Bool, true, false, List, [], ◌∷◌, ◌++◌, Option, none,
  some, arith,
}
use clam.Uses.{
  Callee, User, Users, branch_inst, select_inst, call_inst, zext_inst, sext_inst, other_user,
  no_uses, use_then, called, is_verifier_call, wanted_call, accepted, all_uses_are_verifier_calls,
}

-- A function of the verifier: one that is declared without a body and is of the five kinds. If only
-- assumptions are asked for, one of the two functions that assume.
abbrev pub IsVerifierFn : Bool → Callee → Type 0
IsVerifierFn true f = (f.is_assume_fn ≡ true) ⊎ (f.is_not_assume_fn ≡ true)
IsVerifierFn false f =
    (f.is_declaration ≡ true)
    × ((f.is_assert_fn ≡ true)
        ⊎ ((f.is_error_fn ≡ true)
            ⊎ ((f.is_assume_fn ≡ true)
                ⊎ ((f.is_not_assume_fn ≡ true) ⊎ (f.is_seahorn_fail ≡ true)))))

-- The user is a direct call of such a function, at the address; if conditions that are not Boolean
-- are asked for, the only parameter of the function is not Boolean.
abbrev pub IsCall : Bool → Bool → User → ℕ → Type 0
IsCall true only_assume (call_inst at (some f) non_bool) n =
    (at ≡ n) × IsVerifierFn only_assume f × (non_bool ≡ true)
IsCall false only_assume (call_inst at (some f) non_bool) n = (at ≡ n) × IsVerifierFn only_assume f
IsCall non_bool_cond only_assume u n = ⊥

-- the users are calls, at these addresses
abbrev pub AreCalls : Bool → Bool → Users → List ℕ → Type 0
AreCalls non_bool_cond only_assume no_uses [] = Unit
AreCalls non_bool_cond only_assume (use_then u us) (n ∷ ns) =
    IsCall non_bool_cond only_assume u n × AreCalls non_bool_cond only_assume us ns
AreCalls non_bool_cond only_assume us ns = ⊥

-- what an accepted user is
abbrev Accepts : Bool → Bool → User → Option ℕ → Type 0
Accepts non_bool_cond only_assume u none = (n : ℕ) → ¬ IsCall non_bool_cond only_assume u n
Accepts non_bool_cond only_assume u (some n) = IsCall non_bool_cond only_assume u n

verifier_fn :
    (only_assume : Bool) (f : Callee)
    → (IsVerifierFn only_assume f × (wanted_call only_assume f ≡ true))
      ⊎ ((¬ IsVerifierFn only_assume f) × (wanted_call only_assume f ≡ false))
unfolding wanted_call is_verifier_call
verifier_fn true f = ground arith
verifier_fn false f = ground arith

call-Accepts :
    (non_bool_cond only_assume : Bool) (at : ℕ) (f : Callee) (non_bool : Bool)
    → Accepts non_bool_cond only_assume
        (call_inst at (some f) non_bool)
        (accepted non_bool_cond only_assume (call_inst at (some f) non_bool))
unfolding accepted called
call-Accepts true only_assume at f true = elim (verifier_fn only_assume f) [
  | inl (is, e) ↦ rw (e, Accepts) (refl, is, refl)
  | inr (is_not, e) ↦ rw (e, Accepts) (λ n h. is_not (h.1))
]
call-Accepts true only_assume at f false = elim (verifier_fn only_assume f) [
  | inl (is, e) ↦ rw (e, Accepts) (λ n h. cc (h.2))
  | inr (is_not, e) ↦ rw (e, Accepts) (λ n h. is_not (h.1))
]
call-Accepts false only_assume at f non_bool = elim (verifier_fn only_assume f) [
  | inl (is, e) ↦ rw (e, Accepts) (refl, is)
  | inr (is_not, e) ↦ rw (e, Accepts) (λ n h. is_not (h.1))
]

accepted-Accepts :
    (non_bool_cond only_assume : Bool) (u : User)
    → Accepts non_bool_cond only_assume u (accepted non_bool_cond only_assume u)
unfolding accepted called
accepted-Accepts true only_assume (call_inst at none non_bool) = λ n h. h
accepted-Accepts false only_assume (call_inst at none non_bool) = λ n h. h
accepted-Accepts non_bool_cond only_assume (call_inst at (some f) non_bool) =
    call-Accepts non_bool_cond only_assume at f non_bool
accepted-Accepts true only_assume branch_inst = λ n h. h
accepted-Accepts false only_assume branch_inst = λ n h. h
accepted-Accepts true only_assume (select_inst t c us) = λ n h. h
accepted-Accepts false only_assume (select_inst t c us) = λ n h. h
accepted-Accepts true only_assume (zext_inst us) = λ n h. h
accepted-Accepts false only_assume (zext_inst us) = λ n h. h
accepted-Accepts true only_assume (sext_inst us) = λ n h. h
accepted-Accepts false only_assume (sext_inst us) = λ n h. h
accepted-Accepts true only_assume other_user = λ n h. h
accepted-Accepts false only_assume other_user = λ n h. h

-- The answer is yes with the calls added to those before, or no with none and no list of addresses
-- fits the users.
abbrev pub Scans : Bool → Bool → Users → List ℕ → Bool × List ℕ → Type 0
Scans non_bool_cond only_assume us before (true, after) =
    (ns : List ℕ) × AreCalls non_bool_cond only_assume us ns × (after ≡ before ++ ns)
Scans non_bool_cond only_assume us before (false, after) =
    (after ≡ []) × ((ns : List ℕ) → ¬ AreCalls non_bool_cond only_assume us ns)

++_nil : (xs : List ℕ) → xs ++ [] ≡ xs
++_nil [] = refl
++_nil (x ∷ xs) = ap (λ ys. x ∷ ys) (++_nil xs)

++_assoc : (xs ys zs : List ℕ) → (xs ++ ys) ++ zs ≡ xs ++ (ys ++ zs)
++_assoc [] ys zs = refl
++_assoc (x ∷ xs) ys zs = ap (λ l. x ∷ l) (++_assoc xs ys zs)

Scans-more :
    (non_bool_cond only_assume : Bool) (u : User) (us : Users) (n : ℕ) (before : List ℕ)
    (answer : Bool × List ℕ)
    → IsCall non_bool_cond only_assume u n
    → Scans non_bool_cond only_assume us (before ++ (n ∷ [])) answer
    → Scans non_bool_cond only_assume (use_then u us) before answer
Scans-more non_bool_cond only_assume u us n before (true, after) h (ns, calls, made) =
    (n ∷ ns, (h, calls), made ∙ ++_assoc before (n ∷ []) ns)
Scans-more non_bool_cond only_assume u us n before (false, after) h (made, no_calls) =
    (made, no_list)
  where
    no_list : (ns : List ℕ) → ¬ AreCalls non_bool_cond only_assume (use_then u us) ns
    no_list [] k = k
    no_list (m ∷ ns) k = no_calls ns k.1

Scans-none :
    (non_bool_cond only_assume : Bool) (u : User) (us : Users) (before : List ℕ)
    → ((n : ℕ) → ¬ IsCall non_bool_cond only_assume u n)
    → Scans non_bool_cond only_assume (use_then u us) before (false, [])
Scans-none non_bool_cond only_assume u us before other = (refl, no_list)
  where
    no_list : (ns : List ℕ) → ¬ AreCalls non_bool_cond only_assume (use_then u us) ns
    no_list [] k = k
    no_list (m ∷ ns) k = other m k.0

scan_user :
    (non_bool_cond only_assume : Bool) (u : User) (us : Users) (before : List ℕ) (a : Option ℕ)
    → Accepts non_bool_cond only_assume u a
    → ((calls : List ℕ)
        → Scans non_bool_cond only_assume us calls
            (all_uses_are_verifier_calls false non_bool_cond only_assume us calls))
    → Scans non_bool_cond only_assume (use_then u us) before (elim a [
      | none ↦ (false, [])
      | some call ↦
          all_uses_are_verifier_calls false non_bool_cond only_assume us (before ++ (call ∷ []))
    ])
scan_user non_bool_cond only_assume u us before none h rest =
    Scans-none non_bool_cond only_assume u us before h
scan_user non_bool_cond only_assume u us before (some call) h rest =
    Scans-more non_bool_cond only_assume u us call before _ h (rest (before ++ (call ∷ [])))

-- A scan that does not go through casts answers yes exactly if every use is a direct call of a
-- function of the verifier, one of those that assume if only these are asked for, and with a
-- parameter that is not Boolean if that is asked for. Then the calls, in the order of the uses, are
-- added to the ones that the caller passed; otherwise no call is left.
pub all_uses_are_verifier_calls-Scans :
    (non_bool_cond only_assume : Bool) (us : Users) (before : List ℕ)
    → Scans non_bool_cond only_assume us before
        (all_uses_are_verifier_calls false non_bool_cond only_assume us before)
unfolding all_uses_are_verifier_calls
all_uses_are_verifier_calls-Scans non_bool_cond only_assume no_uses before =
    ([], tt, sym (++_nil before))
all_uses_are_verifier_calls-Scans non_bool_cond only_assume (use_then u us) before =
    scan_user non_bool_cond only_assume u us before (accepted non_bool_cond only_assume u)
      (accepted-Accepts non_bool_cond only_assume u)
      (all_uses_are_verifier_calls-Scans non_bool_cond only_assume us)
