-- ===== src/Compare/Blocks.antt =====
-- The blocks of unsignedCmpIntoSignOnes one by one, and the new names that they use.
use clam.Prelude.{
  ℕ, zero, suc, ◌≡◌, refl, ◌∙◌, Bool, true, false, ◌||◌, [], ◌∷◌, ◌==◌, if◌then◌else◌, Bool-cases,
  inl, inr, ==_refl, ==_iff,
}
use clam.Prelude.Int.{ℤ}
use clam.Lit.Values.{Var, VarFactory, VarFactoryLaws}
use clam.Compare.Crab.{LinCst, bool_assign, holds, exec}
use clam.Compare.SignOnes.{second_unknown, first_negative, first_unknown, Fresh, both_unknown}

-- one name is not another
abbrev pub Differs : Var → Var → Type 0
Differs x y = (x.name == y.name) ≡ false

-- the results of the blocks, whose new variables have different names
module _ (pick : ℕ → Bool) (ints : ℕ → ℤ) (bools : ℕ → Bool) (res : Var) where
  pub one-run : (c : LinCst) → exec pick ints (bool_assign res c ∷ []) bools res.name ≡ holds ints c
  unfolding exec
  one-run c = rw (==_refl res.name) refl

  pub second_unknown-run :
      (t cmp cst_no : LinCst) (a b c : Var)
      → Differs a b
      → Differs a c
      → Differs b c
      → exec pick ints (second_unknown res t cmp cst_no a b c) bools res.name
        ≡ (if holds ints t then holds ints cmp else holds ints cst_no)
  unfolding exec second_unknown
  second_unknown-run t cmp cst_no a b c ab ac bc =
      rw (==_refl res.name, ab, ac, bc, ==_refl a.name, ==_refl b.name, ==_refl c.name) refl

  pub first_negative-run :
      (t cmp cst_yes : LinCst) (a b c : Var)
      → Differs a b
      → Differs a c
      → Differs b c
      → exec pick ints (first_negative res t cmp cst_yes a b c) bools res.name
        ≡ (if holds ints t then holds ints cst_yes else holds ints cmp)
  unfolding exec first_negative
  first_negative-run t cmp cst_yes a b c ab ac bc =
      rw (==_refl res.name, ab, ac, bc, ==_refl a.name, ==_refl b.name, ==_refl c.name) refl

  pub first_unknown-run :
      (t if_ge if_lt : LinCst) (a b c : Var)
      → Differs a b
      → Differs a c
      → Differs b c
      → exec pick ints (first_unknown res t if_ge if_lt a b c) bools res.name
        ≡ (if holds ints t then holds ints if_ge else holds ints if_lt)
  unfolding exec first_unknown
  first_unknown-run t if_ge if_lt a b c ab ac bc =
      rw (==_refl res.name, ab, ac, bc, ==_refl a.name, ==_refl b.name, ==_refl c.name) refl

  pub both_unknown-run :
      (t0 t1 cmp cst_no cst_yes : LinCst) (v : Fresh)
      → Differs v.c2 v.op0_ge_0
      → Differs v.c2 v.op0_lt_0
      → Differs v.c2 v.c1
      → Differs v.c2 v.cmp_true
      → Differs v.c2 v.v_false
      → Differs v.c2 v.cmp_false
      → Differs v.c2 v.v_true
      → Differs v.op0_ge_0 v.op0_lt_0
      → Differs v.op0_ge_0 v.cmp_false
      → Differs v.op0_ge_0 v.v_true
      → Differs v.c1 v.op0_ge_0
      → Differs v.c1 v.cmp_true
      → Differs v.c1 v.v_false
      → Differs v.c1 v.cmp_false
      → Differs v.c1 v.v_true
      → Differs v.cmp_true v.v_false
      → Differs v.cmp_false v.v_true
      → exec pick ints (both_unknown res t0 t1 cmp cst_no cst_yes v) bools res.name ≡ (
          if holds ints t0
          then (if holds ints t1 then holds ints cmp else holds ints cst_no)
          else (if holds ints t1 then holds ints cst_yes else holds ints cmp))
  unfolding exec both_unknown
  both_unknown-run t0 t1 cmp cst_no cst_yes v d1 d2 d3 d4 d5 d6 d7 d8 d9 d10 d11 d12 d13 d14 d15 d16
        d17 =
      rw
        (
          ==_refl res.name,
          ==_refl v.c2.name,
          ==_refl v.c1.name,
          ==_refl v.op0_ge_0.name,
          ==_refl v.op0_lt_0.name,
          ==_refl v.cmp_true.name,
          ==_refl v.v_false.name,
          ==_refl v.cmp_false.name,
          ==_refl v.v_true.name,
          d1,
          d2,
          d3,
          d4,
          d5,
          d6,
          d7,
          d8,
          d9,
          d10,
          d11,
          d12,
          d13,
          d14,
          d15,
          d16,
          d17,
        )
        refl

-- The names that Crab's factory gives one after the other.
module _ (f : VarFactory) (laws : VarFactoryLaws f) where
  open f use {State, get, known}

  abbrev pub after : ℕ → State → State
  after zero s = s
  after (suc k) s = after k (get s).1

  pub after-known : (k n : ℕ) (s : State) → known s n ≡ true → known (after k s) n ≡ true
  after-known zero n s h = h
  after-known (suc k) n s h =
      after-known k n (get s).1 (laws.get_known s n ∙ rw h (or_true (n == (get s).0)))
    where
      or_true : (b : Bool) → (b || true) ≡ true
      or_true true = refl
      or_true false = refl

  -- a name differs from the ones that are made later
  pub get_differs : (k : ℕ) (s : State) → ((get s).0 == (get (after k (get s).1)).0) ≡ false
  get_differs k s = elim (Bool-cases ((get s).0 == (get (after k (get s).1)).0)) [
    | inr e ↦ e
    | inl e ↦
        let n = (get s).0 in
        let later = get (after k (get s).1) in
        let made : known (get s).1 n ≡ true = laws.get_known s n ∙ rw (==_refl n) refl in
        let old = after-known k n (get s).1 made in
        let same : n ≡ later.0 = (==_iff n later.0).0 e in
        absurd (cc (old, laws.get_new (after k (get s).1), same))
  ]
