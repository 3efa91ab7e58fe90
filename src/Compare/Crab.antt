-- ===== src/Compare/Crab.antt =====
-- The constraints and the statements of Crab that the builder emits for comparisons, and what they
-- do to the Boolean variables.
use clam.Prelude.{ℕ, Bool, true, false, not, List, [], ◌∷◌, none, some, ◌==◌, ◌≡◌, if◌then◌else◌}
use clam.Prelude.Int.{ℤ, ltb_ℤ, ◌+ℤ◌, ◌-ℤ◌}
use clam.Lit.Values.{Var}
use clam.Lit.Literal.{LinExp}

-- lin_cst_t, as the code makes it.
pub data LinCst : Type 0 where
  get_true get_false : LinCst
  le ge eq ne : LinExp → LinExp → LinCst

-- lin_exp_t with a number added to it or taken from it, and a number as a lin_exp_t.
unfoldable pub plus_number : LinExp → ℤ → LinExp
plus_number e n = record e { constant = e.constant +ℤ n }

unfoldable pub minus_number : LinExp → ℤ → LinExp
minus_number e n = record e { constant = e.constant -ℤ n }

abbrev pub number_exp : ℤ → LinExp
number_exp n = record { var = none; constant = n }

-- bool_assign of a constraint, bool_select and havoc.
pub data Stmt : Type 0 where
  bool_assign : Var → LinCst → Stmt
  bool_select : Var → Var → Var → Var → Stmt
  havoc : Var → Stmt

unfoldable pub exp_value : (ℕ → ℤ) → LinExp → ℤ
exp_value ints e = elim e.var [ none ↦ e.constant | some x ↦ ints x.name +ℤ e.constant ]

abbrev pub leb_ℤ : ℤ → ℤ → Bool
leb_ℤ a b = not (ltb_ℤ b a)

abbrev pub eqb_ℤ : ℤ → ℤ → Bool
eqb_ℤ a b = if leb_ℤ a b then leb_ℤ b a else false

unfoldable pub holds : (ℕ → ℤ) → LinCst → Bool
unfolding exp_value
holds ints get_true = true
holds ints get_false = false
holds ints (le a b) = leb_ℤ (exp_value ints a) (exp_value ints b)
holds ints (ge a b) = leb_ℤ (exp_value ints b) (exp_value ints a)
holds ints (eq a b) = eqb_ℤ (exp_value ints a) (exp_value ints b)
holds ints (ne a b) = not (eqb_ℤ (exp_value ints a) (exp_value ints b))

abbrev pub set_bool : ℕ → Bool → (ℕ → Bool) → ℕ → Bool
set_bool x v bools n = if n == x then v else bools n

-- From the values of the Boolean variables; the integers stay as they are. havoc takes any value,
-- which `pick` gives.
unfoldable pub exec : (ℕ → Bool) → (ℕ → ℤ) → List Stmt → (ℕ → Bool) → ℕ → Bool
unfolding holds
exec pick ints [] bools = bools
exec pick ints (bool_assign x c ∷ ss) bools =
    exec pick ints ss (set_bool x.name (holds ints c) bools)
exec pick ints (bool_select x c a b ∷ ss) bools =
    exec pick ints ss (set_bool x.name (if bools c.name then bools a.name else bools b.name) bools)
exec pick ints (havoc x ∷ ss) bools = exec pick ints ss (set_bool x.name (pick x.name) bools)

-- Crab's tests of a constraint: yes only where the constraint always or never holds.
pub record CstTests : Type 0 where
  pub is_tautology : LinCst → Bool
  pub is_contradiction : LinCst → Bool

pub record CstTestsLaws (t : CstTests) : Type 0 where
  pub tautology_law : (ints : ℕ → ℤ) (c : LinCst) → t.is_tautology c ≡ true → holds ints c ≡ true
  pub contradiction_law :
      (ints : ℕ → ℤ) (c : LinCst) → t.is_contradiction c ≡ true → holds ints c ≡ false
