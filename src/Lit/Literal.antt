-- ===== src/Lit/Literal.antt =====
-- lib/Clam/CfgBuilderLit.hh: the classes of literals, and the accessors of the factory.
use clam.Prelude.{ℕ, Bool, true, false, not, Option, none, some}
use clam.Prelude.Int.{ℤ, pos}
use clam.Lit.Values.{Var}

-- CLAM_ERROR ends the program; so does a failed assert.
pub data Checked {ℓ} (A : Type ℓ) : Type ℓ where
  ok : A → Checked A
  clam_error : Checked A

infixl 5 ◌>>=◌
abbrev pub ◌>>=◌ {ℓ κ} : {A : Type ℓ} {B : Type κ} → Checked A → (A → Checked B) → Checked B
ok a >>= f = f a
clam_error >>= f = clam_error

-- crabBoolLit, crabIntLit with its bit width, and crabRefLit.
pub data Lit : Type 0 where
  bool_cst : Bool → Lit
  bool_var : Var → Lit
  int_cst : ℤ → ℕ → Lit
  int_var : Var → ℕ → Lit
  ref_null : Lit
  ref_var : Var → Lit

pub data LitClass : Type 0 where
  crab_literal_bool crab_literal_int crab_literal_ref : LitClass

unfoldable pub lit_class : Lit → LitClass
lit_class (bool_cst b) = crab_literal_bool
lit_class (bool_var x) = crab_literal_bool
lit_class (int_cst n w) = crab_literal_int
lit_class (int_var x w) = crab_literal_int
lit_class ref_null = crab_literal_ref
lit_class (ref_var x) = crab_literal_ref

-- getVar, where isVar holds.
unfoldable pub get_var : Lit → Option Var
get_var (bool_var x) = some x
get_var (int_var x w) = some x
get_var (ref_var x) = some x
get_var _ = none

unfoldable pub is_true : Lit → Bool
is_true (bool_cst b) = b
is_true _ = false

unfoldable pub is_false : Lit → Bool
is_false (bool_cst b) = not b
is_false _ = false

-- lin_exp_t: a variable or none, and a constant that is added.
pub record LinExp : Type 0 where
  pub var : Option Var
  pub constant : ℤ

-- The constants that getTypedConst makes: var_or_cst_t.
pub data TypedConst : Type 0 where
  make_bool_true make_bool_false make_reference_null : TypedConst
  number : ℤ → ℕ → TypedConst

-- The accessors take a literal that may be null.
unfoldable pub is_bool_true : Option Lit → Checked Bool
unfolding lit_class is_true
is_bool_true none = clam_error
is_bool_true (some l) = elim (lit_class l) [ crab_literal_bool ↦ ok (is_true l) | _ ↦ clam_error ]

unfoldable pub is_bool_false : Option Lit → Checked Bool
unfolding lit_class is_false
is_bool_false none = clam_error
is_bool_false (some l) = elim (lit_class l) [ crab_literal_bool ↦ ok (is_false l) | _ ↦ clam_error ]

unfoldable pub is_ref_null : Option Lit → Checked Bool
is_ref_null (some ref_null) = ok true
is_ref_null (some (ref_var x)) = ok false
is_ref_null _ = clam_error

unfoldable pub get_exp : Option Lit → Checked LinExp
get_exp (some (int_cst n w)) = ok (record { var = none; constant = n })
get_exp (some (int_var x w)) = ok (record { var = some x; constant = pos 0 })
get_exp _ = clam_error

unfoldable pub get_int_cst : Option Lit → Checked ℤ
get_int_cst (some (int_cst n w)) = ok n
get_int_cst _ = clam_error

unfoldable pub get_typed_const : Lit → Checked TypedConst
get_typed_const (bool_cst true) = ok make_bool_true
get_typed_const (bool_cst false) = ok make_bool_false
get_typed_const (bool_var x) = clam_error
get_typed_const (int_cst n w) = ok (number n w)
get_typed_const (int_var x w) = clam_error
get_typed_const ref_null = ok make_reference_null
get_typed_const (ref_var x) = clam_error
