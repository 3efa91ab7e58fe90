-- ===== src/Ops/ViewLaws.antt =====
-- What the operands of a binary operator say of their values.
use clam.Prelude.{
  ℕ, zero, suc, ◌≡◌, refl, subst, Bool, true, false, Option, none, some, arith, some_inv,
}
use clam.Prelude.Int.{ℤ, pos, negsuc, ◌+ℤ◌, +ℤ_parts, eq_of_parts}
use clam.Lit.Values.{Var}
use clam.Lit.Literal.{Lit, bool_cst, bool_var, int_cst, int_var, ref_null, ref_var, LinExp, get_exp}
use clam.Compare.Crab.{exp_value}
use clam.Compare.Insts.{int_exp}
use clam.Ops.Views.{View, variable, number, neither, view_of, view, is_number, Opcode}
use clam.Ops.Meaning.{folds}

pub plus_zero : (a : ℤ) → a +ℤ pos 0 ≡ a
plus_zero a = eq_of_parts (a +ℤ pos 0) a (omega (arith, +ℤ_parts a (pos 0)))

-- what a view says of the value
abbrev pub ViewHolds : (ℕ → ℤ) → View → ℤ → Type 0
ViewHolds ints (variable x) v = v ≡ ints x.name
ViewHolds ints (number n) v = v ≡ n
ViewHolds ints neither v = Unit

pub view_of-ViewHolds :
    (ints : ℕ → ℤ) (o : Option Var) (c : ℤ)
    → ViewHolds ints (view_of o c) (exp_value ints (record { var = o; constant = c }))
unfolding view_of exp_value
view_of-ViewHolds ints none c = refl
view_of-ViewHolds ints (some x) (pos zero) = plus_zero (ints x.name)
view_of-ViewHolds ints (some x) (pos (suc n)) = tt
view_of-ViewHolds ints (some x) (negsuc n) = tt

pub view-ViewHolds : (ints : ℕ → ℤ) (e : LinExp) → ViewHolds ints (view e) (exp_value ints e)
unfolding view
view-ViewHolds ints e = view_of-ViewHolds ints e.var e.constant

-- the operands of a literal are a variable or a number
abbrev pub IsPlain : View → Type 0
IsPlain neither = ⊥
IsPlain _ = Unit

-- whether doBinOp computes the result
abbrev pub is_precise : Opcode → View → View → Bool
is_precise op (variable x) v = true
is_precise op (number m) (number n) = folds op
is_precise op (number m) _ = false
is_precise op neither v = false

pub int_exp-IsPlain : (r : Option Lit) (e : LinExp) → int_exp r ≡ some e → IsPlain (view e)
unfolding int_exp get_exp view view_of
int_exp-IsPlain none e h = absurd (cc h)
int_exp-IsPlain (some (bool_cst b)) e h = absurd (cc h)
int_exp-IsPlain (some (bool_var x)) e h = absurd (cc h)
int_exp-IsPlain (some (int_cst n w)) e h = subst (λ k. IsPlain (view k)) (some_inv h) tt
int_exp-IsPlain (some (int_var x w)) e h = subst (λ k. IsPlain (view k)) (some_inv h) tt
int_exp-IsPlain (some ref_null) e h = absurd (cc h)
int_exp-IsPlain (some (ref_var x)) e h = absurd (cc h)

-- two environments agree on the variable
abbrev pub AgreeOn : (ℕ → ℤ) → (ℕ → ℤ) → View → Type 0
AgreeOn f g (variable x) = f x.name ≡ g x.name
AgreeOn f g _ = Unit

pub same_by_view :
    (f g : ℕ → ℤ) (w : View) (a b : ℤ)
    → IsPlain w
    → ViewHolds f w a
    → ViewHolds g w b
    → AgreeOn f g w
    → a ≡ b
same_by_view f g (variable x) a b p ha hb h = cc
same_by_view f g (number n) a b p ha hb h = cc
same_by_view f g neither a b p ha hb h = absurd p

pub precise_variable :
    (op : Opcode) (v w : View) → IsPlain v → is_number v ≡ false → is_precise op v w ≡ true
unfolding is_number
precise_variable op (variable x) w p h = refl
precise_variable op (number n) w p h = absurd (cc h)
precise_variable op neither w p h = absurd p
