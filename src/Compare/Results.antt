-- ===== src/Compare/Results.antt =====
-- Signed and unsigned comparisons of values, and the constraints that stand for them.
use clam.Prelude.{
  ℕ, ◌+◌, ◌*◌, ◌<◌, ◌≡◌, ◌↔◌, refl, Bool, true, false, not, Option, none, some, ltb, leb,
  if◌then◌else◌, arith,
}
use clam.Prelude.Int.{ℤ, pos, negsuc, ltb_ℤ, ◌+ℤ◌, ◌-ℤ◌, +ℤ_parts, -ℤ_parts, pos_part, neg_part}
use clam.Llvm.{signed}
use clam.Lit.Values.{Var}
use clam.Lit.Literal.{LinExp}
use clam.Compare.Crab.{plus_number, minus_number, exp_value, leb_ℤ, holds}
use clam.Compare.SignOnes.{sign_cmp, constant_cst}

-- The signed comparison, x ≤ y or x < y, reversed if it is negated.
abbrev pub signed_result : Bool → Bool → ℤ → ℤ → Bool
signed_result negated ule x y =
    let cmp = if ule then leb_ℤ x y else ltb_ℤ x y in if negated then not cmp else cmp

pub exp_value-plus :
    (ints : ℕ → ℤ) (e : LinExp) (n : ℤ)
    → let v = exp_value ints e in
      let w = exp_value ints (plus_number e n) in
      pos_part w + neg_part v + neg_part n ≡ neg_part w + pos_part v + pos_part n
unfolding exp_value plus_number
exp_value-plus ints e n = go e.var e.constant
  where
    go :
        (o : Option Var) (c : ℤ)
        → let v = exp_value ints (record { var = o; constant = c }) in
          let w = exp_value ints (plus_number (record { var = o; constant = c }) n) in
          pos_part w + neg_part v + neg_part n ≡ neg_part w + pos_part v + pos_part n
    go none c = omega (arith, +ℤ_parts c n)
    go (some x) c =
        omega (arith, +ℤ_parts c n, +ℤ_parts (ints x.name) c, +ℤ_parts (ints x.name) (c +ℤ n))

pub exp_value-minus :
    (ints : ℕ → ℤ) (e : LinExp) (n : ℤ)
    → let v = exp_value ints e in
      let w = exp_value ints (minus_number e n) in
      pos_part w + neg_part v + pos_part n ≡ neg_part w + pos_part v + neg_part n
unfolding exp_value minus_number
exp_value-minus ints e n = go e.var e.constant
  where
    go :
        (o : Option Var) (c : ℤ)
        → let v = exp_value ints (record { var = o; constant = c }) in
          let w = exp_value ints (minus_number (record { var = o; constant = c }) n) in
          pos_part w + neg_part v + pos_part n ≡ neg_part w + pos_part v + neg_part n
    go none c = omega (arith, -ℤ_parts c n)
    go (some x) c =
        omega (arith, -ℤ_parts c n, +ℤ_parts (ints x.name) c, +ℤ_parts (ints x.name) (c -ℤ n))

pub sign_cmp_lem :
    (ints : ℕ → ℤ) (negated ule : Bool) (op0 op1 : LinExp)
    → holds ints (sign_cmp negated ule op0 op1)
      ≡ signed_result negated ule (exp_value ints op0) (exp_value ints op1)
unfolding holds sign_cmp
sign_cmp_lem ints false true op0 op1 = refl
sign_cmp_lem ints true true op0 op1 = let p = exp_value-plus ints op1 (pos 1) in ground (arith, p)
sign_cmp_lem ints false false op0 op1 =
    let p = exp_value-minus ints op1 (pos 1) in ground (arith, p)
sign_cmp_lem ints true false op0 op1 = refl

pub constant_cst_lem : (ints : ℕ → ℤ) (b : Bool) → holds ints (constant_cst b) ≡ b
unfolding holds
constant_cst_lem ints true = refl
constant_cst_lem ints false = refl

-- the signs of the operands and the comparison of their values give the signed comparison
pub by_signs :
    (negated ule : Bool) (x y : ℤ)
    → let result = signed_result negated ule x y in
      (if leb_ℤ (pos 0) x
        then (if leb_ℤ (pos 0) y then result else negated)
        else (if leb_ℤ (pos 0) y then not negated else result))
      ≡ result
by_signs false false (pos a) (pos b) = ground arith
by_signs false true (pos a) (pos b) = ground arith
by_signs true false (pos a) (pos b) = ground arith
by_signs true true (pos a) (pos b) = ground arith
by_signs false false (pos a) (negsuc b) = ground arith
by_signs false true (pos a) (negsuc b) = ground arith
by_signs true false (pos a) (negsuc b) = ground arith
by_signs true true (pos a) (negsuc b) = ground arith
by_signs false false (negsuc a) (pos b) = ground arith
by_signs false true (negsuc a) (pos b) = ground arith
by_signs true false (negsuc a) (pos b) = ground arith
by_signs true true (negsuc a) (pos b) = ground arith
by_signs false false (negsuc a) (negsuc b) = ground arith
by_signs false true (negsuc a) (negsuc b) = ground arith
by_signs true false (negsuc a) (negsuc b) = ground arith
by_signs true true (negsuc a) (negsuc b) = ground arith

-- The unsigned comparison of bits, reversed if it is negated.
abbrev pub unsigned_result : Bool → Bool → ℕ → ℕ → Bool
unsigned_result negated ule a b =
    let cmp = if ule then leb a b else ltb a b in if negated then not cmp else cmp

-- The signed and the unsigned comparison of bits agree exactly on equal sign bits.
pub results_agree :
    (negated ule : Bool) (half a b : ℕ)
    → a < 2 * half
    → b < 2 * half
    → (signed_result negated ule (signed half a) (signed half b) ≡ unsigned_result negated ule a b)
      ↔ (ltb a half ≡ ltb b half)
results_agree false false half a b h k = ground arith
results_agree false true half a b h k = ground arith
results_agree true false half a b h k = ground arith
results_agree true true half a b h k = ground arith
