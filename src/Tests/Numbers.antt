-- ===== src/Tests/Numbers.antt =====
-- Operations on integers that stand for signed numbers of 8 bits, for the tests of binary operators.
use clam.Prelude.{
  ℕ, ◌+◌, ◌-◌, ◌*◌, ◌/◌, ◌%◌, ◌^◌, refl, Bool, not, ◌&&◌, ◌||◌, ◌==◌, if◌then◌else◌, zero, suc,
}
use clam.Prelude.Int.{ℤ, pos, negsuc, pos_part, neg_part, sub_ℕ, ltb_ℤ, ◌+ℤ◌, ◌-ℤ◌, ◌*ℤ◌}
use clam.Llvm.{signed}
use clam.Ir.{
  IntOp, add, sub, mul, sdiv, udiv, srem, urem, bitwise_and, bitwise_or, bitwise_xor, shl, ashr,
  lshr, IntOps, Numbers, IntOpsLaws,
}

abbrev size_of : ℤ → ℕ
size_of a = pos_part a + neg_part a

abbrev is_neg : ℤ → Bool
is_neg a = ltb_ℤ a (pos 0)

-- the number with its sign, from its size
abbrev with_sign : Bool → ℕ → ℤ
with_sign negative n = if negative then sub_ℕ 0 n else pos n

abbrev byte_of : ℤ → ℕ
byte_of (pos n) = n % 256
byte_of (negsuc n) = 255 - n % 256

abbrev on_bytes : (ℕ → ℕ → ℕ) → ℤ → ℤ → ℤ
on_bytes f a b = signed 128 (f (byte_of a) (byte_of b) % 256)

-- bit by bit, from the lowest of so many bits
abbrev bitwise : (Bool → Bool → Bool) → ℕ → ℕ → ℕ → ℕ
bitwise f zero a b = 0
bitwise f (suc w) a b =
    let rest = bitwise f w (a / 2) (b / 2) in
    (if f (a % 2 == 1) (b % 2 == 1) then 1 else 0) + 2 * rest

abbrev div_signed : ℤ → ℤ → ℤ
div_signed a b = with_sign (if is_neg a then not (is_neg b) else is_neg b) (size_of a / size_of b)

abbrev rem_signed : ℤ → ℤ → ℤ
rem_signed a b = with_sign (is_neg a) (size_of a % size_of b)

-- rounded down
abbrev shift_right : ℤ → ℤ → ℤ
shift_right (pos n) b = pos (n / 2 ^ size_of b)
shift_right (negsuc n) b = negsuc (n / 2 ^ size_of b)

abbrev shift_left : ℤ → ℤ → ℤ
shift_left a b = a *ℤ pos (2 ^ size_of b)

abbrev pub numbers : Numbers
numbers = record {
  signed_div = div_signed;
  unsigned_div = on_bytes (λ a b. a / b);
  signed_rem = rem_signed;
  unsigned_rem = on_bytes (λ a b. a % b);
  bits_and = on_bytes (bitwise (λ a b. a && b) 8);
  bits_or = on_bytes (bitwise (λ a b. a || b) 8);
  bits_xor = on_bytes (bitwise (λ a b. if a then not b else b) 8);
  shift_left = shift_left;
  arithmetic_shift_right = shift_right;
  logical_shift_right = on_bytes (λ a b. a / 2 ^ b);
}

abbrev compute : IntOp → ℤ → ℤ → ℤ
compute add a b = a +ℤ b
compute sub a b = a -ℤ b
compute mul a b = a *ℤ b
compute sdiv a b = numbers.signed_div a b
compute udiv a b = numbers.unsigned_div a b
compute srem a b = numbers.signed_rem a b
compute urem a b = numbers.unsigned_rem a b
compute bitwise_and a b = numbers.bits_and a b
compute bitwise_or a b = numbers.bits_or a b
compute bitwise_xor a b = numbers.bits_xor a b
compute shl a b = numbers.shift_left a b
compute ashr a b = numbers.arithmetic_shift_right a b
compute lshr a b = numbers.logical_shift_right a b

abbrev pub int_ops : IntOps
int_ops = record { apply = compute; fold = compute }

pub int_ops_laws : IntOpsLaws int_ops numbers
int_ops_laws = record {
  fold_law = λ op a b. refl;
  add_law = λ a b. refl;
  sub_law = λ a b. refl;
  mul_law = λ a b. refl;
  sdiv_law = λ a b. refl;
  udiv_law = λ a b. refl;
  srem_law = λ a b. refl;
  urem_law = λ a b. refl;
  and_law = λ a b. refl;
  or_law = λ a b. refl;
  xor_law = λ a b. refl;
  shl_law = λ a b. refl;
  ashr_law = λ a b. refl;
  lshr_law = λ a b. refl;
}
