-- ===== src/Query/Intervals.antt =====
-- getConstantRange: the range that it makes holds the numbers of the interval.
use clam.Prelude.{
  ℕ, zero, suc, ◌+◌, ◌-◌, ◌*◌, ◌^◌, ◌<◌, ◌≡◌, refl, sym, ap, subst, ◌∙◌, Bool, true, false, not,
  ◌&&◌, ◌||◌, ◌==◌, ltb, leb, if◌then◌else◌, arith, Bool-cases, inl, inr,
}
use native.Mathlib.Nat.{mod-eq_of_lt}
use clam.Prelude.Int.{ℤ, pos, negsuc, ltb_ℤ, ◌+ℤ◌, +ℤ_parts, eq_of_parts, ◌≤ℤ◌}
use clam.Llvm.{signed}
use clam.Compare.Crab.{eqb_ℤ}
use clam.Query.{
  Ranges, RangesLaws, bits_of_int, int64_max, next_int64, get_constant_range, fits_int64,
}

-- the number is one of the signed numbers of the width
abbrev pub InWidth : ℕ → ℤ → Type 0
InWidth half (pos n) = n < half
InWidth half (negsuc n) = n < half

abbrev pub between : ℤ → ℤ → ℤ → Bool
between lower upper z = not (ltb_ℤ z lower) && not (ltb_ℤ upper z)

-- the bits of a number that is in the width
abbrev bits_in : ℕ → ℤ → ℕ
bits_in half (pos n) = n
bits_in half (negsuc n) = 2 * half - 1 - n

-- the bits after those of the upper end
abbrev bits_after : ℕ → ℤ → ℕ
bits_after half (pos n) = n + 1
bits_after half (negsuc n) = if n == 0 then 0 else 2 * half - n

-- what the documented laws say that the range contains
abbrev in_bits : ℕ → ℕ → ℕ → Bool
in_bits lo hi x = if ltb lo hi then leb lo x && ltb x hi else leb lo x || ltb x hi

-- the interval is not the whole of the width
abbrev pub NotAll : ℕ → ℤ → ℤ → Type 0
NotAll half (negsuc a) (pos b) = a + b + 2 < 2 * half
NotAll half lower upper = Unit

in_bits-between :
    (half : ℕ) (lower upper : ℤ) (x : ℕ)
    → InWidth half lower
    → InWidth half upper
    → lower ≤ℤ upper
    → NotAll half lower upper
    → x < 2 * half
    → eqb_ℤ lower upper ≡ false
    → in_bits (bits_in half lower) (bits_after half upper) x ≡ between lower upper (signed half x)
in_bits-between half (pos a) (pos b) x ha hb le part hx ne = ground arith
in_bits-between half (pos a) (negsuc b) x ha hb le part hx ne = absurd (omega arith)
in_bits-between half (negsuc a) (pos b) x ha hb le part hx ne = ground arith
in_bits-between half (negsuc a) (negsuc b) x ha hb le part hx ne = ground arith

single-between :
    (half : ℕ) (lower upper : ℤ) (x : ℕ)
    → InWidth half lower
    → InWidth half upper
    → x < 2 * half
    → eqb_ℤ lower upper ≡ true
    → (x == bits_in half lower) ≡ between lower upper (signed half x)
single-between half (pos a) (pos b) x ha hb hx e = ground arith
single-between half (pos a) (negsuc b) x ha hb hx e = ground arith
single-between half (negsuc a) (pos b) x ha hb hx e = ground arith
single-between half (negsuc a) (negsuc b) x ha hb hx e = ground arith

ends_differ :
    (half : ℕ) (lower upper : ℤ)
    → InWidth half lower
    → InWidth half upper
    → lower ≤ℤ upper
    → NotAll half lower upper
    → eqb_ℤ lower upper ≡ false
    → (bits_in half lower == bits_after half upper) ≡ false
ends_differ half (pos a) (pos b) ha hb le part ne = ground arith
ends_differ half (pos a) (negsuc b) ha hb le part ne = absurd (omega arith)
ends_differ half (negsuc a) (pos b) ha hb le part ne = ground arith
ends_differ half (negsuc a) (negsuc b) ha hb le part ne = ground arith

bits_of_int-bits_in :
    (w half : ℕ) (z : ℤ) → 2 ^ w ≡ 2 * half → InWidth half z → bits_of_int w z ≡ bits_in half z
unfolding bits_of_int
bits_of_int-bits_in w half (pos n) size h =
    let below : n < 2 * half = omega (arith, h) in
    mod-eq_of_lt (subst (λ s. n < s) (sym size) below)
bits_of_int-bits_in w half (negsuc n) size h =
    let below : n < 2 * half = omega (arith, h) in
    ap (λ m. 2 ^ w - 1 - m) (mod-eq_of_lt (subst (λ s. n < s) (sym size) below))
    ∙ ap (λ s. s - 1 - n) size

next_pos : (n : ℕ) → pos n +ℤ pos 1 ≡ pos (n + 1)
next_pos n = eq_of_parts (pos n +ℤ pos 1) (pos (n + 1)) (omega (arith, +ℤ_parts (pos n) (pos 1)))

next_negsuc : (n : ℕ) → negsuc (suc n) +ℤ pos 1 ≡ negsuc n
next_negsuc n =
    eq_of_parts (negsuc (suc n) +ℤ pos 1) (negsuc n)
      (omega (arith, +ℤ_parts (negsuc (suc n)) (pos 1)))

bits_of_int-bits_after :
    (w half : ℕ) (z : ℤ)
    → 2 ^ w ≡ 2 * half
    → InWidth half z
    → bits_of_int w (z +ℤ pos 1) ≡ bits_after half z
unfolding bits_of_int ◌+ℤ◌
bits_of_int-bits_after w half (pos n) size h =
    let below : n + 1 < 2 * half = omega (arith, h) in
    ap (bits_of_int w) (next_pos n) ∙ mod-eq_of_lt (subst (λ s. n + 1 < s) (sym size) below)
bits_of_int-bits_after w half (negsuc zero) size h =
    let below : 0 < 2 * half = omega (arith, h) in
    mod-eq_of_lt (subst (λ s. 0 < s) (sym size) below)
bits_of_int-bits_after w half (negsuc (suc n)) size h =
    let below : n < 2 * half = omega (arith, h) in
    let shut : 2 * half - 1 - n ≡ bits_after half (negsuc (suc n)) = ground arith in
    ap (bits_of_int w) (next_negsuc n)
    ∙ (ap (λ m. 2 ^ w - 1 - m) (mod-eq_of_lt (subst (λ s. n < s) (sym size) below))
        ∙ (ap (λ s. s - 1 - n) size ∙ shut))

bits_in-below : (half : ℕ) (z : ℤ) → InWidth half z → bits_in half z < 2 * half
bits_in-below half (pos n) h = omega arith
bits_in-below half (negsuc n) h = omega arith

bits_after-below : (half : ℕ) (z : ℤ) → InWidth half z → bits_after half z < 2 * half
bits_after-below half (pos n) h = omega arith
bits_after-below half (negsuc n) h = ground arith

-- The code makes no sum of the largest int64_t and one: the upper end is not that number, or the two
-- ends are the same.
abbrev pub SumFits : ℤ → ℤ → Type 0
SumFits lower upper = (eqb_ℤ lower upper || not (eqb_ℤ upper (pos int64_max))) ≡ true

-- The ends are 64-bit numbers, and so is the sum if it is made.
abbrev pub IsDefined : ℤ → ℤ → Type 0
IsDefined lower upper = (fits_int64 lower ≡ true) × (fits_int64 upper ≡ true) × SumFits lower upper

next_int64_defined :
    (lower upper : ℤ)
    → SumFits lower upper
    → eqb_ℤ lower upper ≡ false
    → next_int64 upper ≡ upper +ℤ pos 1
unfolding next_int64
next_int64_defined lower upper sum ne =
    let below : not (eqb_ℤ upper (pos int64_max)) ≡ true = rw ne at sum in
    let small : eqb_ℤ upper (pos int64_max) ≡ false = ground (arith, below) in rw small refl

module _ (r : Ranges) (laws : RangesLaws r) where
  -- For an interval of signed numbers of a width that is not the whole of the width, whose ends fit
  -- int64_t and whose upper end is not the largest int64_t unless it is also the lower one, the range
  -- that is made contains a bit pattern exactly if its signed reading lies in the interval.
  pub get_constant_range-between :
      (w half : ℕ) (lower upper : ℤ) (x : ℕ)
      → 2 ^ w ≡ 2 * half
      → InWidth half lower
      → InWidth half upper
      → lower ≤ℤ upper
      → NotAll half lower upper
      → IsDefined lower upper
      → x < 2 * half
      → r.contains (get_constant_range r lower upper w) x ≡ between lower upper (signed half x)
  unfolding get_constant_range
  get_constant_range-between w half lower upper x size hl hu le part (_, _, sum) hx =
      let lo = bits_of_int-bits_in w half lower size hl in
      let hi = bits_of_int-bits_after w half upper size hu in
      let x_below = subst (λ s. x < s) (sym size) hx in
      let lo_below = subst (λ s. bits_in half lower < s) (sym size) (bits_in-below half lower hl) in
      let hi_below =
        subst (λ s. bits_after half upper < s) (sym size) (bits_after-below half upper hu) in
      elim (Bool-cases (eqb_ℤ lower upper)) [
        | inl e ↦
            ap (λ c. r.contains c x) (rw (e, get_constant_range) (ap (r.single w) lo))
            ∙ (laws.single_law w (bits_in half lower) x lo_below x_below
                ∙ single-between half lower upper x hl hu hx e)
        | inr e ↦
            ap (λ c. r.contains c x)
              (rw (e, get_constant_range)
                (ap (λ a. r.half_open w a (bits_of_int w (next_int64 upper))) lo
                  ∙ ap (r.half_open w (bits_in half lower))
                      (ap (bits_of_int w) (next_int64_defined lower upper sum e) ∙ hi)))
            ∙ (laws.half_open_law w (bits_in half lower) (bits_after half upper) x lo_below hi_below
                  x_below (ends_differ half lower upper hl hu le part e)
                ∙ in_bits-between half lower upper x hl hu le part hx e)
      ]
