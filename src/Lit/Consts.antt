-- ===== src/Lit/Consts.antt =====
-- lib/Clam/CfgBuilderUtils.cc: integer constants as numbers of Crab.
use clam.Prelude.{
  ℕ, ◌-◌, ◌*◌, ◌^◌, ◌<◌, ◌≡◌, refl, ap, ◌∙◌, Bool, true, false, ◌&&◌, ◌||◌, not, ltb, leb, ◌==◌,
  if◌then◌else◌, arith, Bool-cases, inl, inr,
}
use clam.Prelude.Int.{ℤ, pos, negsuc, ltb_ℤ, ◌-ℤ◌}
use clam.Llvm.{signed}
use clam.Lit.Values.{Params}

-- APInt at width w: a value is its bits, and `from_int64` is APInt(w, n, true).
pub record ApInt (w : ℕ) : Type 0 where
  pub is_negative : ℕ → Bool
  pub abs : ℕ → ℕ
  pub sgt : ℕ → ℕ → Bool
  pub slt : ℕ → ℕ → Bool
  pub from_int64 : ℤ → ℕ

abbrev pub half_of : ℕ → ℕ
half_of w = 2 ^ (w - 1)

abbrev pub int64_max : ℤ
int64_max = pos (2 ^ 63 - 1)

abbrev pub int64_min : ℤ
int64_min = negsuc (2 ^ 63 - 1)

-- The documented behaviour, on bits below 2 ^ w.
pub record ApIntLaws {w : ℕ} (m : ApInt w) : Type 0 where
  pub is_negative_law : (a : ℕ) → m.is_negative a ≡ not (ltb a (half_of w))
  pub abs_law : (a : ℕ) → m.is_negative a ≡ true → m.abs a ≡ 2 * half_of w - a
  pub sgt_law : (a b : ℕ) → m.sgt a b ≡ ltb_ℤ (signed (half_of w) b) (signed (half_of w) a)
  pub slt_law : (a b : ℕ) → m.slt a b ≡ ltb_ℤ (signed (half_of w) a) (signed (half_of w) b)
  pub max_law : 64 < w → signed (half_of w) (m.from_int64 int64_max) ≡ int64_max
  pub min_law : 64 < w → signed (half_of w) (m.from_int64 int64_min) ≡ int64_min

module _ {w : ℕ} (m : ApInt w) where
  unfoldable pub is_signed_big_num : ℕ → Bool
  is_signed_big_num v =
      if leb w 64
      then false
      else (m.sgt v (m.from_int64 int64_max) || m.slt v (m.from_int64 int64_min))

  -- The number and isTooBig.
  unfoldable pub to_z_number : ℕ → Params → Bool → ℤ × Bool
  unfolding is_signed_big_num
  to_z_number v params as_signed =
      let too_big = if params.enable_bignums then false else is_signed_big_num v in
      let magnitude = if m.is_negative v then m.abs v else v in
      if not as_signed
      then (pos v, too_big)
      else (if m.is_negative v then pos 0 -ℤ pos magnitude else pos magnitude, too_big)

  unfoldable pub get_int_constant : ℕ → Params → Bool → ℤ × Bool
  unfolding to_z_number
  get_int_constant v params as_signed =
      if w == 1 then (pos v, false) else to_z_number v params as_signed

-- The integers that no int64_t holds.
abbrev pub out_of_int64 : ℤ → Bool
out_of_int64 z = ltb_ℤ int64_max z || ltb_ℤ z int64_min

-- a negative number from its magnitude
signed_negative :
    (half v : ℕ) → ltb v half ≡ false → v < 2 * half → pos 0 -ℤ pos (2 * half - v) ≡ signed half v
unfolding ◌-ℤ◌
signed_negative half v h r = ground arith

signed_positive : (half v : ℕ) → ltb v half ≡ true → pos v ≡ signed half v
signed_positive half v h = rw h refl

module _ {w : ℕ} (m : ApInt w) (laws : ApIntLaws m) where
  is_signed_big_num_lem :
      (v : ℕ) → is_signed_big_num m v ≡ (ltb 64 w && out_of_int64 (signed (half_of w) v))
  unfolding is_signed_big_num
  is_signed_big_num_lem v = elim (Bool-cases (leb w 64)) [
    | inl e ↦ let small : ltb 64 w ≡ false = ground arith in rw (e, small) refl
    | inr e ↦
        let wide : ltb 64 w ≡ true = ground arith in
        let wide' : 64 < w = ground arith in
        rw (e, wide)
          (rw
            (
              laws.sgt_law v (m.from_int64 int64_max),
              laws.slt_law v (m.from_int64 int64_min),
              laws.max_law wide',
              laws.min_law wide',
            )
            refl)
  ]

  to_z_number-value :
      (v : ℕ) (params : Params) (as_signed : Bool)
      → v < 2 * half_of w
      → (to_z_number m v params as_signed).0 ≡ (if as_signed then signed (half_of w) v else pos v)
  unfolding to_z_number
  to_z_number-value v params false r = refl
  to_z_number-value v params true r = elim (Bool-cases (m.is_negative v)) [
    | inl e ↦ rw e (
        ap (λ n. pos 0 -ℤ pos n) (laws.abs_law v e)
        ∙ signed_negative (half_of w) v (ground (arith, laws.is_negative_law v)) r)
    | inr e ↦ rw e (signed_positive (half_of w) v (ground (arith, laws.is_negative_law v)))
  ]

  to_z_number-too_big :
      (v : ℕ) (params : Params) (as_signed : Bool)
      → (to_z_number m v params as_signed).1
        ≡ (if params.enable_bignums then false else is_signed_big_num m v)
  unfolding to_z_number
  to_z_number-too_big v params false = refl
  to_z_number-too_big v params true = refl

  -- A constant of two bits or more is read as the integer that its bits stand for, signed or
  -- unsigned as asked. It is too big exactly if bignums are off, it has more than 64 bits and its
  -- signed value does not fit 64 bits.
  pub get_int_constant_lem :
      (v : ℕ) (params : Params) (as_signed : Bool)
      → 1 < w
      → v < 2 * half_of w
      → ((get_int_constant m v params as_signed).0
          ≡ (if as_signed then signed (half_of w) v else pos v))
        × ((get_int_constant m v params as_signed).1
            ≡ (not params.enable_bignums && (ltb 64 w && out_of_int64 (signed (half_of w) v))))
  unfolding get_int_constant
  get_int_constant_lem v params as_signed h r =
      let wide : (w == 1) ≡ false = ground arith in
      (
        rw wide (to_z_number-value v params as_signed r),
        rw wide (
            to_z_number-too_big v params as_signed
            ∙ rw (is_signed_big_num_lem v) (unless params.enable_bignums _)),
      )
    where
      unless : (b c : Bool) → (if b then false else c) ≡ (not b && c)
      unless true c = refl
      unless false c = refl
