-- ===== src/Query/Laws.antt =====
-- The ranges that are answered contain the value, and the cache keeps containing it.
use clam.Prelude.{
  arith, ℕ, ◌*◌, ◌^◌, ◌<◌, ◌≡◌, ◌∙◌, true, false, ◌&&◌, Option, none, some, Bool-cases, inl, inr,
}
use clam.Prelude.Int.{ℤ, ◌≤ℤ◌}
use clam.Llvm.{signed}
use clam.Query.{
  Ranges, RangesLaws, Domain, fits_int64, same_place, find_range, finite_range, interval_range,
  ValueCache,
}
use clam.Query.Intervals.{InWidth, NotAll, SumFits, IsDefined, between, get_constant_range-between}

module _ (r : Ranges) (laws : RangesLaws r) (d : Domain) (w half : ℕ)
    (size : 2 ^ w ≡ 2 * half) where
  open r use {Range, full, contains}
  open d use {Inv}

  -- The interval is one of signed numbers of the width, not the whole of it, and has the value; its
  -- upper end is not the largest int64_t, unless the two ends are the same.
  abbrev pub Holds : ℕ → Option ℤ × Option ℤ → Type 0
  Holds x (some lower, some upper) =
      InWidth half lower
      × InWidth half upper
      × (lower ≤ℤ upper)
      × NotAll half lower upper
      × SumFits lower upper
      × (between lower upper (signed half x) ≡ true)
  Holds x (lower, upper) = Unit

  -- An invariant that describes the state in which the value has its bits is not bottom.
  abbrev pub Describes : ℕ → Option ℕ → Option Inv → Type 0
  Describes x var none = Unit
  Describes x none (some inv) = d.is_bottom inv ≡ false
  Describes x (some v) (some inv) = (d.is_bottom inv ≡ false) × Holds x (d.interval inv v)

  abbrev pub Contains : Option Range → ℕ → Type 0
  Contains none x = Unit
  Contains (some range) x = contains range x ≡ true

  fitting :
      (lower upper : ℤ)
      → fits_int64 lower && fits_int64 upper ≡ true
      → SumFits lower upper
      → IsDefined lower upper
  fitting lower upper e sum = (ground (arith, e), ground (arith, e), sum)

  finite_range-Contains :
      (ends : Option ℤ × Option ℤ) (x : ℕ)
      → x < 2 * half
      → Holds x ends
      → Contains (finite_range r d w ends) x
  unfolding finite_range
  finite_range-Contains (some lower, some upper) x hx (hl, hu, le, part, sum, inside) =
      elim (Bool-cases (fits_int64 lower && fits_int64 upper)) [
        | inl e ↦ rw e (
            get_constant_range-between r laws w half lower upper x size hl hu le part
              (fitting lower upper e sum) hx
            ∙ inside)
        | inr e ↦ rw e tt
      ]
  finite_range-Contains (some lower, none) x hx h = tt
  finite_range-Contains (none, some upper) x hx h = tt
  finite_range-Contains (none, none) x hx h = tt

  pub interval_range-Contains :
      (var : Option ℕ) (inv : Inv) (x : ℕ)
      → x < 2 * half
      → Describes x var (some inv)
      → Contains (interval_range r d w var inv) x
  unfolding interval_range
  interval_range-Contains none inv x hx h = tt
  interval_range-Contains (some v) inv x hx (not_bottom, inside) =
      finite_range-Contains (d.interval inv v) x hx inside

  module _ (bits : ℕ × ℕ → ℕ) (below : (k : ℕ × ℕ) → bits k < 2 * half) where
    abbrev pub CacheHolds : ValueCache r d → Type 0
    CacheHolds cache =
        (k : ℕ × ℕ) (range : Range)
        → find_range same_place k cache ≡ some range
        → contains range (bits k) ≡ true

    -- an answer contains the value, and the cache with it keeps doing so
    abbrev Answers : ℕ × ℕ → Range × ValueCache r d → Type 0
    Answers place made = (contains made.0 (bits place) ≡ true) × CacheHolds made.1
