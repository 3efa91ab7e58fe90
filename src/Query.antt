-- ===== src/Query.antt =====
-- lib/Clam/ClamQueryCache.cc: the ranges of values that clients ask for, from Crab's invariants.
pub mod Intervals
pub mod Laws
pub mod Insts
use clam.Prelude.{
  ℕ, ◌+◌, ◌-◌, ◌*◌, ◌%◌, ◌^◌, ◌<◌, ◌≡◌, Bool, true, false, not, ◌&&◌, ◌||◌, List, [], ◌∷◌, Option,
  none, some, ◌==◌, ltb, leb, if◌then◌else◌,
}
use clam.Prelude.Int.{ℤ, pos, negsuc, ltb_ℤ, ◌+ℤ◌}
use clam.Lit.Values.{Ty, integer, pointer, other_type}
use clam.Lit.Literal.{Checked, ok, clam_error}
use clam.Compare.Crab.{eqb_ℤ}

-- LLVM's ConstantRange: the bit patterns of a width from the first up to the second, which is
-- excluded, round the end if the first is larger.
pub record Ranges : Type 1 where
  pub Range : Type 0
  pub full : ℕ → Range
  pub empty : ℕ → Range
  pub single : ℕ → ℕ → Range
  pub half_open : ℕ → ℕ → ℕ → Range
  pub contains : Range → ℕ → Bool

-- Two equal ends are not documented to contain anything.
pub record RangesLaws (r : Ranges) : Type 0 where
  pub full_law : (w x : ℕ) → x < 2 ^ w → r.contains (r.full w) x ≡ true
  pub single_law : (w a x : ℕ) → a < 2 ^ w → x < 2 ^ w → r.contains (r.single w a) x ≡ (x == a)
  pub half_open_law :
      (w a b x : ℕ)
      → a < 2 ^ w
      → b < 2 ^ w
      → x < 2 ^ w
      → (a == b) ≡ false
      → r.contains (r.half_open w a b) x
        ≡ (if ltb a b then leb a x && ltb x b else leb a x || ltb x b)

-- Crab's abstract domain and statements, as the queries use them. A bound that is not finite is
-- `none`; the definitions of a statement are given by the values behind their names.
pub record Domain : Type 1 where
  pub Inv : Type 0
  pub Statement : Type 0
  pub is_bottom : Inv → Bool
  pub interval : Inv → ℕ → Option ℤ × Option ℤ
  pub transfer : Statement → Inv → Inv
  pub defs : Statement → List (Option ℕ)

unfoldable pub get_bit_width : ℕ → Ty → Checked ℕ
get_bit_width pointer_size (integer w) = ok w
get_bit_width pointer_size pointer = ok pointer_size
get_bit_width pointer_size other_type = clam_error

-- APInt of a signed 64-bit number.
unfoldable pub bits_of_int : ℕ → ℤ → ℕ
bits_of_int w (pos n) = n % 2 ^ w
bits_of_int w (negsuc n) = 2 ^ w - 1 - n % 2 ^ w

abbrev pub int64_max : ℕ
int64_max = 2 ^ 63 - 1

-- The sum of an int64_t and one, which wraps around as 64-bit registers do. For C++ the sum is not
-- defined at the largest number.
unfoldable pub next_int64 : ℤ → ℤ
next_int64 z = if eqb_ℤ z (pos int64_max) then negsuc int64_max else z +ℤ pos 1

-- The ends are numbers of type int64_t.
module _ (r : Ranges) where
  unfoldable pub get_constant_range : ℤ → ℤ → ℕ → r.Range
  unfolding bits_of_int next_int64
  get_constant_range lower upper w =
      if eqb_ℤ lower upper
      then r.single w (bits_of_int w lower)
      else r.half_open w (bits_of_int w lower) (bits_of_int w (next_int64 upper))

unfoldable pub fits_int64 : ℤ → Bool
fits_int64 (pos n) = ltb n (2 ^ 63)
fits_int64 (negsuc n) = ltb n (2 ^ 63)

-- The statement defines the one variable that stands for the instruction.
unfoldable pub matches : ℕ → List (Option ℕ) → Bool
matches i (some v ∷ []) = v == i
matches i _ = false

-- An entry of a cache, for an instruction or for a block and a value.
pub record Cached (K R : Type 0) : Type 0 where
  pub key : K
  pub range : R

module _ {K R : Type 0} (same : K → K → Bool) where
  unfoldable pub find_range : K → List (Cached K R) → Option R
  find_range k [] = none
  find_range k (c ∷ cs) = if same c.key k then some c.range else find_range k cs

abbrev pub same_place : ℕ × ℕ → ℕ × ℕ → Bool
same_place a b = a.0 == b.0 && a.1 == b.1

module _ (r : Ranges) (d : Domain) where
  open r use {Range, full, empty}
  open d use {Inv, Statement}

  -- The range of a finite interval whose ends fit, if it is one.
  unfoldable pub finite_range : ℕ → Option ℤ × Option ℤ → Option Range
  unfolding fits_int64 get_constant_range
  finite_range w (some lower, some upper) =
      if fits_int64 lower && fits_int64 upper
      then some (get_constant_range r lower upper w)
      else none
  finite_range w _ = none

  -- Crab's variable of the value, if there is one.
  unfoldable pub interval_range : ℕ → Option ℕ → Inv → Option Range
  unfolding finite_range
  interval_range w none inv = none
  interval_range w (some x) inv = finite_range w (d.interval inv x)

  abbrev pub ValueCache : Type 0
  ValueCache = List (Cached (ℕ × ℕ) Range)

  abbrev pub with_range : ℕ → ℕ × ℕ → Option Range → ValueCache → Range × ValueCache
  with_range w place none cache = (full w, cache)
  with_range w place (some range) cache = (range, record { key = place; range = range } ∷ cache)

  unfoldable pub range_at : ℕ → ℕ × ℕ → Option ℕ → Option Inv → ValueCache → Range × ValueCache
  unfolding interval_range
  range_at w place var none cache = (full w, cache)
  range_at w place var (some inv) cache =
      if d.is_bottom inv
      then (empty w, cache)
      else with_range w place (interval_range w var inv) cache

  -- range of a value at the entry of a block; `var` is none also where there is no builder.
  unfoldable pub range_value :
      ℕ → Ty → ℕ × ℕ → Option ℕ → Option Inv → ValueCache → Checked (Range × ValueCache)
  unfolding range_at get_bit_width find_range
  range_value pointer_size t place var inv cache = elim (find_range same_place place cache) [
    | some range ↦ ok (range, cache)
    | none ↦ elim (get_bit_width pointer_size t) [
      | clam_error ↦ clam_error
      | ok w ↦ ok (range_at w place var inv cache)
    ]
  ]

  abbrev pub InstCache : Type 0
  InstCache = List (Cached ℕ Range)

  abbrev at_match : ℕ → Option ℕ → Inv → Option Range
  at_match w var inv = if d.is_bottom inv then some (empty w) else interval_range w var inv

  -- The statements of the block, from the invariant at its entry: the first that gives a range.
  unfoldable pub walk : ℕ → ℕ → Option ℕ → List Statement → Inv → Option Range
  unfolding matches interval_range
  walk w i var [] inv = none
  walk w i var (s ∷ ss) inv =
      let next = d.transfer s inv in
      let rest = walk w i var ss next in
      if matches i (d.defs s)
      then elim (at_match w var next) [ none ↦ rest | some range ↦ some range ]
      else rest

  abbrev pub cached_range : ℕ → ℕ → Option Range → InstCache → Range × InstCache
  cached_range w i none cache = (full w, cache)
  cached_range w i (some range) cache = (range, record { key = i; range = range } ∷ cache)

  -- range of an instruction; `block` has the statements of its block where there is a graph.
  unfoldable pub range_inst :
      ℕ
      → Ty
      → ℕ
      → Option ℕ
      → Option (List Statement)
      → Option Inv
      → InstCache
      → Checked (Range × InstCache)
  unfolding walk get_bit_width find_range
  range_inst pointer_size t i var block inv cache = elim (find_range (λ a b. a == b) i cache) [
    | some range ↦ ok (range, cache)
    | none ↦ elim (get_bit_width pointer_size t) [
      | clam_error ↦ clam_error
      | ok w ↦ elim block [
        | none ↦ ok (full w, cache)
        | some ss ↦ elim inv [
          | none ↦ ok (full w, cache)
          | some e ↦ ok (cached_range w i (walk w i var ss e) cache)
        ]
      ]
    ]
  ]
