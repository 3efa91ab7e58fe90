-- ===== src/Tests/Query.antt =====
-- Queries at concrete inputs.
use clam.Prelude.{
  ℕ, ◌≡◌, refl, Bool, true, false, ◌&&◌, ◌||◌, [], ◌∷◌, some, ◌==◌, ltb, leb, if◌then◌else◌, arith,
}
use clam.Prelude.Int.{pos, negsuc}
use clam.Query.{Ranges, RangesLaws, Domain, get_constant_range, fits_int64}
use clam.Query.Intervals.{get_constant_range-between}

-- A range is its test.
abbrev tests : Ranges
tests = record {
  Range = ℕ → Bool;
  full = λ w x. true;
  empty = λ w x. false;
  single = λ w a x. x == a;
  half_open = λ w a b x. if ltb a b then leb a x && ltb x b else leb a x || ltb x b;
  contains = λ range. range;
}

tests_laws : RangesLaws tests
tests_laws = record {
  full_law = λ w x h. refl;
  single_law = λ w a x h k. refl;
  half_open_law = λ w a b x h k l ne. refl;
}

-- The invariant is that the variable is from -60 to 5.
abbrev one_interval : Domain
one_interval = record {
  Inv = Unit;
  Statement = Unit;
  is_bottom = λ inv. false;
  interval = λ inv x. (some (negsuc 59), some (pos 5));
  transfer = λ s inv. inv;
  defs = λ s. some 4 ∷ [];
}

get_constant_range-between_example : get_constant_range tests (negsuc 59) (pos 5) 8 200 ≡ true
unfolding fits_int64
get_constant_range-between_example =
    get_constant_range-between tests tests_laws 8 128 (negsuc 59) (pos 5) 200 refl (omega arith)
      (omega arith) (omega arith) (omega arith) (refl, refl, refl) (omega arith)

abbrev byte_200 : ℕ × ℕ → ℕ
byte_200 k = 200
