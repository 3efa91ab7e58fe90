-- ===== src/Query/Insts.antt =====
-- The ranges of instructions contain their values, and what was computed is kept in the cache.
use clam.Prelude.{ℕ, ◌*◌, ◌^◌, ◌<◌, ◌≡◌, Bool, true, false, List, [], ◌∷◌, Option, none, some, ◌==◌}
use clam.Lit.Values.{Ty}
use clam.Lit.Literal.{Checked, ok}
use clam.Query.{
  Ranges, RangesLaws, Domain, get_bit_width, matches, find_range, InstCache, walk, range_inst,
}
use clam.Query.Laws.{Describes, Contains}

module _ (r : Ranges) (laws : RangesLaws r) (d : Domain) (w half : ℕ) (size : 2 ^ w ≡ 2 * half)
    (bits : ℕ → ℕ) (below : (i : ℕ) → bits i < 2 * half) where
  open r use {Range, full, contains}
  open d use {Inv, Statement, transfer, defs}

  abbrev pub find_inst : ℕ → InstCache r d → Option Range
  find_inst i cache = find_range (λ a b. a == b) i cache

  abbrev Described : Bool → ℕ → Option ℕ → Inv → Type 0
  Described false x var inv = Unit
  Described true x var inv = Describes r laws d w half size x var (some inv)

  -- After each statement of the block that defines the instruction, the invariant describes the state.
  abbrev pub DescribesAll : ℕ → Option ℕ → List Statement → Inv → Type 0
  DescribesAll i var [] inv = Unit
  DescribesAll i var (s ∷ ss) inv =
      Described (matches i (defs s)) (bits i) var (transfer s inv)
      × DescribesAll i var ss (transfer s inv)

  -- the same of the block and the invariant at its entry, where there are such
  abbrev pub DescribesBlock : ℕ → Option ℕ → Option (List Statement) → Option Inv → Type 0
  DescribesBlock i var (some ss) (some inv) = DescribesAll i var ss inv
  DescribesBlock i var block inv = Unit

  abbrev pub InstsHold : InstCache r d → Type 0
  InstsHold cache =
      (k : ℕ) (range : Range) → find_inst k cache ≡ some range → contains range (bits k) ≡ true

  abbrev Holding : ℕ → Option Range → Type 0
  Holding i o = Contains r laws d w half size o (bits i)

  -- what the statements of the block say, where they are asked
  abbrev pub walked : ℕ → Option ℕ → Option (List Statement) → Option Inv → Option Range
  walked i var (some ss) (some inv) = walk r d w i var ss inv
  walked i var block inv = none

  -- the range that is found in the cache, or else the one that the statements say
  abbrev pub known_range :
      ℕ → Option ℕ → Option (List Statement) → Option Inv → InstCache r d → Option Range
  known_range i var block inv cache = elim (find_inst i cache) [
    | some range ↦ some range
    | none ↦ walked i var block inv
  ]

  abbrev pub or_full : Option Range → Range
  or_full none = full w
  or_full (some range) = range

  -- An answer is the known range, or else the full one; the cache has the known range afterwards, and
  -- what it had of other instructions.
  abbrev pub IsAnswer : ℕ → Option Range → InstCache r d → Range × InstCache r d → Type 0
  IsAnswer i o cache made =
      (made.0 ≡ or_full o)
      × (find_inst i made.1 ≡ o)
      × ((k : ℕ) → (k == i) ≡ false → find_inst k made.1 ≡ find_inst k cache)

  module _ (pointer_size : ℕ) (t : Ty) (width : get_bit_width pointer_size t ≡ ok w) where
    abbrev ask :
        ℕ
        → Option ℕ
        → Option (List Statement)
        → Option Inv
        → InstCache r d
        → Checked (Range × InstCache r d)
    ask i var block inv cache = range_inst r d pointer_size t i var block inv cache
