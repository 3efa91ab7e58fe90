-- ===== src/SeaDsa/CellsLaws.antt =====
-- What the tests of the types, the sizes and the overlaps of cells mean.
use clam.Prelude.{
  ℕ, ◌<◌, ◌≤◌, ◌≡◌, ◌↔◌, ◌⊎◌, inl, inr, ap, true, false, List, [], ◌∷◌, some, ◌==◌, leb, min, arith,
  Bool-cases, Option-cases, All, ==_iff,
}
use clam.Lit.Values.{is_bool, is_integer, is_pointer_type, integer_bit_width}
use clam.SeaDsa.Graph.{Accessed, Graph}
use clam.SeaDsa.Cells.{
  integer_test, bool_test, pointer_test, intersect_interval, cell_interval, all_typed, size_of,
  overlaps, is_overlapping_cell, is_disjoint_cell,
}

-- x is in [i.0, i.1)
abbrev pub InInterval : ℕ → ℕ × ℕ → Type 0
InInterval x i = (i.0 ≤ x) × (x < i.1)

-- Two intervals that are not empty intersect exactly if they have a number in common.
pub intersect_interval_lem :
    (a b : ℕ × ℕ)
    → a.0 < a.1
    → b.0 < b.1
    → (intersect_interval a b ≡ true) ↔ ((x : ℕ) × InInterval x a × InInterval x b)
unfolding intersect_interval
intersect_interval_lem a b ha hb = (
  λ h. elim (Bool-cases (leb a.0 b.0)) [
    | inl e ↦ (b.0, ground arith, ground arith)
    | inr e ↦ (a.0, ground arith, ground arith)
  ],
  λ (x, p, q). ground arith,
)

intersect_interval-apart :
    (a b : ℕ × ℕ) (x : ℕ) → intersect_interval a b ≡ false → InInterval x a → InInterval x b → ⊥
unfolding intersect_interval
intersect_interval-apart a b x h p q = ground arith

module _ (g : Graph) where
  -- the types are integers of the width or wider
  abbrev pub IntsFrom : ℕ → List ℕ → Type 0
  IntsFrom w = All (λ t. (is_integer (g.type_of t) ≡ true) × (w ≤ integer_bit_width (g.type_of t)))

  -- LLVM's integer types have at least one bit
  abbrev pub HasBits : Type 0
  HasBits = (t : ℕ) → is_integer (g.type_of t) ≡ true → 0 < integer_bit_width (g.type_of t)

  pub all_typed-ints :
      (ts : List ℕ) (w v : ℕ)
      → HasBits
      → all_typed g integer_test ts w ≡ (true, v)
      → IntsFrom v ts × (0 < w → v ≤ w)
  unfolding all_typed integer_test
  all_typed-ints [] w v bits h =
      let same : w ≡ v = ap (λ r. r.1) h in (tt, λ k. omega (arith, same))
  all_typed-ints (t ∷ ts) w v bits h = elim (Bool-cases (is_integer (g.type_of t))) [
    | inr e ↦ let no : false ≡ true = ap (λ r. r.0) (rw e at h) in absurd (cc no)
    | inl e ↦
        let width = integer_bit_width (g.type_of t) in
        let positive : 0 < width = bits t e in
        elim (Bool-cases (w == 0)) [
          | inl z ↦
              let (rest, le) = all_typed-ints ts width v bits (rw (e, z) at h) in
              (((e, le positive), rest), λ k. absurd (ground arith))
          | inr z ↦
              let (rest, le) = all_typed-ints ts (min w width) v bits (rw (e, z) at h) in
              let some_bits : 0 < min w width = ground arith in
              let below = le some_bits in
              (((e, omega (arith, below)), rest), λ k. omega (arith, below))
        ]
  ]

  pub all_typed-bools :
      (ts : List ℕ) (w : ℕ)
      → (all_typed g bool_test ts w).0 ≡ true
      → All (λ t. is_bool (g.type_of t) ≡ true) ts
  unfolding all_typed bool_test
  all_typed-bools [] w h = tt
  all_typed-bools (t ∷ ts) w h = elim (Bool-cases (is_bool (g.type_of t))) [
    | inr e ↦ absurd (cc (rw e at h))
    | inl e ↦ (e, all_typed-bools ts w (rw e at h))
  ]

  pub all_typed-pointers :
      (ts : List ℕ) (w : ℕ)
      → (all_typed g pointer_test ts w).0 ≡ true
      → All (λ t. is_pointer_type (g.type_of t) ≡ true) ts
  unfolding all_typed pointer_test
  all_typed-pointers [] w h = tt
  all_typed-pointers (t ∷ ts) w h = elim (Bool-cases (is_pointer_type (g.type_of t))) [
    | inr e ↦ absurd (cc (rw e at h))
    | inl e ↦ (e, all_typed-pointers ts w (rw e at h))
  ]

  -- a cell at another offset has no byte in common with [o1, o1 + s1)
  abbrev pub IsApart : ℕ → ℕ → Accessed → Type 0
  IsApart o1 s1 c =
      (o1 ≡ c.offset)
      ⊎ ((s2 : ℕ) × (size_of g c.types ≡ some s2)
          × ((x : ℕ)
              → InInterval x (cell_interval o1 s1)
              → InInterval x (cell_interval c.offset s2)
              → ⊥))

  -- the size of every cell is known
  abbrev pub IsSized : List Accessed → Type 0
  IsSized = All (λ c. (s : ℕ) × (size_of g c.types ≡ some s))

  overlaps-IsApart :
      (o1 s1 : ℕ) (cs : List Accessed)
      → IsSized cs
      → overlaps g o1 s1 cs ≡ false
      → All (IsApart o1 s1) cs
  unfolding overlaps
  overlaps-IsApart o1 s1 [] sized h = tt
  overlaps-IsApart o1 s1 (c ∷ cs) ((s2, e), sized) h = elim (Bool-cases (o1 == c.offset)) [
    | inl k ↦ (inl ((==_iff o1 c.offset).0 k), overlaps-IsApart o1 s1 cs sized (rw k at h))
    | inr k ↦
        let i = intersect_interval (cell_interval o1 s1) (cell_interval c.offset s2) in
        elim (Bool-cases i) [
          | inl j ↦ absurd (cc (rw (k, e, j) at h))
          | inr j ↦ (
            inr (s2, e, λ x p q. intersect_interval-apart _ _ x j p q),
            overlaps-IsApart o1 s1 cs sized (rw (k, e, j) at h),
          )
        ]
  ]

  -- If a cell that was accessed is judged disjoint, and the sizes of all cells of its node are
  -- known, then its own size is known, its offset is inside the node, and it has no byte in common
  -- with a cell at another offset.
  pub is_disjoint_cell-IsApart :
      (n o : ℕ)
      → g.has_accessed_type n o ≡ true
      → IsSized (g.types n)
      → is_disjoint_cell g n o ≡ true
      → (s1 : ℕ) × (size_of g (g.accessed_type n o) ≡ some s1)
        × (o < g.size n)
        × All (IsApart o s1) (g.types n)
  unfolding is_disjoint_cell is_overlapping_cell
  is_disjoint_cell-IsApart n o acc sized h = elim (Option-cases (size_of g (g.accessed_type n o))) [
    | inl e ↦ absurd (cc (rw (acc, e) at h))
    | inr (s1, e) ↦ elim (Bool-cases (overlaps g o s1 (g.types n))) [
      | inl k ↦ absurd (cc (rw (acc, e, k) at h))
      | inr k ↦ elim (Bool-cases (leb (g.size n) o)) [
        | inl j ↦ absurd (cc (rw (acc, e, k, j) at h))
        | inr j ↦ (s1, e, ground arith, overlaps-IsApart o s1 (g.types n) sized k)
      ]
    ]
  ]
