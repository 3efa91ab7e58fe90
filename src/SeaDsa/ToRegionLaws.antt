-- ===== src/SeaDsa/ToRegionLaws.antt =====
-- What a region of SeaDsaToRegion says about the cell it was made from.
use clam.Prelude.{
  ℕ, ◌<◌, ◌≡◌, ◌↔◌, ◌⊎◌, inl, inr, refl, ap, subst, ◌∙◌, Bool, true, false, not, ◌||◌, ◌==◌, List,
  none, some, Bool-cases, Option-cases, All, some_inv,
}
use clam.Region.{RegionType, untyped_region, bool_region, int_region, ptr_region, RegionInfo}
use clam.Lit.Values.{is_bool, is_pointer_type}
use clam.SeaDsa.Graph.{Graph, Cell}
use clam.SeaDsa.Cells.{
  TypeTest, integer_test, bool_test, pointer_test, all_typed, is_typed_cell, is_typed_array_cell,
  is_disjoint_cell,
}
use clam.SeaDsa.Cyclic.{Search, is_cyclic}
use clam.SeaDsa.ToRegion.{
  Disambiguate, region_info, default_region_info, is_typed_or_array, typed_region, is_ruled_out,
  sea_dsa_to_region,
}
use clam.SeaDsa.Reach.{Leads, IsBounded}
use clam.SeaDsa.CyclicLaws.{is_cyclic-Leads}
use clam.SeaDsa.CellsLaws.{IntsFrom, HasBits, all_typed-ints, all_typed-bools, all_typed-pointers}

-- The types fit a region of the type and width: integers that are that wide or wider, Booleans
-- with one bit, or pointers with 32.
abbrev pub TypedAs : Graph → RegionType → ℕ → List ℕ → Type 0
TypedAs g untyped_region w ts = ⊥
TypedAs g int_region w ts = IntsFrom g w ts
TypedAs g bool_region w ts = (w ≡ 1) × All (λ t. is_bool (g.type_of t) ≡ true) ts
TypedAs g ptr_region w ts = (w ≡ 32) × All (λ t. is_pointer_type (g.type_of t) ≡ true) ts

is_true_pair : (r : Bool × ℕ) → r.0 ≡ true → r ≡ (true, r.1)
is_true_pair r h = ap (λ b. (b, r.1)) h

module _ (g : Graph) (fuel : ℕ) (n o : ℕ) where
  -- the cell was accessed, and its types pass the test from some state
  abbrev Passes : TypeTest → Bool × ℕ → Type 0
  Passes test r =
      (g.has_accessed_type n o ≡ true) × ((w : ℕ) × (all_typed g test (g.accessed_type n o) w ≡ r))

  cell-Passes :
      (test : TypeTest) (w : ℕ) (r : Bool × ℕ)
      → is_typed_cell g n o test w ≡ r
      → r.0 ≡ true
      → Passes test r
  unfolding is_typed_cell
  cell-Passes test w r e h = elim (Bool-cases (g.has_accessed_type n o)) [
    | inl k ↦ (k, (w, rw k at e))
    | inr k ↦ let no : false ≡ r.0 = ap (λ q. q.0) (rw k at e) in absurd (cc (no, h))
  ]

  array-Passes :
      (test : TypeTest) (w : ℕ) (r : Bool × ℕ)
      → is_typed_array_cell g n o test w ≡ r
      → r.0 ≡ true
      → Passes test r
  unfolding is_typed_array_cell
  array-Passes test w r e h = elim (Bool-cases (not (g.is_array n) || not (o == 0))) [
    | inl j ↦ let no : false ≡ r.0 = ap (λ q. q.0) (rw j at e) in absurd (cc (no, h))
    | inr j ↦ elim (Bool-cases (g.has_accessed_type n o)) [
      | inl k ↦ (k, (w, rw (j, k) at e))
      | inr k ↦ let no : false ≡ r.0 = ap (λ q. q.0) (rw (j, k) at e) in absurd (cc (no, h))
    ]
  ]

  either-Passes :
      (test : TypeTest)
      → (is_typed_or_array g fuel n o test).0 ≡ true
      → Passes test (is_typed_or_array g fuel n o test)
  unfolding is_typed_or_array
  either-Passes test h =
      let first = is_typed_cell g n o test 0 in
      elim (Bool-cases first.0) [
        | inl e ↦ rw e (cell-Passes test 0 first refl e)
        | inr e ↦ rw e (array-Passes test first.1 _ refl (rw e at h))
      ]

  typed_region-TypedAs :
      (t : RegionType) (w : ℕ)
      → HasBits g
      → typed_region g fuel n o ≡ some (t, w)
      → (g.has_accessed_type n o ≡ true) × TypedAs g t w (g.accessed_type n o)
  unfolding typed_region
  typed_region-TypedAs t w bits h =
      let ints = is_typed_or_array g fuel n o integer_test in
      let bools = is_typed_or_array g fuel n o bool_test in
      let pointers = is_typed_cell g n o pointer_test 0 in
      let Goal : RegionType × ℕ → Type 0 =
        λ p. (g.has_accessed_type n o ≡ true) × TypedAs g p.0 p.1 (g.accessed_type n o) in
      elim (Bool-cases ints.0) [
        | inl e ↦
            let (acc, (w0, same)) = either-Passes integer_test e in
            let found : some (int_region, ints.1) ≡ some (t, w) = rw e at h in
            let typed =
              all_typed-ints g (g.accessed_type n o) w0 ints.1 bits (same ∙ is_true_pair ints e) in
            subst Goal (some_inv found) (acc, typed.0)
        | inr e ↦ elim (Bool-cases bools.0) [
          | inl k ↦
              let (acc, (w0, same)) = either-Passes bool_test k in
              let found : some (bool_region, 1) ≡ some (t, w) = rw (e, k) at h in
              let typed = all_typed-bools g (g.accessed_type n o) w0 (ap (λ r. r.0) same ∙ k) in
              subst Goal (some_inv found) (acc, (refl, typed))
          | inr k ↦ elim (Bool-cases pointers.0) [
            | inl j ↦
                let (acc, (w0, same)) = cell-Passes pointer_test 0 pointers refl j in
                let found : some (ptr_region, 32) ≡ some (t, w) = rw (e, k, j) at h in
                let typed =
                  all_typed-pointers g (g.accessed_type n o) w0 (ap (λ r. r.0) same ∙ j) in
                subst Goal (some_inv found) (acc, (refl, typed))
            | inr j ↦ let nothing : none ≡ some (t, w) = rw (e, k, j) at h in absurd (cc nothing)
          ]
        ]
      ]

-- the flags of the node
abbrev info_of : Graph → ℕ → RegionType → ℕ → Bool → RegionInfo
info_of g n t w cyclic = record {
  region_type = t;
  bitwidth = w;
  is_sequence = g.is_array n;
  is_heap = g.is_heap n;
  is_cyclic = cyclic;
}

region_info-found :
    (g : Graph) (fuel n w : ℕ) (t : RegionType) (r : Search)
    → is_cyclic g fuel n ≡ some r
    → region_info g fuel n t w ≡ some (info_of g n t w r.found)
unfolding region_info
region_info-found g fuel n w t r h = rw (h, region_info) refl

-- The region is of no type; or the node may be looked at, the cell was accessed, it is disjoint
-- from the others, and its types fit the region.
abbrev pub Sound : Graph → ℕ → ℕ → Disambiguate → RegionInfo → Type 0
Sound g n o opts info =
    (info.region_type ≡ untyped_region)
    ⊎ ((is_ruled_out g 0 n opts ≡ false)
        × (g.has_accessed_type n o ≡ true)
        × (is_disjoint_cell g n o ≡ true)
        × TypedAs g info.region_type info.bitwidth (g.accessed_type n o))

-- Where IsCyclic has more fuel than the graph has nodes, SeaDsaToRegion gives a region for every
-- cell of a node. The region is marked cyclic exactly if the node leads back to itself. It has a
-- type only if the node may be looked at and the cell was accessed and is disjoint from the other
-- cells; and then its types are integers of the region's width or wider, Booleans, or pointers, as
-- the type of the region says.
pub sea_dsa_to_region_lem :
    (g : Graph) (bound fuel : ℕ) (opts : Disambiguate) (c : Cell) (n : ℕ)
    → IsBounded g bound
    → bound < fuel
    → HasBits g
    → c.node ≡ some n
    → (info : RegionInfo) × (sea_dsa_to_region g fuel c opts ≡ some info)
      × ((info.is_cyclic ≡ true) ↔ Leads g n n)
      × Sound g n c.offset opts info
unfolding sea_dsa_to_region default_region_info is_ruled_out
sea_dsa_to_region_lem g bound fuel opts c n links more_fuel bits at_n =
    let (r, same, iff) = is_cyclic-Leads g bound fuel n links more_fuel in
    let plain = info_of g n untyped_region 0 r.found in
    let made = region_info-found g fuel n 0 untyped_region r same in
    elim (Bool-cases (is_ruled_out g fuel n opts)) [
      | inl e ↦ (plain, rw (at_n, e) made, iff, inl refl)
      | inr e ↦ elim (Option-cases (typed_region g fuel n c.offset)) [
        | inl k ↦ (plain, rw (at_n, e, k) made, iff, inl refl)
        | inr ((t, w), k) ↦
            let (acc, typed) = typed_region-TypedAs g fuel n c.offset t w bits k in
            elim (Bool-cases (is_disjoint_cell g n c.offset)) [
              | inr j ↦ (plain, rw (at_n, e, k, j) made, iff, inl refl)
              | inl j ↦ (
                info_of g n t w r.found,
                rw (at_n, e, k, j) (region_info-found g fuel n w t r same),
                iff,
                inr (e, acc, j, typed),
              )
            ]
      ]
    ]
