-- ===== src/Region.antt =====
-- include/clam/HeapAbstraction.hh: regions of memory and their types; and the order in which
-- lib/Clam/CfgBuilderLit.cc keeps them.
use clam.Prelude.{
  ℕ, ◌≡◌, ◌↔◌, Bool, true, false, ◌&&◌, ◌||◌, not, Option, ltb, ◌==◌, if◌then◌else◌, arith,
}

pub data RegionType : Type 0 where
  untyped_region bool_region int_region ptr_region : RegionType

-- The values of the enumeration.
unfoldable pub region_type_code : RegionType → ℕ
region_type_code untyped_region = 0
region_type_code bool_region = 1
region_type_code int_region = 2
region_type_code ptr_region = 3

pub record RegionInfo : Type 0 where
  pub region_type : RegionType
  pub bitwidth : ℕ
  pub is_sequence : Bool
  pub is_heap : Bool
  pub is_cyclic : Bool

unfoldable pub same_region_type : RegionType → RegionType → Bool
unfolding region_type_code
same_region_type t u = region_type_code t == region_type_code u

unfoldable pub is_untyped : RegionInfo → Bool
unfolding same_region_type
is_untyped r = same_region_type r.region_type untyped_region

unfoldable pub has_same_type : RegionInfo → RegionInfo → Bool
unfolding same_region_type
has_same_type r o = same_region_type r.region_type o.region_type && r.bitwidth == o.bitwidth

-- operator<
unfoldable pub info_less : RegionInfo → RegionInfo → Bool
unfolding same_region_type region_type_code
info_less r o =
    if same_region_type r.region_type o.region_type
    then ltb r.bitwidth o.bitwidth
    else ltb (region_type_code r.region_type) (region_type_code o.region_type)

unfoldable pub has_compatible_type : RegionInfo → RegionInfo → Bool
unfolding is_untyped has_same_type
has_compatible_type r o = if is_untyped r || is_untyped o then true else has_same_type r o

unfoldable pub contain_scalar : RegionInfo → Bool
unfolding same_region_type
contain_scalar r =
    same_region_type r.region_type bool_region || same_region_type r.region_type int_region

unfoldable pub contain_pointer : RegionInfo → Bool
unfolding same_region_type
contain_pointer r = same_region_type r.region_type ptr_region

-- A singleton is the address of a global, if the region holds just that.
pub record Region : Type 0 where
  pub id : ℕ
  pub info : RegionInfo
  pub singleton : Option ℕ

-- Region::operator< and operator==
unfoldable pub region_less : Region → Region → Bool
region_less r o = ltb r.id o.id

unfoldable pub region_eq : Region → Region → Bool
region_eq r o = r.id == o.id

unfoldable pub is_unknown : Region → Bool
unfolding is_untyped
is_unknown r = is_untyped r.info

-- RegionCompare: by id, then by type.
unfoldable pub region_compare : Region → Region → Bool
unfolding info_less
region_compare r o = if r.id == o.id then info_less r.info o.info else ltb r.id o.id

-- One key of the map: neither is before the other.
unfoldable pub same_key : Region → Region → Bool
unfolding region_compare
same_key r o = not (region_compare r o) && not (region_compare o r)

-- RegionCompare is a strict order, as std::map asks: no region is before itself, the order is
-- transitive, and two regions share a key exactly when they have the same id and the same type.
pub region_compare_order :
    (r s t : Region)
    → (region_compare r r ≡ false)
      × (region_compare r s ≡ true → region_compare s t ≡ true → region_compare r t ≡ true)
      × ((same_key r s ≡ true) ↔ ((r.id ≡ s.id) × (has_same_type r.info s.info ≡ true)))
unfolding region_compare same_key has_same_type
region_compare_order r s t = (ground arith, λ h k. ground arith, ground arith)
