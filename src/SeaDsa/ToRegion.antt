-- ===== src/SeaDsa/ToRegion.antt =====
-- lib/Clam/SeaDsaToRegion.cc: SeaDsaToRegion, which turns a cell into the type of its region.
use clam.Prelude.{ℕ, Bool, false, ◌&&◌, ◌||◌, not, Option, none, some, if◌then◌else◌}
use clam.Region.{RegionType, untyped_region, bool_region, int_region, ptr_region, RegionInfo}
use clam.SeaDsa.Graph.{Graph, Cell}
use clam.SeaDsa.Cells.{
  TypeTest, integer_test, bool_test, pointer_test, is_typed_cell, is_typed_array_cell,
  is_disjoint_cell,
}
use clam.SeaDsa.Cyclic.{is_cyclic}

-- The options of the conversion.
pub record Disambiguate : Type 0 where
  pub unknown : Bool
  pub ptr_cast : Bool
  pub external : Bool

-- `fuel` is that of IsCyclic; the result is none where it runs out.
module _ (g : Graph) (fuel : ℕ) where
  -- The region info of a node, with its flags.
  unfoldable pub region_info : ℕ → RegionType → ℕ → Option RegionInfo
  unfolding is_cyclic
  region_info n t w = elim (is_cyclic g fuel n) [
    | none ↦ none
    | some r ↦ some (record {
      region_type = t;
      bitwidth = w;
      is_sequence = g.is_array n;
      is_heap = g.is_heap n;
      is_cyclic = r.found;
    })
  ]

  unfoldable pub default_region_info : ℕ → Option RegionInfo
  unfolding region_info
  default_region_info n = region_info n untyped_region 0

  -- The typed cell or the typed array cell: the second test goes on with the state of the first.
  unfoldable pub is_typed_or_array : ℕ → ℕ → TypeTest → Bool × ℕ
  unfolding is_typed_cell is_typed_array_cell
  is_typed_or_array n o is_typed =
      let r = is_typed_cell g n o is_typed 0 in
      if r.0 then r else is_typed_array_cell g n o is_typed r.1

  -- The first test that the types of the cell pass.
  unfoldable pub typed_region : ℕ → ℕ → Option (RegionType × ℕ)
  unfolding is_typed_or_array integer_test bool_test pointer_test
  typed_region n o =
      let int_pred = is_typed_or_array n o integer_test in
      let bool_pred = is_typed_or_array n o bool_test in
      let ptr_pred = is_typed_cell g n o pointer_test 0 in
      if int_pred.0
      then some (int_region, int_pred.1)
      else if bool_pred.0
      then some (bool_region, 1)
      else if ptr_pred.0
      then some (ptr_region, 32)
      else none

  -- Why a node is not looked at further.
  unfoldable pub is_ruled_out : ℕ → Disambiguate → Bool
  is_ruled_out n opts =
      (not (g.is_modified n) && not (g.is_read n))
      || g.is_offset_collapsed n
      || ((g.is_int_to_ptr n || g.is_ptr_to_int n) && not opts.ptr_cast)
      || (g.is_external n && not opts.external)

  unfoldable pub sea_dsa_to_region : Cell → Disambiguate → Option RegionInfo
  unfolding region_info default_region_info typed_region is_ruled_out is_disjoint_cell
  sea_dsa_to_region c opts = elim c.node [
    | none ↦ some (record {
      region_type = untyped_region;
      bitwidth = 0;
      is_sequence = false;
      is_heap = false;
      is_cyclic = false;
    })
    | some n ↦
        if is_ruled_out n opts then default_region_info n else elim (typed_region n c.offset) [
          | none ↦ default_region_info n
          | some tw ↦
              if is_disjoint_cell g n c.offset
              then region_info n tw.0 tw.1
              else default_region_info n
        ]
  ]
