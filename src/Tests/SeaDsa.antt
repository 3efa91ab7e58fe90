-- ===== src/Tests/SeaDsa.antt =====
-- Cells at concrete inputs: a graph of two nodes that lead to each other.
use clam.Prelude.{
  ℕ, zero, suc, ◌<◌, ◌≡◌, ◌↔◌, refl, true, false, List, [], ◌∷◌, Option, none, some, ◌==◌,
  if◌then◌else◌, arith, All,
}
use clam.Lit.Values.{integer, integer_bit_width}
use clam.Region.{RegionInfo}
use clam.SeaDsa.Graph.{Graph}
use clam.SeaDsa.Cells.{intersect_interval, size_of, is_disjoint_cell}
use clam.SeaDsa.Cyclic.{Search, is_cyclic}
use clam.SeaDsa.ToRegion.{Disambiguate, sea_dsa_to_region}
use clam.SeaDsa.Reach.{here, there, Leads, IsBounded}
use clam.SeaDsa.CyclicLaws.{is_cyclic-Leads}
use clam.SeaDsa.CellsLaws.{
  InInterval, intersect_interval_lem, HasBits, IsApart, is_disjoint_cell-IsApart,
}
use clam.SeaDsa.ToRegionLaws.{Sound, sea_dsa_to_region_lem}

-- node 0 leads to 1 and 1 to 0; type 0 is i32, and stands at offsets 0 and 4 of each
abbrev links_of : ℕ → List (Option ℕ)
links_of zero = some 1 ∷ none ∷ []
links_of (suc zero) = some 0 ∷ []
links_of _ = []

abbrev two_nodes : Graph
two_nodes = record {
  is_modified = λ n. true;
  is_read = λ n. true;
  is_offset_collapsed = λ n. false;
  is_int_to_ptr = λ n. false;
  is_ptr_to_int = λ n. false;
  is_external = λ n. false;
  is_array = λ n. false;
  is_heap = λ n. true;
  size = λ n. 8;
  has_accessed_type = λ n o. if o == 0 then true else o == 4;
  accessed_type = λ n o. 0 ∷ [];
  types = λ n. record { offset = 0; types = 0 ∷ [] } ∷ record { offset = 4; types = 0 ∷ [] } ∷ [];
  links = links_of;
  type_of = λ t. integer 32;
  store_size = λ t. 4;
}

two_nodes-IsBounded : IsBounded two_nodes 2
two_nodes-IsBounded zero _ here = omega arith
two_nodes-IsBounded zero b (there (there a)) = elim a [ ]
two_nodes-IsBounded (suc zero) _ here = omega arith
two_nodes-IsBounded (suc zero) b (there a) = elim a [ ]
two_nodes-IsBounded (suc (suc n)) b a = elim a [ ]

two_nodes-HasBits : HasBits two_nodes
unfolding integer_bit_width
two_nodes-HasBits t h = omega arith

abbrev all_options : Disambiguate
all_options = record { unknown = true; ptr_cast = true; external = true }

intersect_interval_lem_example :
    (intersect_interval (0, 8) (4, 12) ≡ true)
    ↔ ((x : ℕ) × InInterval x (0, 8) × InInterval x (4, 12))
intersect_interval_lem_example = intersect_interval_lem (0, 8) (4, 12) (omega arith) (omega arith)

is_cyclic-Leads_example :
    (r : Search) × (is_cyclic two_nodes 3 0 ≡ some r) × ((r.found ≡ true) ↔ Leads two_nodes 0 0)
is_cyclic-Leads_example = is_cyclic-Leads two_nodes 2 3 0 two_nodes-IsBounded (omega arith)

is_disjoint_cell-IsApart_example :
    (s1 : ℕ) × (size_of two_nodes (0 ∷ []) ≡ some s1)
    × (4 < 8)
    × All (IsApart two_nodes 4 s1) (two_nodes.types 0)
unfolding size_of is_disjoint_cell
is_disjoint_cell-IsApart_example =
    is_disjoint_cell-IsApart two_nodes 0 4 refl ((4, refl), ((4, refl), tt)) refl

sea_dsa_to_region_lem_example :
    (info : RegionInfo) × (sea_dsa_to_region two_nodes 3
        (record { node = some 0; offset = 4 })
        all_options
      ≡ some info)
    × ((info.is_cyclic ≡ true) ↔ Leads two_nodes 0 0)
    × Sound two_nodes 0 4 all_options info
sea_dsa_to_region_lem_example =
    sea_dsa_to_region_lem two_nodes 2 3 all_options (record { node = some 0; offset = 4 }) 0
      two_nodes-IsBounded (omega arith) two_nodes-HasBits refl
