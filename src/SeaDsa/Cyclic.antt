-- ===== src/SeaDsa/Cyclic.antt =====
-- lib/Clam/SeaDsaToRegion.cc: IsCyclic, a depth-first search from the links of a node.
use clam.Prelude.{
  ℕ, zero, suc, Bool, true, false, List, [], ◌∷◌, Option, none, some, ◌==◌, elem, if◌then◌else◌,
}
use clam.SeaDsa.Graph.{Graph}

-- The answer and the visited nodes.
pub record Search : Type 0 where
  pub found : Bool
  pub visited : List ℕ

module _ (g : Graph) where
  -- One call for each link, until one finds the node; the fuel bounds the depth of the calls.
  unfoldable pub search_links :
      (List ℕ → Option ℕ → Option Search) → List (Option ℕ) → List ℕ → Option Search
  search_links rec [] visited = some (record { found = false; visited = visited })
  search_links rec (d ∷ ds) visited = elim (rec visited d) [
    | none ↦ none
    | some r ↦ if r.found then some r else search_links rec ds r.visited
  ]

  unfoldable pub is_cyclic_rec : ℕ → ℕ → List ℕ → Option ℕ → Option Search
  unfolding search_links
  is_cyclic_rec fuel n visited none = some (record { found = false; visited = visited })
  is_cyclic_rec zero n visited (some d) = none
  is_cyclic_rec (suc fuel) n visited (some d) =
      if d == n
      then some (record { found = true; visited = visited })
      else if elem d visited
      then some (record { found = false; visited = visited })
      else search_links (is_cyclic_rec fuel n) (g.links d) (d ∷ visited)

  unfoldable pub is_cyclic : ℕ → ℕ → Option Search
  unfolding search_links is_cyclic_rec
  is_cyclic fuel n = search_links (is_cyclic_rec fuel n) (g.links n) []
