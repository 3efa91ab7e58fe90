-- ===== src/SeaDsa/Cells.antt =====
-- lib/Clam/SeaDsaToRegion.cc and SeaDsaHeapAbstractionUtils.cc: the types, the sizes and the
-- overlaps of the cells of a node.
use clam.Prelude.{
  ℕ, ◌+◌, ◌%◌, ◌^◌, Bool, true, false, ◌&&◌, ◌||◌, not, List, [], ◌∷◌, Option, none, some, ◌==◌,
  ltb, leb, min, if◌then◌else◌,
}
use clam.Lit.Values.{Ty, is_bool, is_integer, is_pointer_type, integer_bit_width}
use clam.SeaDsa.Graph.{Accessed, Graph}

-- A test of a type, with the bit width that isInteger keeps; the others leave it as it is.
abbrev pub TypeTest : Type 0
TypeTest = Ty → ℕ → Bool × ℕ

unfoldable pub integer_test : TypeTest
unfolding is_integer integer_bit_width
integer_test t w =
    if is_integer t
    then (true, if w == 0 then integer_bit_width t else min w (integer_bit_width t))
    else (false, w)

unfoldable pub bool_test : TypeTest
unfolding is_bool
bool_test t w = (is_bool t, w)

unfoldable pub pointer_test : TypeTest
unfolding is_pointer_type
pointer_test t w = (is_pointer_type t, w)

-- Given [lb_a,ub_a) and [lb_b,ub_b), whether they intersect.
unfoldable pub intersect_interval : ℕ × ℕ → ℕ × ℕ → Bool
intersect_interval a b = (leb a.0 b.0 && ltb b.0 a.1) || (leb b.0 a.0 && ltb a.0 b.1)

-- The interval of a cell, in uint64_t.
unfoldable pub cell_interval : ℕ → ℕ → ℕ × ℕ
cell_interval o s = (o, (o + s) % 2 ^ 64)

module _ (g : Graph) where
  -- The loop over the types: it stops at the first one that fails the test.
  unfoldable pub all_typed : TypeTest → List ℕ → ℕ → Bool × ℕ
  all_typed is_typed [] w = (true, w)
  all_typed is_typed (t ∷ ts) w =
      let rest = all_typed is_typed ts (is_typed (g.type_of t) w).1 in
      if (is_typed (g.type_of t) w).0 then rest else (false, (is_typed (g.type_of t) w).1)

  unfoldable pub is_typed_cell : ℕ → ℕ → TypeTest → ℕ → Bool × ℕ
  unfolding all_typed
  is_typed_cell n o is_typed w =
      if g.has_accessed_type n o then all_typed is_typed (g.accessed_type n o) w else (false, w)

  unfoldable pub is_typed_array_cell : ℕ → ℕ → TypeTest → ℕ → Bool × ℕ
  unfolding all_typed
  is_typed_array_cell n o is_typed w =
      if not (g.is_array n) || not (o == 0)
      then (false, w)
      else if g.has_accessed_type n o
      then all_typed is_typed (g.accessed_type n o) w
      else (false, w)

  unfoldable pub all_sized : ℕ → List ℕ → Bool
  all_sized sz [] = true
  all_sized sz (t ∷ ts) = g.store_size t == sz && all_sized sz ts

  -- The common size of the types, 0 if there are none.
  unfoldable pub size_of : List ℕ → Option ℕ
  unfolding all_sized
  size_of [] = some 0
  size_of (t ∷ ts) = if all_sized (g.store_size t) ts then some (g.store_size t) else none

  -- The loop over the other cells of the node.
  unfoldable pub overlaps : ℕ → ℕ → List Accessed → Bool
  unfolding size_of intersect_interval cell_interval
  overlaps o1 s1 [] = false
  overlaps o1 s1 (c ∷ cs) =
      let rest = overlaps o1 s1 cs in
      if o1 == c.offset then rest else elim (size_of c.types) [
        | none ↦ false
        | some s2 ↦
            if intersect_interval (cell_interval o1 s1) (cell_interval c.offset s2)
            then true
            else rest
      ]

  unfoldable pub is_overlapping_cell : ℕ → ℕ → Bool
  unfolding size_of overlaps
  is_overlapping_cell n1 o1 =
      if not (g.has_accessed_type n1 o1) then false else elim (size_of (g.accessed_type n1 o1)) [
        | none ↦ true
        | some s1 ↦ overlaps o1 s1 (g.types n1)
      ]

  unfoldable pub is_disjoint_cell : ℕ → ℕ → Bool
  unfolding is_overlapping_cell
  is_disjoint_cell n o =
      if is_overlapping_cell n o then false else if leb (g.size n) o then false else true
