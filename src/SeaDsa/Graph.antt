-- ===== src/SeaDsa/Graph.antt =====
-- What sea-dsa and LLVM answer about the nodes of a graph and the types: nodes and types are
-- known by numbers.
use clam.Prelude.{ℕ, Bool, List, Option}
use clam.Lit.Values.{Ty}

-- An entry of Node::types(): an offset and the types accessed there, in the order of the set.
pub record Accessed : Type 0 where
  pub offset : ℕ
  pub types : List ℕ

-- links gives the node that each link of a node leads to; the node of a null cell is none.
pub record Graph : Type 0 where
  pub is_modified : ℕ → Bool
  pub is_read : ℕ → Bool
  pub is_offset_collapsed : ℕ → Bool
  pub is_int_to_ptr : ℕ → Bool
  pub is_ptr_to_int : ℕ → Bool
  pub is_external : ℕ → Bool
  pub is_array : ℕ → Bool
  pub is_heap : ℕ → Bool
  pub size : ℕ → ℕ
  pub has_accessed_type : ℕ → ℕ → Bool
  pub accessed_type : ℕ → ℕ → List ℕ
  pub types : ℕ → List Accessed
  pub links : ℕ → List (Option ℕ)
  pub type_of : ℕ → Ty
  pub store_size : ℕ → ℕ

-- A cell: a node and an offset; the null cell has no node.
pub record Cell : Type 0 where
  pub node : Option ℕ
  pub offset : ℕ
