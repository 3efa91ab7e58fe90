-- ===== src/SeaDsa.antt =====
-- lib/Clam/SeaDsaToRegion.cc: from cells of sea-dsa to regions; with the predicates on types of
-- lib/Clam/SeaDsaHeapAbstractionUtils.cc.
pub mod Graph
pub mod Cells
pub mod Cyclic
pub mod Reach
pub mod ToRegion
pub mod CyclicLaws
pub mod CellsLaws
pub mod ToRegionLaws
