-- ===== src/Ops.antt =====
-- lib/Clam/CfgBuilder.cc: the translation of binary operators and of comparisons as instructions.
pub mod Views
pub mod Binary
pub mod ViewLaws
pub mod Meaning
pub mod BinaryLaws
pub mod VisitLaws
pub mod BoolLaws
pub mod VisitBools
pub mod Refs
pub mod Cmp
pub mod CmpLaws
pub mod RefsLaws
