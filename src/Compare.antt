-- ===== src/Compare.antt =====
-- lib/Clam/CfgBuilder.cc: the translation of integer comparisons into Crab.
pub mod Crab
pub mod SignOnes
pub mod Results
pub mod Blocks
pub mod SignOnesLaws
pub mod Insts
pub mod InstsLaws
pub mod BoolLaws
