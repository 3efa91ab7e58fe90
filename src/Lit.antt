-- ===== src/Lit.antt =====
-- lib/Clam/CfgBuilderLit.hh and CfgBuilderLit.cc: literals and the factory that makes them; with
-- the part of lib/Clam/CfgBuilderUtils.cc that classifies values and reads constants.
pub mod Values
pub mod Consts
pub mod Literal
pub mod Factory
pub mod FactoryLaws
pub mod RegionLaws
