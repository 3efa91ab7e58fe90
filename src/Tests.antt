-- ===== src/Tests.antt =====
-- Tests of the models, and the theorems at concrete inputs.
pub mod Numbers
pub mod Compare
pub mod Edges
pub mod Exits
pub mod Lit
pub mod Lower
pub mod Ops
pub mod PathAnalyzer
pub mod Phis
pub mod Query
pub mod SeaDsa
