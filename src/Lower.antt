-- ===== src/Lower.antt =====
-- lib/Transforms: passes that replace an instruction by control flow.
pub mod UnsignedIcmp
pub mod Select
pub mod UnsignedIcmpLaws
