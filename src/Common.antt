-- ===== src/Common.antt =====
-- The utility headers (include/common).
pub mod Bitflags
pub mod Result
pub mod UnitResult
pub mod StaticRef
