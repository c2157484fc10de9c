-- ===== src/Rom.antt =====
-- The ROM (rom/src, rom/include/rom): the environment, the boot flows and the entry point.
pub mod Parameters
pub mod ResetReason
pub mod BootStatus
pub mod Env
pub mod Boot
pub mod Soc
pub mod Fatal
pub mod Start
pub mod Main
pub mod Verify
