-- ===== src/Runtime.antt =====
-- The runtime kernel (runtime/kernel): the capsules and the core support.
pub mod System
pub mod FlashPartition
pub mod Mailbox
pub mod MboxSram
pub mod McuMbox
pub mod MciCapsule
pub mod Veer
