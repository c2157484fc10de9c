-- ===== src/Runtime/MboxSram.antt =====
-- The mailbox SRAM capsule (runtime/kernel/capsules/src/mbox_sram.cpp): stubs that answer without
-- touching any device. A buffer is the address that the caller passes.
use mcu_fw_cpp.Prelude.{ℕ}
use mcu_fw_cpp.Error.{Try, pure}

module _ {S : Type 0} where
  unfoldable pub syscall_read : (offset buffer length : ℕ) → Try S ℕ
  syscall_read offset buffer length = pure 0

  unfoldable pub syscall_write : (offset bytes length : ℕ) → Try S ℕ
  syscall_write offset bytes length = pure 0
