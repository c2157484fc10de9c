-- ===== src/Runtime/McuMbox.antt =====
-- The MCU mailbox capsule (runtime/kernel/capsules/src/mcu_mbox.cpp): stubs that answer without
-- touching any device. A buffer is the address that the caller passes.
use mcu_fw_cpp.Prelude.{ℕ, Bool, false}
use mcu_fw_cpp.Error.{Try, pure}

module _ {S : Type 0} where
  unfoldable pub syscall_send : (target bytes length : ℕ) → Try S (Unit {0})
  syscall_send target bytes length = pure tt

  unfoldable pub syscall_receive : (source buffer buffer_len : ℕ) → Try S ℕ
  syscall_receive source buffer buffer_len = pure 0

  unfoldable pub syscall_has_pending_message : Try S Bool
  syscall_has_pending_message = pure false
