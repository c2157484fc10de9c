-- ===== src/Runtime/Mailbox.antt =====
-- The mailbox capsule (runtime/kernel/capsules/src/mailbox.cpp): stubs that answer without touching
-- any device. A buffer is the address that the caller passes.
use mcu_fw_cpp.Prelude.{ℕ, Bool, true}
use mcu_fw_cpp.Error.{Try, pure}

module _ {S : Type 0} where
  unfoldable pub syscall_send_command : (cmd words words_len : ℕ) → Try S (Unit {0})
  syscall_send_command cmd words words_len = pure tt

  unfoldable pub syscall_receive_response : (buffer buffer_len : ℕ) → Try S ℕ
  syscall_receive_response buffer buffer_len = pure 0

  unfoldable pub syscall_is_ready : Try S Bool
  syscall_is_ready = pure true
