-- ===== src/Runtime/MciCapsule.antt =====
-- The MCI capsule (runtime/kernel/capsules/src/mci.cpp): stubs that answer without touching any
-- device.
use mcu_fw_cpp.Prelude.{ℕ}
use mcu_fw_cpp.Error.{Try, pure}

module _ {S : Type 0} where
  unfoldable pub syscall_get_boot_status : Try S ℕ
  syscall_get_boot_status = pure 0

  unfoldable pub syscall_get_flow_status : Try S ℕ
  syscall_get_flow_status = pure 0

  unfoldable pub syscall_trigger_reset : Try S (Unit {0})
  syscall_trigger_reset = pure tt
