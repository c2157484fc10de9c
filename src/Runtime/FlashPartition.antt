-- ===== src/Runtime/FlashPartition.antt =====
-- The flash partition capsule (runtime/kernel/capsules/src/flash_partition.cpp): stubs that answer
-- without touching any device. A buffer is the address that the caller passes.
use mcu_fw_cpp.Prelude.{ℕ}
use mcu_fw_cpp.Error.{Try, pure}

module _ {S : Type 0} where
  unfoldable pub syscall_read : (partition_id offset buffer length : ℕ) → Try S ℕ
  syscall_read partition_id offset buffer length = pure 0

  unfoldable pub syscall_write : (partition_id offset bytes length : ℕ) → Try S ℕ
  syscall_write partition_id offset bytes length = pure 0

  unfoldable pub syscall_erase : (partition_id offset length : ℕ) → Try S (Unit {0})
  syscall_erase partition_id offset length = pure tt

  unfoldable pub syscall_partition_size : (partition_id : ℕ) → Try S ℕ
  syscall_partition_size partition_id = pure 0
