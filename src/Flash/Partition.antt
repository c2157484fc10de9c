-- ===== src/Flash/Partition.antt =====
-- Flash partitions (rom/include/rom/flash/flash_partition.hpp, rom/src/flash/flash_partition.cpp).
use mcu_fw_cpp.Prelude.{ℕ, Bool, List}
use mcu_fw_cpp.Error.{Try}
use mcu_fw_cpp.Flash.Hil.{Chunk}

pub data PartitionType : Type 0 where
  boot firmware firmware_backup config log recovery raw : PartitionType

pub record PartitionDescriptor : Type 0 where
  pub start_address : ℕ
  pub size : ℕ
  pub type : PartitionType
  pub is_writable : Bool
  pub is_secure : Bool

-- The class: the descriptor that it was constructed with, and its virtual methods.
pub record FlashPartition (S : Type 0) : Type 0 where
  pub desc : PartitionDescriptor
  pub read : ℕ → ℕ → Try S Chunk
  pub write : ℕ → List ℕ → Try S ℕ
  pub erase : ℕ → ℕ → Try S (Unit {0})

module _ {S : Type 0} (p : FlashPartition S) where
  unfoldable pub start_address : ℕ
  start_address = p.desc.start_address

  unfoldable pub size : ℕ
  size = p.desc.size

  unfoldable pub type : PartitionType
  type = p.desc.type

  unfoldable pub is_writable : Bool
  is_writable = p.desc.is_writable

  unfoldable pub is_secure : Bool
  is_secure = p.desc.is_secure
