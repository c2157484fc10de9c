-- ===== src/Flash/Hil.antt =====
-- The interface of a flash controller (rom/include/rom/flash/hil.hpp). The source has no controller:
-- it is an argument of the code that uses it.
use mcu_fw_cpp.Prelude.{ℕ, Bool, List}
use mcu_fw_cpp.Bus.{Hw}
use mcu_fw_cpp.Error.{Try}

pub data FlashOp : Type 0 where
  read write erase : FlashOp

pub record FlashStatus : Type 0 where
  pub busy : Bool
  pub write_enabled : Bool
  pub error : Bool
  pub error_code : ℕ

-- What a read brings: the count that it returns, and the buffer's bytes by index.
pub record Chunk : Type 0 where
  pub count : ℕ
  pub bytes : ℕ → ℕ

-- The virtual methods. A read takes an address and the length of the buffer.
pub record FlashHil (S : Type 0) : Type 0 where
  pub init : Try S (Unit {0})
  pub read : ℕ → ℕ → Try S Chunk
  pub write : ℕ → List ℕ → Try S ℕ
  pub erase : ℕ → ℕ → Try S (Unit {0})
  pub status : Hw S FlashStatus
  pub wait_idle : ℕ → Try S (Unit {0})
  pub capacity : Hw S ℕ
  pub erase_block_size : Hw S ℕ
  pub page_size : Hw S ℕ

-- The default argument of `wait_idle`.
abbrev pub default_timeout_cycles : ℕ
default_timeout_cycles = 100000
