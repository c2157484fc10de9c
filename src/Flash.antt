-- ===== src/Flash.antt =====
-- Memory-mapped flash (rom/src/flash/memory.cpp), over a flash controller.
pub mod Hil
pub mod Partition
pub mod Bounds
use mcu_fw_cpp.Prelude.{
  ℕ, ◌+◌, u8, u32, sub32, bit_or, ◌<<<◌, Bool, true, false, ◌&&◌, leb, ltb, if◌then◌else◌,
}
use Hil.{Chunk, FlashHil}
use mcu_fw_cpp.Error.{McuResult, ok, err, flash_invalid_address, Try, ◌>>=◌, ◌>>◌, pure, fail}

pub record FlashMemory : Type 0 where
  pub base_address : ℕ
  pub size : ℕ

-- The little-endian word of four bytes.
unfoldable pub assemble : Chunk → ℕ
assemble c =
    bit_or
      (bit_or (bit_or (u8 (c.bytes 0)) (u32 (u8 (c.bytes 1) <<< 8))) (u32 (u8 (c.bytes 2) <<< 16)))
      (u32 (u8 (c.bytes 3) <<< 24))

unfoldable pub contains : FlashMemory → ℕ → Bool
contains f address = leb f.base_address address && ltb address (u32 (f.base_address + f.size))

unfoldable pub to_flash_offset : FlashMemory → ℕ → ℕ
to_flash_offset f address = sub32 address f.base_address

module _ {S : Type 0} (hil : FlashHil S) (f : FlashMemory) where
  unfoldable pub read_word : ℕ → Try S ℕ
  unfolding assemble
  read_word offset =
      if ltb f.size (u32 (offset + 4))
      then fail flash_invalid_address
      else (do c ← hil.read (u32 (f.base_address + offset)) 4; pure (assemble c))

  unfoldable pub read : ℕ → ℕ → Try S Chunk
  read offset length =
      if ltb f.size (u32 (offset + length))
      then fail flash_invalid_address
      else hil.read (u32 (f.base_address + offset)) length
