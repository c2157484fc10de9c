-- ===== src/Romtime.antt =====
-- Hexadecimal output and CRC-8 (romtime/src/romtime.cpp, platform_host.cpp, platform_riscv32.cpp).
pub mod Hex
pub mod Crc
pub mod Clock
pub mod Console
use mcu_fw_cpp.Prelude.{
  ℕ, zero, suc, ◌+◌, ◌-◌, ◌/◌, u8, u32, bit_and, bit_xor, any_set, List, [], ◌∷◌, ◌++◌, ltb,
  if◌then◌else◌, ◌<<<◌, ◌>>>◌,
}

-- The character of a nibble.
unfoldable pub hex_digit : ℕ → ℕ
hex_digit c = if ltb c 10 then b'0' + c else b'A' + c - 10

-- What `HexBytes::print_to` writes, character by character.
unfoldable pub print_bytes : List ℕ → List ℕ
unfolding hex_digit
print_bytes [] = []
print_bytes (x ∷ rest) = hex_digit (x >>> 4) ∷ hex_digit (bit_and x 0x0f) ∷ print_bytes rest

-- `bytes` of `HexWord::print_to`, highest first.
abbrev pub bytes_of_word : ℕ → List ℕ
bytes_of_word value =
    u8 (bit_and (value >>> 24) 0xff)
    ∷ u8 (bit_and (value >>> 16) 0xff)
    ∷ u8 (bit_and (value >>> 8) 0xff)
    ∷ u8 (bit_and value 0xff)
    ∷ []

-- What `HexWord::print_to` writes.
unfoldable pub print_word : ℕ → List ℕ
unfolding print_bytes
print_word value = print_bytes (bytes_of_word value)

abbrev pub polynomial : ℕ
polynomial = 0x07

-- One round of the loop of the host's `platform_crc8`.
unfoldable pub crc_round : ℕ → ℕ
crc_round crc = if any_set crc 0x80 then u8 (bit_xor (crc <<< 1) polynomial) else u8 (crc <<< 1)

unfoldable pub crc_rounds : ℕ → ℕ → ℕ
unfolding crc_round
crc_rounds zero crc = crc
crc_rounds (suc n) crc = crc_rounds n (crc_round crc)

unfoldable pub crc8_host : ℕ → ℕ → ℕ
unfolding crc_rounds
crc8_host crc byte = crc_rounds 8 (bit_xor crc byte)

-- The target's `platform_crc8`, over the carry-less multiplication of the Zbc extension.
unfoldable pub crc8_riscv : (ℕ → ℕ → ℕ) → ℕ → ℕ → ℕ
crc8_riscv clmul crc byte =
    let a = clmul (bit_xor crc byte) polynomial in
    let b = clmul (a >>> 8) polynomial in u8 (bit_xor a b)
