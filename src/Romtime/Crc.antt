-- ===== src/Romtime/Crc.antt =====
-- The two versions of CRC-8, the host's loop and the target's carry-less multiplication.
use mcu_fw_cpp.Prelude.{
  if◌then◌else◌, false, ℕ, zero, suc, ◌<◌, ◌^◌, ◌/◌, ◌%◌, ◌≡◌, refl, sym, ◌∙◌, bit_xor, ◌<<<◌, Bool,
  true, ◌==◌, ==_iff, arith,
}
use mcu_fw_cpp.Prelude.Bits.{bit_xor-lt}
use mcu_fw_cpp.Romtime.{crc8_host, crc8_riscv, crc_rounds, polynomial}

-- A test on all values below a bound.
every : (ℕ → Bool) → ℕ → Bool
every test zero = true
every test (suc bound) = if test bound then every test bound else false

every-test : (test : ℕ → Bool) (x bound : ℕ) → x < bound → every test bound ≡ true → test x ≡ true
unfolding every
every-test test x zero lt passed = absurd (omega arith)
every-test test x (suc bound) lt passed = ground (arith, every-test test x bound)

-- `x · (x² + x + 1)` without carries.
abbrev pub times_seven : ℕ → ℕ
times_seven x = bit_xor x (bit_xor (x <<< 1) (x <<< 2))

abbrev folded : ℕ → ℕ
folded x = bit_xor (times_seven x) (times_seven (times_seven x / 2 ^ 8)) % 2 ^ 8

crc_table : every (λ x. crc_rounds 8 x == folded x) 256 ≡ true
unfolding every crc_rounds
crc_table = refl

host_table : (x : ℕ) → x < 256 → crc_rounds 8 x ≡ folded x
host_table x h = (==_iff _ _).0 (every-test _ x 256 h crc_table)

crc8_host_lem : (crc byte : ℕ) → crc_rounds 8 (bit_xor crc byte) ≡ crc8_host crc byte
unfolding crc8_host
crc8_host_lem crc byte = refl

times_seven-lt : (x : ℕ) → x < 2 ^ 14 → times_seven x < 2 ^ 16
times_seven-lt x h =
    bit_xor-lt 16 x _ (omega arith) (bit_xor-lt 16 (x <<< 1) (x <<< 2) (omega arith) (omega arith))

crc8_riscv-folded :
    (clmul : ℕ → ℕ → ℕ) (x : ℕ)
    → ((y : ℕ) → y < 2 ^ 16 → clmul y polynomial ≡ times_seven y)
    → x < 2 ^ 8
    → bit_xor (clmul x polynomial) (clmul (clmul x polynomial / 2 ^ 8) polynomial) % 2 ^ 8
      ≡ folded x
crc8_riscv-folded clmul x h p =
    rw (h x (omega arith))
      (rw (h (times_seven x / 2 ^ 8) (omega (arith, times_seven-lt x (omega arith)))) refl)

-- The target's version computes what the host's version computes, on all bytes, for every `clmul`
-- that multiplies 16-bit numbers by 7 without carries.
pub crc8_riscv-eq-host :
    (clmul : ℕ → ℕ → ℕ) (crc byte : ℕ)
    → ((x : ℕ) → x < 2 ^ 16 → clmul x polynomial ≡ times_seven x)
    → crc < 2 ^ 8
    → byte < 2 ^ 8
    → crc8_riscv clmul crc byte ≡ crc8_host crc byte
unfolding crc8_riscv
crc8_riscv-eq-host clmul crc byte h p q =
    let x : ℕ = bit_xor crc byte in
    let small : x < 2 ^ 8 = bit_xor-lt 8 crc byte p q in
    crc8_riscv-folded clmul x h small ∙ sym (host_table x small) ∙ crc8_host_lem crc byte
