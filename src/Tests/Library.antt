-- ===== src/Tests/Library.antt =====
-- The theorems on the library parts at small inputs.
use mcu_fw_cpp.Prelude.{ℕ, ◌+◌, ◌*◌, ◌%◌, ◌≡◌, refl, u32, arith, [], ◌∷◌, length}
use mcu_fw_cpp.SocManager.Checksum.{calc_checksum, sum, word_bytes, calc_checksum_balances}
use mcu_fw_cpp.Romtime.{crc8_host, crc8_riscv, print_word}
use mcu_fw_cpp.Romtime.Crc.{times_seven, crc8_riscv-eq-host}
use mcu_fw_cpp.Romtime.Hex.{read_from, AllHex, print_word-read}
use mcu_fw_cpp.Libc.{Bytes, memmove, memcmp}
use mcu_fw_cpp.Libc.Compare.{Compared, memcmp-Compared}
use mcu_fw_cpp.Libc.Copy.{copied, memmove-copied}

abbrev ramp : Bytes
ramp a = a * 3 % 256

memmove-copied_example : memmove 12 10 5 ramp 14 ≡ copied 12 10 5 ramp 14
memmove-copied_example = memmove-copied 12 10 5 ramp 14

memcmp-Compared_example : Compared 10 12 5 ramp (memcmp 10 12 5 ramp)
memcmp-Compared_example = memcmp-Compared 10 12 5 ramp

calc_checksum_balances_example :
    u32 (
      sum (word_bytes 0x46574C44)
      + sum (1 ∷ 2 ∷ 255 ∷ [])
      + calc_checksum 0x46574C44 (1 ∷ 2 ∷ 255 ∷ []))
    ≡ 0
calc_checksum_balances_example = calc_checksum_balances 0x46574C44 (1 ∷ 2 ∷ 255 ∷ [])

-- The multiplication without carries, by the polynomial.
abbrev clmul : ℕ → ℕ → ℕ
clmul x y = times_seven x

crc8_riscv-eq-host_example : crc8_riscv clmul 0x5a 0xc3 ≡ crc8_host 0x5a 0xc3
crc8_riscv-eq-host_example =
    crc8_riscv-eq-host clmul 0x5a 0xc3 (λ x h. refl) (omega arith) (omega arith)

print_word-read_example :
    (read_from 0 (print_word 0xdeadbeef) ≡ 0xdeadbeef)
    × AllHex (print_word 0xdeadbeef)
    × (length (print_word 0xdeadbeef) ≡ 8)
print_word-read_example = print_word-read 0xdeadbeef (omega arith)
