-- ===== src/Tests/Runtime.antt =====
-- The theorems on the clock, the system calls and the fuse words at small inputs.
use mcu_fw_cpp.Prelude.{ℕ, ◌+◌, ◌*◌, ◌/◌, ◌%◌, ◌^◌, ◌≤◌, ◌≡◌, ◌⊎◌, refl, arith, [], ◌∷◌, none, some}
use mcu_fw_cpp.Error.{ok, ◌>>◌}
use mcu_fw_cpp.Error.Returns.{Returns}
use mcu_fw_cpp.Otp.{Otp, read_words, write_words}
use mcu_fw_cpp.Otp.Fuses.{View, fuse_bus, fuse_bus-IsController}
use mcu_fw_cpp.Otp.Words.{burn_all, Holds, read_words-Holds, read_words-write_words}
use mcu_fw_cpp.Romtime.Clock.{Csr, platform_mcycle_riscv32}
use mcu_fw_cpp.Romtime.Clock.Torn.{IsCounter, platform_mcycle_riscv32-torn}
use mcu_fw_cpp.Runtime.System.{syscall_delay_us}
use mcu_fw_cpp.Runtime.System.Delay.{target, host, syscall_delay_us-Returns, syscall_delay_us-host}

abbrev otp : Otp
otp = record { base_addr = 0x70000000 }

-- A fuse array with the words of its first addresses, and a blank one.
abbrev written : View
written = record { wait = 1; addr = 0; wdata = 0; rdata = 0; fuses = λ a. a * 3 }

abbrev blank : View
blank = record { wait = 1; addr = 0; wdata = 0; rdata = 0; fuses = λ a. 0 }

read_words-Holds_example :
    Returns
      (read_words otp 0x40 2)
      written
      (192 ∷ 204 ∷ [])
      (Holds otp fuse_bus-IsController (omega arith) (λ a. a * 3))
read_words-Holds_example =
    read_words-Holds otp fuse_bus-IsController (omega arith) 0x40 2 (λ a. a * 3) written
      (refl, omega arith)

read_words-write_words_example :
    Returns
      (write_words otp 0x40 (7 ∷ 9 ∷ []) >> read_words otp 0x40 2)
      blank
      (7 ∷ 9 ∷ [])
      (Holds otp fuse_bus-IsController (omega arith) (burn_all 0x40 0 (7 ∷ 9 ∷ []) (λ a. 0)))
read_words-write_words_example =
    read_words-write_words otp fuse_bus-IsController (omega arith) 0x40 (7 ∷ 9 ∷ []) (λ a. 0) blank
      (refl, omega arith) (λ b le. refl) (omega arith)

-- A counter that every read of a half advances by 5 cycles.
abbrev ticking : Csr ℕ
ticking = record {
  csrr_mcycle = λ c. (c % 2 ^ 32, c + 5);
  csrr_mcycleh = λ c. (c / 2 ^ 32 % 2 ^ 32, c + 5);
}

ticking-IsCounter : IsCounter ticking (λ c. c) 5
ticking-IsCounter = record {
  low_half = λ c. refl;
  high_half = λ c. refl;
  low_runs = λ c. (omega arith, omega arith);
  high_runs = λ c. (omega arith, omega arith);
}

platform_mcycle_riscv32-torn_example :
    ((4294967300 / 2 ^ 32 ≡ 4294967295 / 2 ^ 32)
      × ((platform_mcycle_riscv32 ticking 4294967295).0 ≡ 4294967295))
    ⊎ ((4294967300 / 2 ^ 32 ≡ 4294967295 / 2 ^ 32 + 1)
        × ((platform_mcycle_riscv32 ticking 4294967295).0 ≡ 4294967295 + 2 ^ 32))
platform_mcycle_riscv32-torn_example =
    platform_mcycle_riscv32-torn ticking ticking-IsCounter 4294967295 (omega arith) (omega arith)

syscall_delay_us-Returns_example :
    (s' : ℕ) × (syscall_delay_us (target ticking) 301 3 10 ≡ some (ok tt, s'))
    × (310 ≤ s')
    × (s' ≤ 330)
syscall_delay_us-Returns_example =
    syscall_delay_us-Returns ticking ticking-IsCounter 3 10 (omega arith) (omega arith)

syscall_delay_us-host_example : syscall_delay_us host 9 3 tt ≡ none
syscall_delay_us-host_example = syscall_delay_us-host 3 8 (omega arith)
