-- ===== src/Romtime/Clock/Torn.antt =====
-- The 64-bit counter that the target's `platform_mcycle` puts together from two reads.
use mcu_fw_cpp.Prelude.{
  ℕ, ◌+◌, ◌*◌, ◌/◌, ◌%◌, ◌^◌, ◌<◌, ◌≤◌, ◌≡◌, ◌⊎◌, u32, bit_or, arith, ap₂, ◌∙◌, ◌<<<◌,
}
use mcu_fw_cpp.Prelude.Masks.{bit_or-high_low}
use mcu_fw_cpp.Romtime.Clock.{Csr, platform_mcycle_riscv32}

-- The registers show the halves of one counter, which runs on by up to `step` with every read.
pub record IsCounter {S : Type 0} (csr : Csr S) (count : S → ℕ) (step : ℕ) : Type 0 where
  pub low_half : (s : S) → (csr.csrr_mcycle s).0 ≡ count s % 2 ^ 32
  pub high_half : (s : S) → (csr.csrr_mcycleh s).0 ≡ count s / 2 ^ 32 % 2 ^ 32
  pub low_runs :
      (s : S)
      → (count s < count (csr.csrr_mcycle s).1) × (count (csr.csrr_mcycle s).1 ≤ count s + step)
  pub high_runs :
      (s : S)
      → (count s < count (csr.csrr_mcycleh s).1) × (count (csr.csrr_mcycleh s).1 ≤ count s + step)

module _ {S : Type 0} (csr : Csr S) {count : S → ℕ} {step : ℕ} (d : IsCounter csr count step) where
  abbrev later : S → S
  later s = (csr.csrr_mcycle s).1

  platform_mcycle_riscv32-value :
      (s : S)
      → (platform_mcycle_riscv32 csr s).0
        ≡ count (later s) / 2 ^ 32 % 2 ^ 32 * 2 ^ 32 + count s % 2 ^ 32
  unfolding platform_mcycle_riscv32
  platform_mcycle_riscv32-value s =
      ap₂ (λ (h l : ℕ). bit_or (u32 h <<< 32) (u32 l)) (d.high_half (later s)) (d.low_half s)
      ∙ halves (count (later s) / 2 ^ 32) (count s)
    where
      halves :
          (h l : ℕ)
          → bit_or (u32 (h % 2 ^ 32) <<< 32) (u32 (l % 2 ^ 32)) ≡ h % 2 ^ 32 * 2 ^ 32 + l % 2 ^ 32
      halves h l =
          bit_or-high_low 32 (u32 (h % 2 ^ 32)) (u32 (l % 2 ^ 32)) (omega arith) ∙ omega arith

  -- Where a register read takes at most 2 ^ 32 cycles and the counter is not near its end, the
  -- target's `platform_mcycle` returns the count at its first read if the high half has not changed
  -- before its second read; if the low half has run over in between, it returns a count that is
  -- 2 ^ 32 too large.
  pub platform_mcycle_riscv32-torn :
      (s : S)
      → step ≤ 2 ^ 32
      → count s + step < 2 ^ 64
      → ((count (later s) / 2 ^ 32 ≡ count s / 2 ^ 32)
          × ((platform_mcycle_riscv32 csr s).0 ≡ count s))
        ⊎ ((count (later s) / 2 ^ 32 ≡ count s / 2 ^ 32 + 1)
            × ((platform_mcycle_riscv32 csr s).0 ≡ count s + 2 ^ 32))
  platform_mcycle_riscv32-torn s short fits =
      let (runs, soon) = d.low_runs s in
      cases (count s) (count (later s)) (omega arith) (omega arith) (omega arith) _
        (platform_mcycle_riscv32-value s)
    where
      cases :
          (c c' : ℕ)
          → c < c'
          → c' ≤ c + 2 ^ 32
          → c' < 2 ^ 64
          → (v : ℕ) → v ≡ c' / 2 ^ 32 % 2 ^ 32 * 2 ^ 32 + c % 2 ^ 32
          → ((c' / 2 ^ 32 ≡ c / 2 ^ 32) × (v ≡ c))
            ⊎ ((c' / 2 ^ 32 ≡ c / 2 ^ 32 + 1) × (v ≡ c + 2 ^ 32))
      cases c c' lt le fits v e = ground arith
