-- ===== src/Romtime/Clock.antt =====
-- The cycle counter (romtime/src/platform_riscv32.cpp, platform_host.cpp, romtime/src/romtime.cpp,
-- `platform_mcycle` and `mcycle`).
pub mod Torn
use mcu_fw_cpp.Prelude.{ℕ, bit_or, u32, ◌<<<◌}
use mcu_fw_cpp.Bus.{Hw, pure}

-- The platform's counter, as `romtime` links it in.
pub record Platform (S : Type 0) : Type 0 where
  pub platform_mcycle : Hw S ℕ

-- The two halves of the counter in the core's control registers. Reading one takes time.
pub record Csr (S : Type 0) : Type 0 where
  pub csrr_mcycle : S → ℕ × S
  pub csrr_mcycleh : S → ℕ × S

-- The target: the low half first, then the high half.
unfoldable pub platform_mcycle_riscv32 : {S : Type 0} → Csr S → Hw S ℕ
platform_mcycle_riscv32 csr s =
    let (low, s₁) = csr.csrr_mcycle s in
    let (high, s₂) = csr.csrr_mcycleh s₁ in (bit_or (u32 high <<< 32) (u32 low), s₂)

-- The host build has no counter.
unfoldable pub platform_mcycle_host : {S : Type 0} → Hw S ℕ
platform_mcycle_host = pure 0

unfoldable pub mcycle : {S : Type 0} → Platform S → Hw S ℕ
mcycle platform = platform.platform_mcycle
