-- ===== src/Runtime/System.antt =====
-- The system capsule (runtime/kernel/capsules/src/system.cpp, class `SystemCapsule`).
pub mod Delay
use mcu_fw_cpp.Prelude.{
  ℕ, zero, suc, ◌+◌, ◌-◌, ◌*◌, ◌%◌, ◌^◌, u32, u64, Bool, Option, none, some, ltb, if◌then◌else◌,
}
use mcu_fw_cpp.Bus.{Hw}
use mcu_fw_cpp.Error.{McuResult, ok, Try}
use mcu_fw_cpp.Romtime.Clock.{Platform, mcycle}

-- `a - b` on `uint64_t`, which wraps.
abbrev pub sub64 : ℕ → ℕ → ℕ
sub64 a b = (a + 2 ^ 64 - b % 2 ^ 64) % 2 ^ 64

module _ {S : Type 0} (platform : Platform S) where
  unfoldable pub syscall_get_time : Try S ℕ
  syscall_get_time s = let (time, s') = mcycle platform s in (ok time, s')

  -- `while (mcycle() - start < cycles_to_wait)`, which has no bound: `none` is a wait that outlasts
  -- the fuel.
  unfoldable pub busy_wait : ℕ → ℕ → ℕ → S → Option S
  busy_wait zero start cycles_to_wait s = none
  busy_wait (suc fuel) start cycles_to_wait s =
      let (now, s') = mcycle platform s in
      let again = busy_wait fuel start cycles_to_wait s' in
      if ltb (sub64 now start) cycles_to_wait then again else some s'

  unfoldable pub syscall_delay_us : ℕ → ℕ → S → Option (McuResult (Unit {0}) × S)
  unfolding busy_wait
  syscall_delay_us fuel us s =
      let (start, s') = mcycle platform s in
      elim (busy_wait fuel start (u32 us * 100) s') [ none ↦ none | some s'' ↦ some (ok tt, s'') ]

  -- A stub of the source: no scheduler yet.
  unfoldable pub syscall_yield : Hw S (Unit {0})
  syscall_yield s = (tt, s)
