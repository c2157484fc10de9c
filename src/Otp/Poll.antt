-- ===== src/Otp/Poll.antt =====
-- The polling loop of `wait_for_idle`: how long it waits, and what it returns.
use mcu_fw_cpp.Prelude.{
  ℕ, zero, suc, ◌<◌, ◌≤◌, ltb, ltb-cases, inl, inr, ◌^◌, ◌≡◌, refl, true, false, arith, ◌==◌,
  if◌then◌else◌,
}
use mcu_fw_cpp.Bus.{Bus}
use mcu_fw_cpp.Error.{ok, err, timeout}
use mcu_fw_cpp.Otp.{Otp, is_idle, poll_idle, wait_for_idle}

-- The number of polls that `wait_for_idle` is ready to make.
abbrev pub polls : ℕ → ℕ
polls timeout_cycles = if timeout_cycles == 0 then 2 ^ 32 else timeout_cycles

module _ {S : Type 0} ⦃bus : Bus S⦄ (o : Otp) where
  -- The device after `n` loads of the status register.
  abbrev pub after_polls : ℕ → S → S
  after_polls zero s = s
  after_polls (suc n) s = after_polls n (is_idle o s).1

  -- Poll number `i`, from 0, would see the idle bit.
  abbrev pub IdleAt : ℕ → S → Type 0
  IdleAt i s = (is_idle o (after_polls i s)).0 ≡ true

  abbrev pub BusyAt : ℕ → S → Type 0
  BusyAt i s = (is_idle o (after_polls i s)).0 ≡ false

  poll_idle-ok :
      (n i : ℕ) (s : S)
      → i < n
      → ((j : ℕ) → j < i → BusyAt j s)
      → IdleAt i s
      → poll_idle o n s ≡ (ok tt, after_polls (suc i) s)
  unfolding poll_idle
  poll_idle-ok zero i s lt busy idle = absurd (omega arith)
  poll_idle-ok (suc n) zero s lt busy idle = rw idle
  poll_idle-ok (suc n) (suc i) s lt busy idle =
      rw (busy 0 (omega arith))
        (poll_idle-ok n i (is_idle o s).1 (omega arith) (λ j h. busy (suc j) (omega arith)) idle)

  poll_idle-timeout :
      (n : ℕ) (s : S)
      → ((j : ℕ) → j < n → BusyAt j s)
      → poll_idle o n s ≡ (err timeout, after_polls n s)
  unfolding poll_idle
  poll_idle-timeout zero s busy = refl
  poll_idle-timeout (suc n) s busy =
      rw (busy 0 (omega arith))
        (poll_idle-timeout n (is_idle o s).1 (λ j h. busy (suc j) (omega arith)))

  -- If the first poll that sees the idle bit is number `i`, below the number of polls allowed, then
  -- `wait_for_idle` succeeds after exactly `i + 1` loads of the status register and nothing else.
  pub wait_for_idle-ok :
      (timeout_cycles i : ℕ) (s : S)
      → i < polls timeout_cycles
      → ((j : ℕ) → j < i → BusyAt j s)
      → IdleAt i s
      → wait_for_idle o timeout_cycles s ≡ (ok tt, after_polls (suc i) s)
  unfolding wait_for_idle
  wait_for_idle-ok timeout_cycles i s lt busy idle =
      poll_idle-ok (polls timeout_cycles) i s lt busy idle

  -- If no poll that is allowed sees the idle bit, `wait_for_idle` gives up with `TIMEOUT` after
  -- exactly that many loads: `timeout_cycles`, and 2 ^ 32 where that is 0.
  pub wait_for_idle-timeout :
      (timeout_cycles : ℕ) (s : S)
      → ((j : ℕ) → j < polls timeout_cycles → BusyAt j s)
      → wait_for_idle o timeout_cycles s ≡ (err timeout, after_polls (polls timeout_cycles) s)
  unfolding wait_for_idle
  wait_for_idle-timeout timeout_cycles s busy = poll_idle-timeout (polls timeout_cycles) s busy

  -- Let `i` be the number, from 0, of the first poll that sees the idle bit if that is one of the
  -- polls allowed, and otherwise how many polls are allowed: `timeout_cycles`, and 2 ^ 32 where
  -- that is 0. `wait_for_idle` succeeds after exactly `i + 1` loads of the status in the first
  -- case; in the second it gives up with `TIMEOUT` after all the loads that are allowed.
  pub wait_for_idle-answers :
      (timeout_cycles i : ℕ) (s : S)
      → i ≤ polls timeout_cycles
      → ((j : ℕ) → j < i → BusyAt j s)
      → (i < polls timeout_cycles → IdleAt i s)
      → wait_for_idle o timeout_cycles s ≡ (
          if ltb i (polls timeout_cycles)
          then (ok tt, after_polls (suc i) s)
          else (err timeout, after_polls (polls timeout_cycles) s))
  wait_for_idle-answers timeout_cycles i s le busy idle =
      elim (ltb-cases i (polls timeout_cycles)) [
        | inl (t, lt) ↦ rw t (wait_for_idle-ok timeout_cycles i s lt busy (idle lt))
        | inr (t, ge) ↦
            rw t (wait_for_idle-timeout timeout_cycles s (λ j below. busy j (omega arith)))
      ]
