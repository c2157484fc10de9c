-- ===== src/Rom/Boot/Healthy.antt =====
-- A cold boot on hardware that answers in time.
use mcu_fw_cpp.Prelude.{
  ℕ, zero, suc, ◌≡◌, ◌<◌, ◌⊎◌, inl, inr, refl, sym, bit_or, u32, arith, any_set, true, false,
  Bool-cases, ◌==◌,
}
use mathlib.Core.Path.{subst}
use mcu_fw_cpp.Bus.{Bus, reg, read_reg}
use mcu_fw_cpp.Bus.Storage.{IsStorage}
use mcu_fw_cpp.Error.{McuError, ok}
use mcu_fw_cpp.Error.Ensures.{Ensures, succeeds}
use mcu_fw_cpp.Otp
use mcu_fw_cpp.I3c
use mcu_fw_cpp.SocManager.{is_mailbox_busy, delay, mbox_status, mbox_status_cmd_busy}
use mcu_fw_cpp.Rom.Env.{World}
use mcu_fw_cpp.Rom.Boot.{
  cold_boot, init_peripherals, poll_ready, wait_caliptra_ready, ready_timeout,
}
use mcu_fw_cpp.Rom.Boot.Progress.{IsFlowStatus, IsAt}
use mcu_fw_cpp.Rom.Boot.Flows.{Never}
use mcu_fw_cpp.Rom.Boot.ColdBoot.{cold_boot-IsAt, init_peripherals-IsAt, wait-IsAt}

-- The status registers of the fuse controller and of the mailbox, on the emulator's memory map.
abbrev pub otp_status_addr : ℕ
otp_status_addr = 0x70000000

abbrev pub mbox_status_addr : ℕ
mbox_status_addr = 0x30020014

-- The documented behaviour of both while they work: `otp_wait` and `mbox_wait` bound how many more
-- loads of the status show them busy, and are at all times below the polls that the ROM allows.
pub record IsHealthy {S : Type 0} (bus : Bus S) (otp_wait mbox_wait : S → ℕ) : Type 0 where
  pub otp_soon : (s : S) → otp_wait s < Otp.default_timeout_cycles
  pub otp_falls :
      (s : S)
      → (any_set (u32 (bus.load otp_status_addr s).0) Otp.status_idle ≡ true)
        ⊎ (otp_wait (bus.load otp_status_addr s).1 < otp_wait s)
  pub mbox_soon : (s : S) → mbox_wait s < ready_timeout
  pub mbox_falls :
      (s : S)
      → (any_set (u32 (bus.load mbox_status_addr s).0) mbox_status_cmd_busy ≡ false)
        ⊎ (mbox_wait (bus.load mbox_status_addr s).1 < mbox_wait s)

sooner : {A : Type 0} {w w' n : ℕ} → (A → ⊥) → A ⊎ (w' < w) → w < suc n → w' < n
sooner never (inl done) h = absurd (never done)
sooner never (inr falls) h = omega arith

module _ {S : Type 0} ⦃bus : Bus S⦄ {otp_wait mbox_wait : S → ℕ}
    (k : IsHealthy bus otp_wait mbox_wait) where
  -- A load of one of the two, by whatever address it is named.
  abbrev OtpLoad : ℕ → S → Type 0
  OtpLoad a s =
      (any_set (u32 (bus.load a s).0) Otp.status_idle ≡ true)
      ⊎ (otp_wait (bus.load a s).1 < otp_wait s)

  abbrev MboxLoad : ℕ → S → Type 0
  MboxLoad a s =
      (any_set (u32 (bus.load a s).0) mbox_status_cmd_busy ≡ false)
      ⊎ (mbox_wait (bus.load a s).1 < mbox_wait s)

  poll_idle-succeeds :
      (o : Otp.Otp) (n : ℕ) (s : S)
      → reg o.base_addr Otp.reg_status ≡ otp_status_addr
      → otp_wait s < n
      → (Otp.poll_idle o n s).0 ≡ ok tt
  unfolding Otp.poll_idle read_reg
  poll_idle-succeeds o zero s at h = absurd (omega arith)
  poll_idle-succeeds o (suc n) s at h =
      let s' = (bus.load (reg o.base_addr Otp.reg_status) s).1 in
      let seen : OtpLoad (reg o.base_addr Otp.reg_status) s =
        subst (λ a. OtpLoad a s) (sym at) (k.otp_falls s) in
      elim (Bool-cases
        (any_set (u32 (bus.load (reg o.base_addr Otp.reg_status) s).0) Otp.status_idle)) [
          | inl idle ↦ rw idle refl
          | inr busy ↦ rw busy (poll_idle-succeeds o n s' at (sooner (λ idle. cc) seen h))
        ]

  busy_polls :
      (w : World S) (polls : ℕ)
      → reg w.env.soc_manager.soc_mbox_addr mbox_status ≡ mbox_status_addr
      → (is_mailbox_busy w.env.soc_manager w.device).0 ≡ true
      → mbox_wait w.device < suc polls
      → mbox_wait (is_mailbox_busy w.env.soc_manager w.device).1 < polls
  unfolding is_mailbox_busy read_reg
  busy_polls w polls at busy h =
      sooner (λ free. cc) (subst (λ a. MboxLoad a w.device) (sym at) (k.mbox_falls w.device)) h

  poll_ready-succeeds :
      (polls : ℕ) (w : World S)
      → reg w.env.soc_manager.soc_mbox_addr mbox_status ≡ mbox_status_addr
      → mbox_wait w.device < polls
      → (poll_ready polls w).0 ≡ ok tt
  unfolding poll_ready delay
  poll_ready-succeeds zero w at h = absurd (omega arith)
  poll_ready-succeeds (suc polls) w at h =
      elim (Bool-cases (is_mailbox_busy w.env.soc_manager w.device).0) [
        | inl busy ↦
            rw (busy, more (busy_polls w polls at busy h))
              (poll_ready-succeeds polls _ at (busy_polls w polls at busy h))
        | inr free ↦ rw free refl
      ]
    where
      more : {n polls : ℕ} → n < polls → (polls == 0) ≡ false
      more h = ground arith

  module _ {cell : ℕ → S → ℕ} (d : IsStorage bus IsFlowStatus cell) where
    abbrev Anything : McuError → World S → Type 0
    Anything e w = Unit {0}

    init-ok : {ms cp : ℕ} (w : World S) → IsAt cell ms cp w → (init_peripherals w).0 ≡ ok tt
    unfolding init_peripherals I3c.init Otp.init Otp.wait_for_idle
    init-ok w h =
        poll_idle-succeeds w.env.otp Otp.default_timeout_cycles _ (omega (arith, h.otp_at))
          (k.otp_soon _)

    ready-ok : {ms cp : ℕ} (w : World S) → IsAt cell ms cp w → (wait_caliptra_ready w).0 ≡ ok tt
    unfolding wait_caliptra_ready
    ready-ok w h =
        poll_ready-succeeds ready_timeout w (omega (arith, h.mbox_at)) (k.mbox_soon w.device)

    init-Ensures :
        {ms cp : ℕ} (w : World S)
        → IsAt cell ms cp w
        → Ensures (IsAt cell ms cp) Never (init_peripherals w)
    init-Ensures w h =
        succeeds {E = Anything} (init_peripherals-IsAt d (λ w' h'. tt) w h) (init-ok w h)

    ready-Ensures :
        {ms cp : ℕ} (w : World S)
        → IsAt cell ms cp w
        → Ensures (IsAt cell ms cp) Never (wait_caliptra_ready w)
    ready-Ensures w h = succeeds {E = Anything} (wait-IsAt d (λ w' h'. tt) w h) (ready-ok w h)

    -- On the emulator's memory map, over a device whose flow status register is plain storage, and
    -- whose fuse controller and mailbox are busy for fewer loads of their status than the ROM polls:
    -- from milestones `ms` a cold boot succeeds, with the milestones 0x27 added and checkpoint 386
    -- (cold boot flow complete).
    pub cold_boot-succeeds :
        {ms cp : ℕ} (w : World S)
        → IsAt cell ms cp w
        → Ensures
            (IsAt cell (bit_or 0x20 (bit_or 4 (bit_or 2 (bit_or 1 ms)))) 386)
            Never
            (cold_boot w)
    cold_boot-succeeds = cold_boot-IsAt d init-Ensures ready-Ensures
