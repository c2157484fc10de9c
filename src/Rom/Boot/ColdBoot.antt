-- ===== src/Rom/Boot/ColdBoot.antt =====
-- The cold boot flow, from its first checkpoint to its end or to the step that failed.
use mcu_fw_cpp.Prelude.{
  ℕ, zero, suc, ◌≡◌, ◌⊎◌, inl, inr, refl, bit_or, arith, Bool-cases, ◌==◌, if◌then◌else◌,
}
use mcu_fw_cpp.Bus.{Bus}
use mcu_fw_cpp.Bus.Storage.{IsStorage, read_reg-keeps, write_reg-keeps}
use mcu_fw_cpp.Error.{McuError, err, timeout}
use mcu_fw_cpp.Error.Ensures.{Ensures, done, failed, ◌⨾◌}
use mcu_fw_cpp.Mci
use mcu_fw_cpp.Otp
use mcu_fw_cpp.I3c
use mcu_fw_cpp.SocManager.{CaliptraSoc, is_mailbox_busy, delay, mbox_status}
use mcu_fw_cpp.Rom.BootStatus.{McuRomBootStatus, BootMilestone}
use mcu_fw_cpp.Rom.Env.{World, with_device}
use mcu_fw_cpp.Rom.Boot.{
  cold_boot, init_peripherals, configure_caliptra, poll_ready, wait_caliptra_ready, ready_timeout,
  device_ownership_transfer, determine_owner, transfer_if, is_transfer_pending,
}
use mcu_fw_cpp.Rom.Boot.Progress.{
  IsFlowStatus, flow_status_addr, IsAt, checkpoint-IsAt, milestone-IsAt, kept-IsAt, i3c_init_keeps,
  otp_init-Held, try_env-IsAt,
}

module _ {S : Type 0} ⦃bus : Bus S⦄ {cell : ℕ → S → ℕ} (d : IsStorage bus IsFlowStatus cell) where
  busy_keeps :
      (c : CaliptraSoc) (s : S)
      → cell flow_status_addr (is_mailbox_busy c s).1 ≡ cell flow_status_addr s
  unfolding is_mailbox_busy
  busy_keeps c s = read_reg-keeps d c.soc_mbox_addr mbox_status flow_status_addr s refl

  abbrev delayed : World S → World S
  delayed w = record w { env = record w.env { soc_manager = delay w.env.soc_manager } }

  delayed-IsAt :
      {ms cp : ℕ} (w : World S)
      → IsAt cell ms cp w
      → IsAt cell ms cp (record w { env = record w.env { soc_manager = delay w.env.soc_manager } })
  unfolding delay
  delayed-IsAt w h = record {
    mci_at = h.mci_at;
    otp_at = h.otp_at;
    i3c_at = h.i3c_at;
    mbox_at = h.mbox_at;
    ms_fits = h.ms_fits;
    cp_fits = h.cp_fits;
    word = h.word;
  }

  module _ {E : McuError → World S → Type 0} where
    pub init_peripherals-IsAt :
        {ms cp : ℕ}
        → ((w' : World S) → IsAt cell ms cp w' → E timeout w')
        → (w : World S) → IsAt cell ms cp w
        → Ensures (IsAt cell ms cp) E (init_peripherals w)
    unfolding init_peripherals I3c.init
    init_peripherals-IsAt fails w h =
        let w₁ = with_device w (I3c.init w.env.i3c w.device).1 in
        let h₁ = kept-IsAt d w w₁.device (i3c_init_keeps d w.env.i3c w.device h.i3c_at) h in
        try_env-IsAt d w₁ (Otp.init w.env.otp w₁.device) h₁ (λ s' h'. fails _ h')
          (otp_init-Held d w.env.otp _ w₁.device refl)

    configure_caliptra-IsAt :
        {ms cp : ℕ} (w : World S)
        → IsAt cell ms cp w
        → Ensures (IsAt cell ms cp) E (configure_caliptra w)
    unfolding configure_caliptra Mci.caliptra_boot_go
    configure_caliptra-IsAt w h = done (
        kept-IsAt d w _
          (write_reg-keeps d w.env.mci.base_addr Mci.Regs.reg_cptra_boot_go 1 flow_status_addr
            w.device refl (omega (arith, h.mci_at)))
          h)

    poll_busy-IsAt :
        {ms cp : ℕ} (polls : ℕ) (w : World S)
        → IsAt cell ms cp w
        → ((w' : World S) → IsAt cell ms cp w' → E timeout w')
        → ((w' : World S) → IsAt cell ms cp w' → Ensures (IsAt cell ms cp) E (poll_ready polls w'))
        → Ensures
            (IsAt cell ms cp)
            E
            (if polls == 0 then (err timeout, w) else poll_ready polls (delayed w))
    poll_busy-IsAt polls w h fails next = elim (Bool-cases (polls == 0)) [
      | inl last ↦ rw last (failed (fails w h))
      | inr more ↦ rw more (next (delayed w) (delayed-IsAt w h))
    ]

    poll_ready-IsAt :
        {ms cp : ℕ} (polls : ℕ) (w : World S)
        → IsAt cell ms cp w
        → ((w' : World S) → IsAt cell ms cp w' → E timeout w')
        → Ensures (IsAt cell ms cp) E (poll_ready polls w)
    unfolding poll_ready
    poll_ready-IsAt zero w h fails = failed (fails w h)
    poll_ready-IsAt (suc polls) w h fails =
        let w' = with_device w (is_mailbox_busy w.env.soc_manager w.device).1 in
        let h' = kept-IsAt d w w'.device (busy_keeps w.env.soc_manager w.device) h in
        elim (Bool-cases (is_mailbox_busy w.env.soc_manager w.device).0) [
          | inl busy ↦ rw busy (
              poll_busy-IsAt polls w' h' fails
                (λ (w'' : World S) h''. poll_ready-IsAt polls w'' h'' fails))
          | inr free ↦ rw free (done h')
        ]

    pub wait-IsAt :
        {ms cp : ℕ}
        → ((w' : World S) → IsAt cell ms cp w' → E timeout w')
        → (w : World S) → IsAt cell ms cp w
        → Ensures (IsAt cell ms cp) E (wait_caliptra_ready w)
    unfolding wait_caliptra_ready
    wait-IsAt fails w h = poll_ready-IsAt ready_timeout w h fails

    transfer-IsAt :
        {ms cp : ℕ} (w : World S)
        → IsAt cell ms cp w
        → Ensures (IsAt cell ms 210) E (device_ownership_transfer w)
    unfolding device_ownership_transfer determine_owner transfer_if is_transfer_pending
    transfer-IsAt =
        checkpoint-IsAt d McuRomBootStatus.device_ownership_transfer_started
        ⨾ checkpoint-IsAt d McuRomBootStatus.device_ownership_transfer_flash_read
        ⨾ checkpoint-IsAt d McuRomBootStatus.device_ownership_determine_owner
        ⨾ checkpoint-IsAt d McuRomBootStatus.device_ownership_transfer_complete

  -- Where a cold boot from milestones `ms` that timed out has stopped.
  abbrev pub Stopped : ℕ → McuError → World S → Type 0
  Stopped ms e w =
      (e ≡ timeout)
      × (IsAt cell (bit_or 1 ms) 3 w ⊎ IsAt cell (bit_or 4 (bit_or 2 (bit_or 1 ms))) 197 w)

  -- The flow by its two steps that can fail.
  pub cold_boot-IsAt :
      {E : McuError → World S → Type 0} {ms cp : ℕ}
      → ((w : World S)
          → IsAt cell (bit_or 1 ms) 3 w
          → Ensures (IsAt cell (bit_or 1 ms) 3) E (init_peripherals w))
      → ((w : World S)
          → IsAt cell (bit_or 4 (bit_or 2 (bit_or 1 ms))) 197 w
          → Ensures (IsAt cell (bit_or 4 (bit_or 2 (bit_or 1 ms))) 197) E (wait_caliptra_ready w))
      → (w : World S) → IsAt cell ms cp w
      → Ensures (IsAt cell (bit_or 0x20 (bit_or 4 (bit_or 2 (bit_or 1 ms)))) 386) E (cold_boot w)
  unfolding cold_boot
  cold_boot-IsAt peripherals ready =
      checkpoint-IsAt d McuRomBootStatus.cold_boot_flow_started
      ⨾ milestone-IsAt d BootMilestone.rom_started
      ⨾ checkpoint-IsAt d McuRomBootStatus.mcu_memory_map_initialized
      ⨾ checkpoint-IsAt d McuRomBootStatus.straps_loaded
      ⨾ peripherals
      ⨾ checkpoint-IsAt d McuRomBootStatus.mcu_registers_initialized
      ⨾ configure_caliptra-IsAt
      ⨾ milestone-IsAt d BootMilestone.cptra_boot_go_asserted
      ⨾ checkpoint-IsAt d McuRomBootStatus.caliptra_boot_go_asserted
      ⨾ milestone-IsAt d BootMilestone.cptra_fuses_written
      ⨾ checkpoint-IsAt d McuRomBootStatus.fuses_populated_to_caliptra
      ⨾ ready
      ⨾ checkpoint-IsAt d McuRomBootStatus.caliptra_ready_for_mailbox
      ⨾ transfer-IsAt
      ⨾ checkpoint-IsAt d McuRomBootStatus.device_ownership_transfer_complete
      ⨾ milestone-IsAt d BootMilestone.cold_boot_flow_complete
      ⨾ checkpoint-IsAt d McuRomBootStatus.cold_boot_flow_complete

  -- Over a device whose flow status register is plain storage, from milestones `ms`, a cold boot
  -- ends: it succeeds with the milestones 0x27 added and checkpoint 386 (cold boot flow complete),
  -- or it fails with TIMEOUT, either in the peripherals' initialization, with milestone 0x01 added
  -- and checkpoint 3 (straps loaded), or waiting for Caliptra, with milestones 0x07 added and
  -- checkpoint 197 (fuses populated to Caliptra).
  pub cold_boot-progress :
      {ms cp : ℕ} (w : World S)
      → IsAt cell ms cp w
      → Ensures
          (IsAt cell (bit_or 0x20 (bit_or 4 (bit_or 2 (bit_or 1 ms)))) 386)
          (Stopped ms)
          (cold_boot w)
  cold_boot-progress =
      cold_boot-IsAt (init_peripherals-IsAt (λ (w' : World S) h'. (refl, inl h')))
        (wait-IsAt (λ (w' : World S) h'. (refl, inr h')))
