-- ===== src/Rom/Boot.antt =====
-- The boot flows: rom/src/cold_boot.cpp, warm_boot.cpp, fw_boot.cpp, fw_hitless_update.cpp,
-- recovery.cpp and device_ownership_transfer.cpp.
mod Steps
pub mod Progress
pub mod ColdBoot
pub mod Flows
pub mod Healthy
use mcu_fw_cpp.Prelude.{ℕ, zero, suc, Bool, true, false, ◌==◌, if◌then◌else◌}
use mcu_fw_cpp.Bus.{Bus}
use mcu_fw_cpp.Error.{McuError, McuResult, ok, err, timeout, Try, ◌>>=◌, ◌>>◌, pure}
use mcu_fw_cpp.Mci
use mcu_fw_cpp.Otp
use mcu_fw_cpp.I3c
use mcu_fw_cpp.SocManager.{is_mailbox_busy, delay}
use mcu_fw_cpp.Rom.BootStatus
use mcu_fw_cpp.Rom.BootStatus.{McuRomBootStatus, status_code, BootMilestone, milestone_bit}
use Steps.{
  init_memory_map, load_straps, populate_fuses, load_firmware, restore_context, verify_runtime,
  resume_runtime, validate_firmware, validate_new_firmware, swap_firmware, commit_update,
  validate_recovery_image, load_recovery_image, read_ownership_flash, derive_stable_key, burn_fuses,
  complete_transfer,
}
use mcu_fw_cpp.Rom.Env.{RomEnv, World, with_device, on_env, try_env}

pub data OwnershipState : Type 0 where
  no_owner owner_exists transfer_pending transfer_complete : OwnershipState

-- `state == OwnershipState::TransferPending`
pub is_transfer_pending : OwnershipState → Bool
is_transfer_pending transfer_pending = true
is_transfer_pending _ = false

abbrev pub ready_timeout : ℕ
ready_timeout = 100000

module _ {S : Type 0} ⦃bus : Bus S⦄ where
  unfoldable pub checkpoint : McuRomBootStatus → Try (World S) (Unit {0})
  checkpoint status = on_env (λ env. Mci.set_flow_checkpoint env.mci (status_code status))

  unfoldable pub milestone : BootMilestone → Try (World S) (Unit {0})
  milestone m = on_env (λ env. Mci.set_flow_milestone env.mci (milestone_bit m))

  unfoldable pub determine_owner : Try (World S) OwnershipState
  determine_owner = pure no_owner

  -- The branch of a pending transfer.
  unfoldable pub transfer_if : Bool → Try (World S) (Unit {0})
  transfer_if false = pure tt
  transfer_if true = do
    derive_stable_key
    checkpoint McuRomBootStatus.device_ownership_derive_stable_key
    burn_fuses
    checkpoint McuRomBootStatus.device_ownership_burn_fuses
    complete_transfer

  unfoldable pub device_ownership_transfer : Try (World S) (Unit {0})
  unfolding determine_owner transfer_if is_transfer_pending
  device_ownership_transfer = do
    checkpoint McuRomBootStatus.device_ownership_transfer_started
    read_ownership_flash
    checkpoint McuRomBootStatus.device_ownership_transfer_flash_read
    owner ← determine_owner
    checkpoint McuRomBootStatus.device_ownership_determine_owner
    transfer_if (is_transfer_pending owner)
    checkpoint McuRomBootStatus.device_ownership_transfer_complete

  unfoldable pub init_peripherals : Try (World S) (Unit {0})
  init_peripherals = do try_env (λ env. I3c.init env.i3c); try_env (λ env. Otp.init env.otp)

  unfoldable pub configure_caliptra : Try (World S) (Unit {0})
  configure_caliptra = on_env (λ env. Mci.caliptra_boot_go env.mci)

  -- The loop of `wait_caliptra_ready`, with `polls` decrements left before `--timeout == 0`.
  unfoldable pub poll_ready : ℕ → Try (World S) (Unit {0})
  poll_ready zero w = (err timeout, w)
  poll_ready (suc polls) w =
      let (busy, s') = is_mailbox_busy w.env.soc_manager w.device in
      let waited = record (with_device w s') {
        env = record w.env { soc_manager = delay w.env.soc_manager };
      } in
      let rest = if polls == 0 then (err timeout, with_device w s') else poll_ready polls waited in
      if busy then rest else (ok tt, with_device w s')

  unfoldable pub wait_caliptra_ready : Try (World S) (Unit {0})
  unfolding poll_ready
  wait_caliptra_ready = poll_ready ready_timeout

  unfoldable pub cold_boot : Try (World S) (Unit {0})
  unfolding device_ownership_transfer init_peripherals configure_caliptra wait_caliptra_ready
  cold_boot = do
    checkpoint McuRomBootStatus.cold_boot_flow_started
    milestone BootMilestone.rom_started
    init_memory_map
    checkpoint McuRomBootStatus.mcu_memory_map_initialized
    load_straps
    checkpoint McuRomBootStatus.straps_loaded
    init_peripherals
    checkpoint McuRomBootStatus.mcu_registers_initialized
    configure_caliptra
    milestone BootMilestone.cptra_boot_go_asserted
    checkpoint McuRomBootStatus.caliptra_boot_go_asserted
    populate_fuses
    milestone BootMilestone.cptra_fuses_written
    checkpoint McuRomBootStatus.fuses_populated_to_caliptra
    wait_caliptra_ready
    checkpoint McuRomBootStatus.caliptra_ready_for_mailbox
    device_ownership_transfer
    checkpoint McuRomBootStatus.device_ownership_transfer_complete
    load_firmware
    milestone BootMilestone.cold_boot_flow_complete
    checkpoint McuRomBootStatus.cold_boot_flow_complete

  unfoldable pub warm_boot : Try (World S) (Unit {0})
  warm_boot = do
    checkpoint McuRomBootStatus.warm_reset_flow_started
    restore_context
    verify_runtime
    resume_runtime
    milestone BootMilestone.warm_reset_flow_complete
    checkpoint McuRomBootStatus.warm_reset_flow_complete

  unfoldable pub fw_boot : Try (World S) (Unit {0})
  fw_boot = do
    checkpoint McuRomBootStatus.firmware_boot_flow_started
    validate_firmware
    checkpoint McuRomBootStatus.firmware_validation_complete
    milestone BootMilestone.firmware_boot_flow_complete
    checkpoint McuRomBootStatus.firmware_boot_flow_complete

  unfoldable pub fw_hitless_update : Try (World S) (Unit {0})
  fw_hitless_update = do
    checkpoint McuRomBootStatus.hitless_update_flow_started
    validate_new_firmware
    swap_firmware
    commit_update
    checkpoint McuRomBootStatus.hitless_update_flow_complete

  unfoldable pub flash_recovery : Try (World S) (Unit {0})
  flash_recovery = do
    checkpoint McuRomBootStatus.flash_recovery_flow_started
    validate_recovery_image
    load_recovery_image
    milestone BootMilestone.flash_recovery_flow_completed
    checkpoint McuRomBootStatus.flash_recovery_flow_complete

  unfoldable pub i3c_recovery : Try (World S) (Unit {0})
  i3c_recovery = try_env (λ env. I3c.init env.i3c)
