-- ===== src/Rom/BootStatus/Codes.antt =====
-- The status codes tell the statuses apart.
use mcu_fw_cpp.Prelude.{
  ℕ, ◌^◌, ◌<◌, ◌≡◌, refl, sym, ap, ◌∙◌, arith, ◌==◌, List, [], ◌∷◌, Option, none, some,
  if◌then◌else◌,
}
use mcu_fw_cpp.Rom.BootStatus.{
  McuRomBootStatus, status_code, mcu_memory_map_initialized, straps_loaded,
  mcu_registers_initialized, soc_manager_initialized, mci_initialized, reset_reason_detected,
  lifecycle_controller_initialized, lifecycle_transition_started, lifecycle_transition_complete,
  lifecycle_token_burning_started, lifecycle_token_burning_complete, otp_controller_initialized,
  watchdog_configured, caliptra_boot_go_asserted, i3c_initialized, caliptra_ready_for_fuses,
  axi_users_configured, fuses_populated_to_caliptra, mcu_mbox_axi_users_configured,
  ss_config_done_sticky_set, ss_config_done_set, pk_hash_verified, mcu_mbox_axi_users_verified,
  fuse_write_complete, caliptra_ready_for_mailbox, device_ownership_transfer_flash_read,
  device_ownership_transfer_started, device_ownership_derive_stable_key,
  device_ownership_burn_fuses, device_ownership_determine_owner, device_ownership_transfer_complete,
  ri_download_firmware_command_sent, ri_download_firmware_complete, flash_recovery_flow_started,
  flash_recovery_flow_complete, firmware_ready_detected, firmware_validation_complete,
  caliptra_runtime_ready, field_entropy_programming_started, field_entropy_partition0_complete,
  field_entropy_partition1_complete, field_entropy_partition2_complete,
  field_entropy_partition3_complete, field_entropy_programming_complete, cold_boot_flow_started,
  warm_reset_flow_started, firmware_boot_flow_started, hitless_update_flow_started,
  hitless_update_flow_complete,
}

abbrev all_statuses : List McuRomBootStatus
all_statuses =
    McuRomBootStatus.rom_started ∷ mcu_memory_map_initialized ∷ straps_loaded
    ∷ mcu_registers_initialized ∷ soc_manager_initialized ∷ mci_initialized ∷ reset_reason_detected
    ∷ lifecycle_controller_initialized ∷ lifecycle_transition_started
    ∷ lifecycle_transition_complete ∷ lifecycle_token_burning_started
    ∷ lifecycle_token_burning_complete ∷ otp_controller_initialized ∷ watchdog_configured
    ∷ caliptra_boot_go_asserted ∷ i3c_initialized ∷ caliptra_ready_for_fuses ∷ axi_users_configured
    ∷ fuses_populated_to_caliptra ∷ mcu_mbox_axi_users_configured ∷ ss_config_done_sticky_set
    ∷ ss_config_done_set ∷ pk_hash_verified ∷ mcu_mbox_axi_users_verified ∷ fuse_write_complete
    ∷ caliptra_ready_for_mailbox ∷ device_ownership_transfer_flash_read
    ∷ device_ownership_transfer_started ∷ device_ownership_derive_stable_key
    ∷ device_ownership_burn_fuses ∷ device_ownership_determine_owner
    ∷ device_ownership_transfer_complete ∷ ri_download_firmware_command_sent
    ∷ ri_download_firmware_complete ∷ flash_recovery_flow_started ∷ flash_recovery_flow_complete
    ∷ firmware_ready_detected ∷ firmware_validation_complete ∷ caliptra_runtime_ready
    ∷ field_entropy_programming_started ∷ field_entropy_partition0_complete
    ∷ field_entropy_partition1_complete ∷ field_entropy_partition2_complete
    ∷ field_entropy_partition3_complete ∷ field_entropy_programming_complete
    ∷ cold_boot_flow_started ∷ McuRomBootStatus.cold_boot_flow_complete ∷ warm_reset_flow_started
    ∷ McuRomBootStatus.warm_reset_flow_complete ∷ firmware_boot_flow_started
    ∷ McuRomBootStatus.firmware_boot_flow_complete ∷ hitless_update_flow_started
    ∷ hitless_update_flow_complete ∷ []

-- The status with a code.
find_code : ℕ → List McuRomBootStatus → Option McuRomBootStatus
find_code n [] = none
find_code n (st ∷ rest) = if status_code st == n then some st else find_code n rest

find_code-status_code : (st : McuRomBootStatus) → find_code (status_code st) all_statuses ≡ some st
unfolding find_code
find_code-status_code McuRomBootStatus.rom_started = refl
find_code-status_code mcu_memory_map_initialized = refl
find_code-status_code straps_loaded = refl
find_code-status_code mcu_registers_initialized = refl
find_code-status_code soc_manager_initialized = refl
find_code-status_code mci_initialized = refl
find_code-status_code reset_reason_detected = refl
find_code-status_code lifecycle_controller_initialized = refl
find_code-status_code lifecycle_transition_started = refl
find_code-status_code lifecycle_transition_complete = refl
find_code-status_code lifecycle_token_burning_started = refl
find_code-status_code lifecycle_token_burning_complete = refl
find_code-status_code otp_controller_initialized = refl
find_code-status_code watchdog_configured = refl
find_code-status_code caliptra_boot_go_asserted = refl
find_code-status_code i3c_initialized = refl
find_code-status_code caliptra_ready_for_fuses = refl
find_code-status_code axi_users_configured = refl
find_code-status_code fuses_populated_to_caliptra = refl
find_code-status_code mcu_mbox_axi_users_configured = refl
find_code-status_code ss_config_done_sticky_set = refl
find_code-status_code ss_config_done_set = refl
find_code-status_code pk_hash_verified = refl
find_code-status_code mcu_mbox_axi_users_verified = refl
find_code-status_code fuse_write_complete = refl
find_code-status_code caliptra_ready_for_mailbox = refl
find_code-status_code device_ownership_transfer_flash_read = refl
find_code-status_code device_ownership_transfer_started = refl
find_code-status_code device_ownership_derive_stable_key = refl
find_code-status_code device_ownership_burn_fuses = refl
find_code-status_code device_ownership_determine_owner = refl
find_code-status_code device_ownership_transfer_complete = refl
find_code-status_code ri_download_firmware_command_sent = refl
find_code-status_code ri_download_firmware_complete = refl
find_code-status_code flash_recovery_flow_started = refl
find_code-status_code flash_recovery_flow_complete = refl
find_code-status_code firmware_ready_detected = refl
find_code-status_code firmware_validation_complete = refl
find_code-status_code caliptra_runtime_ready = refl
find_code-status_code field_entropy_programming_started = refl
find_code-status_code field_entropy_partition0_complete = refl
find_code-status_code field_entropy_partition1_complete = refl
find_code-status_code field_entropy_partition2_complete = refl
find_code-status_code field_entropy_partition3_complete = refl
find_code-status_code field_entropy_programming_complete = refl
find_code-status_code cold_boot_flow_started = refl
find_code-status_code McuRomBootStatus.cold_boot_flow_complete = refl
find_code-status_code warm_reset_flow_started = refl
find_code-status_code McuRomBootStatus.warm_reset_flow_complete = refl
find_code-status_code firmware_boot_flow_started = refl
find_code-status_code McuRomBootStatus.firmware_boot_flow_complete = refl
find_code-status_code hitless_update_flow_started = refl
find_code-status_code hitless_update_flow_complete = refl

pub status_code-injective : (a b : McuRomBootStatus) → status_code a ≡ status_code b → a ≡ b
status_code-injective a b e =
    let same : some a ≡ some b =
      sym (find_code-status_code a)
      ∙ ap (λ (n : ℕ). find_code n all_statuses) e
      ∙ find_code-status_code b in
    cc

-- A code fits the checkpoint's 16 bits.
pub status_code-lt : (st : McuRomBootStatus) → status_code st < 2 ^ 16
status_code-lt st = ground arith
