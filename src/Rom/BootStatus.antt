-- ===== src/Rom/BootStatus.antt =====
-- Boot status codes and milestones (rom/include/rom/boot_status.hpp).
pub mod Milestones
pub mod Codes
pub mod Observed
use mcu_fw_cpp.Prelude.{ℕ, ◌+◌, bit_and, bit_or, Bool, ◌==◌}

abbrev pub rom_initialization_base : ℕ
rom_initialization_base = 1

abbrev pub lifecycle_management_base : ℕ
lifecycle_management_base = 65

abbrev pub otp_fuse_operations_base : ℕ
otp_fuse_operations_base = 129

abbrev pub caliptra_setup_base : ℕ
caliptra_setup_base = 193

abbrev pub firmware_loading_base : ℕ
firmware_loading_base = 257

abbrev pub field_entropy_base : ℕ
field_entropy_base = 321

abbrev pub boot_flow_base : ℕ
boot_flow_base = 385

pub data McuRomBootStatus : Type 0 where
  rom_started mcu_memory_map_initialized straps_loaded mcu_registers_initialized : McuRomBootStatus
  soc_manager_initialized mci_initialized reset_reason_detected : McuRomBootStatus
  lifecycle_controller_initialized lifecycle_transition_started : McuRomBootStatus
  lifecycle_transition_complete lifecycle_token_burning_started : McuRomBootStatus
  lifecycle_token_burning_complete : McuRomBootStatus
  otp_controller_initialized watchdog_configured : McuRomBootStatus
  caliptra_boot_go_asserted i3c_initialized caliptra_ready_for_fuses : McuRomBootStatus
  axi_users_configured fuses_populated_to_caliptra mcu_mbox_axi_users_configured : McuRomBootStatus
  ss_config_done_sticky_set ss_config_done_set pk_hash_verified : McuRomBootStatus
  mcu_mbox_axi_users_verified fuse_write_complete caliptra_ready_for_mailbox : McuRomBootStatus
  device_ownership_transfer_flash_read device_ownership_transfer_started : McuRomBootStatus
  device_ownership_derive_stable_key device_ownership_burn_fuses : McuRomBootStatus
  device_ownership_determine_owner device_ownership_transfer_complete : McuRomBootStatus
  ri_download_firmware_command_sent ri_download_firmware_complete : McuRomBootStatus
  flash_recovery_flow_started flash_recovery_flow_complete : McuRomBootStatus
  firmware_ready_detected firmware_validation_complete caliptra_runtime_ready : McuRomBootStatus
  field_entropy_programming_started field_entropy_partition0_complete : McuRomBootStatus
  field_entropy_partition1_complete field_entropy_partition2_complete : McuRomBootStatus
  field_entropy_partition3_complete field_entropy_programming_complete : McuRomBootStatus
  cold_boot_flow_started cold_boot_flow_complete warm_reset_flow_started : McuRomBootStatus
  warm_reset_flow_complete firmware_boot_flow_started firmware_boot_flow_complete : McuRomBootStatus
  hitless_update_flow_started hitless_update_flow_complete : McuRomBootStatus

-- `static_cast<std::uint16_t>(status)`
abbrev pub status_code : McuRomBootStatus → ℕ
status_code rom_started = rom_initialization_base
status_code mcu_memory_map_initialized = rom_initialization_base + 1
status_code straps_loaded = rom_initialization_base + 2
status_code mcu_registers_initialized = rom_initialization_base + 3
status_code soc_manager_initialized = rom_initialization_base + 4
status_code mci_initialized = rom_initialization_base + 5
status_code reset_reason_detected = rom_initialization_base + 6
status_code lifecycle_controller_initialized = lifecycle_management_base
status_code lifecycle_transition_started = lifecycle_management_base + 1
status_code lifecycle_transition_complete = lifecycle_management_base + 2
status_code lifecycle_token_burning_started = lifecycle_management_base + 3
status_code lifecycle_token_burning_complete = lifecycle_management_base + 4
status_code otp_controller_initialized = otp_fuse_operations_base
status_code watchdog_configured = otp_fuse_operations_base + 1
status_code caliptra_boot_go_asserted = caliptra_setup_base
status_code i3c_initialized = caliptra_setup_base + 1
status_code caliptra_ready_for_fuses = caliptra_setup_base + 2
status_code axi_users_configured = caliptra_setup_base + 3
status_code fuses_populated_to_caliptra = caliptra_setup_base + 4
status_code mcu_mbox_axi_users_configured = caliptra_setup_base + 5
status_code ss_config_done_sticky_set = caliptra_setup_base + 6
status_code ss_config_done_set = caliptra_setup_base + 7
status_code pk_hash_verified = caliptra_setup_base + 8
status_code mcu_mbox_axi_users_verified = caliptra_setup_base + 9
status_code fuse_write_complete = caliptra_setup_base + 10
status_code caliptra_ready_for_mailbox = caliptra_setup_base + 11
status_code device_ownership_transfer_flash_read = caliptra_setup_base + 12
status_code device_ownership_transfer_started = caliptra_setup_base + 13
status_code device_ownership_derive_stable_key = caliptra_setup_base + 14
status_code device_ownership_burn_fuses = caliptra_setup_base + 15
status_code device_ownership_determine_owner = caliptra_setup_base + 16
status_code device_ownership_transfer_complete = caliptra_setup_base + 17
status_code ri_download_firmware_command_sent = firmware_loading_base
status_code ri_download_firmware_complete = firmware_loading_base + 1
status_code flash_recovery_flow_started = firmware_loading_base + 2
status_code flash_recovery_flow_complete = firmware_loading_base + 3
status_code firmware_ready_detected = firmware_loading_base + 4
status_code firmware_validation_complete = firmware_loading_base + 5
status_code caliptra_runtime_ready = firmware_loading_base + 6
status_code field_entropy_programming_started = field_entropy_base
status_code field_entropy_partition0_complete = field_entropy_base + 1
status_code field_entropy_partition1_complete = field_entropy_base + 2
status_code field_entropy_partition2_complete = field_entropy_base + 3
status_code field_entropy_partition3_complete = field_entropy_base + 4
status_code field_entropy_programming_complete = field_entropy_base + 5
status_code cold_boot_flow_started = boot_flow_base
status_code cold_boot_flow_complete = boot_flow_base + 1
status_code warm_reset_flow_started = boot_flow_base + 2
status_code warm_reset_flow_complete = boot_flow_base + 3
status_code firmware_boot_flow_started = boot_flow_base + 4
status_code firmware_boot_flow_complete = boot_flow_base + 5
status_code hitless_update_flow_started = boot_flow_base + 6
status_code hitless_update_flow_complete = boot_flow_base + 7

-- The namespace `BootMilestones`.
pub data BootMilestone : Type 0 where
  rom_started cptra_boot_go_asserted cptra_fuses_written ri_download_completed : BootMilestone
  flash_recovery_flow_completed cold_boot_flow_complete warm_reset_flow_complete : BootMilestone
  firmware_boot_flow_complete : BootMilestone

abbrev pub milestone_bit : BootMilestone → ℕ
milestone_bit BootMilestone.rom_started = 0x0001
milestone_bit cptra_boot_go_asserted = 0x0002
milestone_bit cptra_fuses_written = 0x0004
milestone_bit ri_download_completed = 0x0008
milestone_bit flash_recovery_flow_completed = 0x0010
milestone_bit BootMilestone.cold_boot_flow_complete = 0x0020
milestone_bit BootMilestone.warm_reset_flow_complete = 0x0040
milestone_bit BootMilestone.firmware_boot_flow_complete = 0x0080

-- The class `McuBootMilestones`.
pub record McuBootMilestones : Type 0 where
  pub bits : ℕ

unfoldable pub join : McuBootMilestones → McuBootMilestones → McuBootMilestones
join a b = record { bits = bit_or a.bits b.bits }

unfoldable pub meet : McuBootMilestones → McuBootMilestones → McuBootMilestones
meet a b = record { bits = bit_and a.bits b.bits }

unfoldable pub contains : McuBootMilestones → ℕ → Bool
contains m flag = bit_and m.bits flag == flag
