-- ===== src/Rom/BootStatus/Milestones.antt =====
-- The milestones as single bits.
use mcu_fw_cpp.Prelude.{ℕ, ◌^◌, ◌<◌, ◌≡◌, refl, arith, ◌==◌, if◌then◌else◌}
use mcu_fw_cpp.Prelude.Bits.{bit}
use mcu_fw_cpp.Rom.BootStatus.{BootMilestone, milestone_bit}

-- The number of a milestone's bit.
abbrev pub bit_index : BootMilestone → ℕ
bit_index BootMilestone.rom_started = 0
bit_index BootMilestone.cptra_boot_go_asserted = 1
bit_index BootMilestone.cptra_fuses_written = 2
bit_index BootMilestone.ri_download_completed = 3
bit_index BootMilestone.flash_recovery_flow_completed = 4
bit_index BootMilestone.cold_boot_flow_complete = 5
bit_index BootMilestone.warm_reset_flow_complete = 6
bit_index BootMilestone.firmware_boot_flow_complete = 7

pub bit-milestone_bit :
    (m n : BootMilestone)
    → bit (bit_index m) (milestone_bit n) ≡ (if bit_index m == bit_index n then 1 else 0)
bit-milestone_bit m n = ground arith

pub milestone_bit-pow : (m : BootMilestone) → milestone_bit m ≡ 2 ^ bit_index m
milestone_bit-pow BootMilestone.rom_started = refl
milestone_bit-pow BootMilestone.cptra_boot_go_asserted = refl
milestone_bit-pow BootMilestone.cptra_fuses_written = refl
milestone_bit-pow BootMilestone.ri_download_completed = refl
milestone_bit-pow BootMilestone.flash_recovery_flow_completed = refl
milestone_bit-pow BootMilestone.cold_boot_flow_complete = refl
milestone_bit-pow BootMilestone.warm_reset_flow_complete = refl
milestone_bit-pow BootMilestone.firmware_boot_flow_complete = refl

pub milestone_bit-lt : (m : BootMilestone) → milestone_bit m < 2 ^ 16
milestone_bit-lt m = ground arith

pub milestone_bit-pos : (m : BootMilestone) → 0 < milestone_bit m
milestone_bit-pos m = ground arith
