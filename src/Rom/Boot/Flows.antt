-- ===== src/Rom/Boot/Flows.antt =====
-- The boot flows without hardware work of their own: each always completes.
use mcu_fw_cpp.Prelude.{ℕ, bit_or}
use mcu_fw_cpp.Bus.{Bus}
use mcu_fw_cpp.Bus.Storage.{IsStorage}
use mcu_fw_cpp.Error.{McuError}
use mcu_fw_cpp.Error.Ensures.{Ensures, ◌⨾◌}
use mcu_fw_cpp.Rom.BootStatus.{McuRomBootStatus, BootMilestone}
use mcu_fw_cpp.Rom.Env.{World}
use mcu_fw_cpp.Rom.Boot.{warm_boot, fw_boot, fw_hitless_update, flash_recovery}
use mcu_fw_cpp.Rom.Boot.Progress.{IsFlowStatus, IsAt, checkpoint-IsAt, milestone-IsAt}

-- No failure.
abbrev pub Never : {S : Type 0} → McuError → World S → Type 0
Never e w = ⊥

module _ {S : Type 0} ⦃bus : Bus S⦄ {cell : ℕ → S → ℕ} (d : IsStorage bus IsFlowStatus cell) where
  -- Over a device whose flow status register is plain storage, from milestones `ms`, the warm boot,
  -- firmware boot, hitless update and flash recovery flows always succeed, and leave respectively
  -- milestone 0x40 added with checkpoint 388, milestone 0x80 added with checkpoint 390, the
  -- milestones unchanged with checkpoint 392, and milestone 0x10 added with checkpoint 260.
  pub short_flows-progress :
      {ms cp : ℕ} (w : World S)
      → IsAt cell ms cp w
      → Ensures (IsAt cell (bit_or 0x40 ms) 388) Never (warm_boot w)
        × Ensures (IsAt cell (bit_or 0x80 ms) 390) Never (fw_boot w)
        × Ensures (IsAt cell ms 392) Never (fw_hitless_update w)
        × Ensures (IsAt cell (bit_or 0x10 ms) 260) Never (flash_recovery w)
  unfolding warm_boot fw_boot fw_hitless_update flash_recovery
  short_flows-progress {ms} {cp} w h = (warm w h, firmware w h, hitless w h, flash w h)
    where
      warm :
          (w : World S)
          → IsAt cell ms cp w
          → Ensures (IsAt cell (bit_or 0x40 ms) 388) Never (warm_boot w)
      warm =
          checkpoint-IsAt d McuRomBootStatus.warm_reset_flow_started
          ⨾ milestone-IsAt d BootMilestone.warm_reset_flow_complete
          ⨾ checkpoint-IsAt d McuRomBootStatus.warm_reset_flow_complete

      firmware :
          (w : World S)
          → IsAt cell ms cp w
          → Ensures (IsAt cell (bit_or 0x80 ms) 390) Never (fw_boot w)
      firmware =
          checkpoint-IsAt d McuRomBootStatus.firmware_boot_flow_started
          ⨾ checkpoint-IsAt d McuRomBootStatus.firmware_validation_complete
          ⨾ milestone-IsAt d BootMilestone.firmware_boot_flow_complete
          ⨾ checkpoint-IsAt d McuRomBootStatus.firmware_boot_flow_complete

      hitless :
          (w : World S) → IsAt cell ms cp w → Ensures (IsAt cell ms 392) Never (fw_hitless_update w)
      hitless =
          checkpoint-IsAt d McuRomBootStatus.hitless_update_flow_started
          ⨾ checkpoint-IsAt d McuRomBootStatus.hitless_update_flow_complete

      flash :
          (w : World S)
          → IsAt cell ms cp w
          → Ensures (IsAt cell (bit_or 0x10 ms) 260) Never (flash_recovery w)
      flash =
          checkpoint-IsAt d McuRomBootStatus.flash_recovery_flow_started
          ⨾ milestone-IsAt d BootMilestone.flash_recovery_flow_completed
          ⨾ checkpoint-IsAt d McuRomBootStatus.flash_recovery_flow_complete
