-- ===== src/Rom/Start.antt =====
-- The entry point `rom_start` (rom/src/rom.cpp).
pub mod Progress
use mcu_fw_cpp.Prelude.{ℕ, Bool, true, false}
use mcu_fw_cpp.Bus.{Bus, Hw}
use mcu_fw_cpp.Error.{McuError, McuResult, ok, err, error_code, boot_invalid_reset_reason, Try}
use mcu_fw_cpp.Mci
use mcu_fw_cpp.Mci.Regs.{
  McuResetReason, cold_boot, warm_reset, firmware_boot_reset, firmware_hitless_update, invalid,
}
use mcu_fw_cpp.Rom.BootStatus.{BootMilestone, milestone_bit}
use mcu_fw_cpp.Rom.Env.{RomEnv, World, with_device}
use mcu_fw_cpp.Rom.Boot

-- How the ROM ends: in the endless loop behind the `switch`, or in the fatal error handler.
pub data RomEnd : Type 0 where
  idle_loop : RomEnd
  fatal_handler : ℕ → RomEnd

module _ {S : Type 0} ⦃bus : Bus S⦄ where
  -- A flow is called for its effect: its result is not looked at.
  abbrev pub run_flow : Try (World S) (Unit {0}) → World S → RomEnd × World S
  run_flow flow w = (idle_loop, (flow w).1)

  -- The `switch` on the reset reason.
  unfoldable pub dispatch : McuResetReason → World S → RomEnd × World S
  dispatch cold_boot w = run_flow Boot.cold_boot w
  dispatch warm_reset w = run_flow Boot.warm_boot w
  dispatch firmware_boot_reset w = run_flow Boot.fw_boot w
  dispatch firmware_hitless_update w = run_flow Boot.fw_hitless_update w
  dispatch invalid w = (fatal_handler (error_code boot_invalid_reset_reason), w)

  -- A call on the MCI whose result is only printed.
  abbrev observe : {A : Type 0} → (Mci.Mci → Hw S A) → World S → World S
  observe f w = with_device w (f w.env.mci w.device).1

  -- The state in which the reset reason is read for the `switch`.
  unfoldable pub greet : World S → World S
  greet w =
      let w₁ =
        observe (λ m. Mci.set_flow_milestone m (milestone_bit BootMilestone.rom_started)) w in
      let w₂ = observe (λ m. Mci.device_lifecycle_state m) w₁ in
      let w₃ = observe (λ m. Mci.generic_input_wires m 0) w₂ in
      let w₄ = observe (λ m. Mci.generic_input_wires m 1) w₃ in observe (λ m. Mci.reset_reason m) w₄

  unfoldable pub rom_start : World S → RomEnd × World S
  unfolding greet dispatch
  rom_start w =
      let w' = greet w in
      let (reason, s') = Mci.reset_reason_enum w'.env.mci w'.device in
      dispatch reason (with_device w' s')
