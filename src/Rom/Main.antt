-- ===== src/Rom/Main.antt =====
-- `main` of platforms/emulator/rom/src/main.cpp, the target build: what it installs, and the ROM.
pub mod Refused
pub mod Booted
use mcu_fw_cpp.Bus.{Bus}
use mcu_fw_cpp.Rom.Env.{make_env, g_mcu_memory_map}
use mcu_fw_cpp.Rom.Fatal.{fatal_error_raw, main_globals}
use mcu_fw_cpp.Rom.Start.{RomEnd, idle_loop, fatal_handler, rom_start}

module _ {S : Type 0} ⦃bus : Bus S⦄ where
  -- The end of the ROM: the loop behind the `switch`, or the fatal error path.
  unfoldable pub end_rom : RomEnd → S → S
  end_rom idle_loop s = s
  end_rom (fatal_handler code) s = fatal_error_raw main_globals code s

  -- The state in which the processor loops for ever.
  unfoldable pub main : S → S
  unfolding end_rom make_env
  main s =
      let (end, w) = rom_start (record { device = s; env = make_env g_mcu_memory_map 0 }) in
      end_rom end w.device
