-- ===== src/Tests/Boot.antt =====
-- The boot flows on a memory whose one-time programmable memory is always idle.
use mcu_fw_cpp.Prelude.{ℕ, ◌≡◌, refl, arith, ◌==◌, if◌then◌else◌}
use mcu_fw_cpp.Prelude.{[], ◌∷◌, none, some}
use mcu_fw_cpp.Bus.Storage.{IsStorage, Memory, memory_bus, memory_bus-IsStorage, narrow}
use mcu_fw_cpp.Error.Ensures.{Ensures}
use mcu_fw_cpp.Rom.Env.{World, make_env, g_mcu_memory_map}
use mcu_fw_cpp.Rom.Boot.{cold_boot, warm_boot, fw_boot, fw_hitless_update, flash_recovery}
use mcu_fw_cpp.Rom.Boot.Progress.{IsFlowStatus, IsAt}
use mcu_fw_cpp.Rom.Boot.ColdBoot.{Stopped, cold_boot-progress}
use mcu_fw_cpp.Rom.Boot.Flows.{Never, short_flows-progress}
use mcu_fw_cpp.Rom.Soc.{Soc, AxiUsers}
use mcu_fw_cpp.Rom.Main.{main}
use mcu_fw_cpp.Rom.Main.Refused.{main-refused}
use mcu_fw_cpp.Rom.Start.{rom_start}
use mcu_fw_cpp.Rom.Start.Progress.{IsBootRegister, Ended, rom_start-Ended}

-- A firmware boot reset, after milestones 3 and checkpoint 7.
abbrev boot_memory : Memory
boot_memory a =
    if a == 0x21000008
    then 0x00030007
    else if a == 0x21000030
    then 2
    else if a == 0x70000000
    then 1
    else 0

abbrev memory_cell : ℕ → Memory → ℕ
memory_cell a m = m a

abbrev boot_world : World Memory
boot_world = record { device = boot_memory; env = make_env g_mcu_memory_map 0 }

boot_world-IsAt : IsAt memory_cell 3 7 boot_world
unfolding make_env
boot_world-IsAt = record {
  mci_at = refl;
  otp_at = refl;
  i3c_at = refl;
  mbox_at = refl;
  ms_fits = omega arith;
  cp_fits = omega arith;
  word = refl;
}

flow_storage : IsStorage memory_bus IsFlowStatus memory_cell
flow_storage = narrow (λ a r. tt) memory_bus-IsStorage

boot_storage : IsStorage memory_bus IsBootRegister memory_cell
boot_storage = narrow (λ a r. tt) memory_bus-IsStorage

rom_start-Ended_example : Ended memory_cell 3 7 2 (rom_start boot_world)
rom_start-Ended_example = rom_start-Ended boot_storage boot_world boot_world-IsAt

cold_boot-progress_example :
    Ensures (IsAt memory_cell 0x27 386) (Stopped flow_storage 3) (cold_boot boot_world)
cold_boot-progress_example = cold_boot-progress flow_storage boot_world boot_world-IsAt

short_flows-progress_example :
    Ensures (IsAt memory_cell 0x43 388) Never (warm_boot boot_world)
    × Ensures (IsAt memory_cell 0x83 390) Never (fw_boot boot_world)
    × Ensures (IsAt memory_cell 3 392) Never (fw_hitless_update boot_world)
    × Ensures (IsAt memory_cell 0x13 260) Never (flash_recovery boot_world)
short_flows-progress_example = short_flows-progress flow_storage boot_world boot_world-IsAt

abbrev soc : Soc
soc = record { base_addr = 0x30030000 }

-- Two of the five mailbox users.
abbrev users : AxiUsers
users = record {
  mbox_users = some 11 ∷ none ∷ some 33 ∷ none ∷ none ∷ [];
  fuse_user = 1;
  trng_user = 2;
  dma_user = 3;
}

-- A reset for two reasons at once.
abbrev two_reasons : Memory
two_reasons a = if a == 0x21000008 then 0x00030007 else if a == 0x21000030 then 3 else 0

main-refused_example :
    (main two_reasons 0x21000020 ≡ 0x701)
    × (main two_reasons 0x10002000 ≡ 0x701)
    × (main two_reasons 0x21000008 ≡ 0x00030007)
main-refused_example =
    main-refused (narrow (λ a r. tt) memory_bus-IsStorage) 3 7 two_reasons (omega arith)
      (omega arith) refl (omega arith, omega arith, omega arith, omega arith)
