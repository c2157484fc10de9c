-- ===== src/Rom/Boot/Steps.antt =====
-- The steps of the boot flows that the source leaves empty: each of them only returns `Ok`.
use mcu_fw_cpp.Error.{Try, pure}
use mcu_fw_cpp.Rom.Env.{World}

module _ {S : Type 0} where
  -- Class `ColdBoot` (rom/src/cold_boot.cpp).
  abbrev pub init_memory_map : Try (World S) (Unit {0})
  init_memory_map = pure tt

  abbrev pub load_straps : Try (World S) (Unit {0})
  load_straps = pure tt

  abbrev pub populate_fuses : Try (World S) (Unit {0})
  populate_fuses = pure tt

  abbrev pub load_firmware : Try (World S) (Unit {0})
  load_firmware = pure tt

  -- Class `WarmBoot` (rom/src/warm_boot.cpp).
  abbrev pub restore_context : Try (World S) (Unit {0})
  restore_context = pure tt

  abbrev pub verify_runtime : Try (World S) (Unit {0})
  verify_runtime = pure tt

  abbrev pub resume_runtime : Try (World S) (Unit {0})
  resume_runtime = pure tt

  -- Class `FwBoot` (rom/src/fw_boot.cpp).
  abbrev pub validate_firmware : Try (World S) (Unit {0})
  validate_firmware = pure tt

  -- Class `FwHitlessUpdate` (rom/src/fw_hitless_update.cpp).
  abbrev pub validate_new_firmware : Try (World S) (Unit {0})
  validate_new_firmware = pure tt

  abbrev pub swap_firmware : Try (World S) (Unit {0})
  swap_firmware = pure tt

  abbrev pub commit_update : Try (World S) (Unit {0})
  commit_update = pure tt

  -- Class `Recovery` (rom/src/recovery.cpp).
  abbrev pub validate_recovery_image : Try (World S) (Unit {0})
  validate_recovery_image = pure tt

  abbrev pub load_recovery_image : Try (World S) (Unit {0})
  load_recovery_image = pure tt

  -- Class `DeviceOwnershipTransfer` (rom/src/device_ownership_transfer.cpp).
  abbrev pub read_ownership_flash : Try (World S) (Unit {0})
  read_ownership_flash = pure tt

  abbrev pub derive_stable_key : Try (World S) (Unit {0})
  derive_stable_key = pure tt

  abbrev pub burn_fuses : Try (World S) (Unit {0})
  burn_fuses = pure tt

  abbrev pub complete_transfer : Try (World S) (Unit {0})
  complete_transfer = pure tt
