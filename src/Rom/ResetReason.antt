-- ===== src/Rom/ResetReason.antt =====
-- The reset reasons that rom/include/rom/rom.hpp declares. The ROM does not use them: it works with
-- those of the MCI driver.
use mcu_fw_cpp.Prelude.{ℕ}

pub data McuResetReason : Type 0 where
  cold_boot warm_reset firmware_boot_reset firmware_hitless_update invalid : McuResetReason

-- The value of an enumerator.
abbrev pub reason_value : McuResetReason → ℕ
reason_value cold_boot = 0x01
reason_value warm_reset = 0x02
reason_value firmware_boot_reset = 0x04
reason_value firmware_hitless_update = 0x08
reason_value invalid = 0xffffffff
