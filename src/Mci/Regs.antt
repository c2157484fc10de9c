-- ===== src/Mci/Regs.antt =====
-- The register map and the enumerations of romtime/include/romtime/mci.hpp.
use mcu_fw_cpp.Prelude.{ℕ}

pub data McuResetReason : Type 0 where
  cold_boot warm_reset firmware_boot_reset firmware_hitless_update invalid : McuResetReason

pub data DeviceLifecycleState : Type 0 where
  device_unprovisioned device_manufacturing device_provisioned : DeviceLifecycleState
  device_security_locked : DeviceLifecycleState

-- Register offsets.
abbrev pub reg_security_state : ℕ
reg_security_state = 0x00

abbrev pub reg_cptra_boot_go : ℕ
reg_cptra_boot_go = 0x04

abbrev pub reg_fw_flow_status : ℕ
reg_fw_flow_status = 0x08

abbrev pub reg_fw_error_fatal : ℕ
reg_fw_error_fatal = 0x0c

abbrev pub reg_hw_flow_status : ℕ
reg_hw_flow_status = 0x10

abbrev pub reg_mcu_nmi_vector : ℕ
reg_mcu_nmi_vector = 0x14

abbrev pub reg_wdt_timer1_timeout_period_0 : ℕ
reg_wdt_timer1_timeout_period_0 = 0x18

abbrev pub reg_wdt_timer1_timeout_period_1 : ℕ
reg_wdt_timer1_timeout_period_1 = 0x1c

abbrev pub reg_wdt_timer2_timeout_period_0 : ℕ
reg_wdt_timer2_timeout_period_0 = 0x20

abbrev pub reg_wdt_timer2_timeout_period_1 : ℕ
reg_wdt_timer2_timeout_period_1 = 0x24

abbrev pub reg_wdt_timer1_ctrl : ℕ
reg_wdt_timer1_ctrl = 0x28

abbrev pub reg_wdt_timer1_en : ℕ
reg_wdt_timer1_en = 0x2c

abbrev pub reg_reset_reason : ℕ
reg_reset_reason = 0x30

abbrev pub reg_reset_request : ℕ
reg_reset_request = 0x34

abbrev pub reg_ss_config_done_sticky : ℕ
reg_ss_config_done_sticky = 0x38

abbrev pub reg_ss_config_done : ℕ
reg_ss_config_done = 0x3c

abbrev pub reg_prod_debug_unlock_pk_hash_base : ℕ
reg_prod_debug_unlock_pk_hash_base = 0x40

abbrev pub reg_mbox0_valid_axi_user_base : ℕ
reg_mbox0_valid_axi_user_base = 0x80

abbrev pub reg_mbox0_axi_user_lock_base : ℕ
reg_mbox0_axi_user_lock_base = 0xa0

abbrev pub reg_mbox1_valid_axi_user_base : ℕ
reg_mbox1_valid_axi_user_base = 0xc0

abbrev pub reg_mbox1_axi_user_lock_base : ℕ
reg_mbox1_axi_user_lock_base = 0xe0

abbrev pub reg_notif0_intr_trig_r : ℕ
reg_notif0_intr_trig_r = 0x100

abbrev pub reg_notif0_internal_intr_r : ℕ
reg_notif0_internal_intr_r = 0x104

-- A constant of `Mci::generic_input_wires`.
abbrev pub reg_generic_input_wires_base : ℕ
reg_generic_input_wires_base = 0x400

abbrev pub pk_hash_reg_count : ℕ
pk_hash_reg_count = 12

abbrev pub mbox_axi_user_count : ℕ
mbox_axi_user_count = 8

-- Bit masks.
abbrev pub reset_reason_warm_reset : ℕ
reset_reason_warm_reset = 0x01

abbrev pub reset_reason_fw_boot_upd_reset : ℕ
reset_reason_fw_boot_upd_reset = 0x02

abbrev pub reset_reason_fw_hitless_upd_reset : ℕ
reset_reason_fw_hitless_upd_reset = 0x04

abbrev pub ss_config_done_bit : ℕ
ss_config_done_bit = 0x01

abbrev pub notif_cptra_mcu_reset_req_sts_mask : ℕ
notif_cptra_mcu_reset_req_sts_mask = 0x02

abbrev pub reset_request_mcu_req : ℕ
reset_request_mcu_req = 0x01

abbrev pub mbox_axi_user_lock_bit : ℕ
mbox_axi_user_lock_bit = 0x01
