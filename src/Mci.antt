-- ===== src/Mci.antt =====
-- The MCI driver (romtime/src/mci.cpp): one function for each method, over any device.
pub mod Regs
pub mod AxiUsers
pub mod Interrupt
pub mod FlowStatus
pub mod ResetReason
use mcu_fw_cpp.Prelude.{
  ℕ, ◌+◌, ◌*◌, ◌/◌, ◌%◌, ◌^◌, bit_and, bit_or, u16, u32, ◌<<<◌, ◌>>>◌, any_set, Bool, true, false,
  not, ◌&&◌, leb, ◌==◌, if◌then◌else◌,
}
use mcu_fw_cpp.Bus.{Bus, Hw, ◌>>=◌, ◌>>◌, pure, read_reg, write_reg, modify_reg}
use Regs.{
  McuResetReason, cold_boot, warm_reset, firmware_boot_reset, firmware_hitless_update, invalid,
  DeviceLifecycleState, device_unprovisioned, device_manufacturing, device_provisioned,
  device_security_locked,
}
use Regs.{
  reg_security_state, reg_cptra_boot_go, reg_fw_flow_status, reg_fw_error_fatal, reg_hw_flow_status,
  reg_mcu_nmi_vector, reg_wdt_timer1_timeout_period_0, reg_wdt_timer1_timeout_period_1,
  reg_wdt_timer2_timeout_period_0, reg_wdt_timer2_timeout_period_1, reg_wdt_timer1_ctrl,
  reg_wdt_timer1_en, reg_reset_reason, reg_reset_request, reg_ss_config_done_sticky,
  reg_ss_config_done, reg_notif0_intr_trig_r, reg_notif0_internal_intr_r,
  reg_generic_input_wires_base, reset_reason_warm_reset, reset_reason_fw_boot_upd_reset,
  reset_reason_fw_hitless_upd_reset, ss_config_done_bit, notif_cptra_mcu_reset_req_sts_mask,
  reset_request_mcu_req,
}

pub record Mci : Type 0 where
  pub base_addr : ℕ

-- `switch (state)` on two bits.
pub lifecycle_of_bits : ℕ → DeviceLifecycleState
lifecycle_of_bits state =
    if state == 0
    then device_unprovisioned
    else if state == 1
    then device_manufacturing
    else if state == 2
    then device_provisioned
    else if state == 3
    then device_security_locked
    else device_unprovisioned

-- The ladder of `reset_reason_enum` on the value of the register.
pub reason_of_bits : ℕ → McuResetReason
reason_of_bits reason =
    let warm_reset? = any_set reason reset_reason_warm_reset in
    let fw_boot_upd = any_set reason reset_reason_fw_boot_upd_reset in
    let fw_hitless_upd = any_set reason reset_reason_fw_hitless_upd_reset in
    if not warm_reset? && (not fw_boot_upd && not fw_hitless_upd)
    then cold_boot
    else if warm_reset? && (not fw_boot_upd && not fw_hitless_upd)
    then warm_reset
    else if not warm_reset? && (fw_boot_upd && not fw_hitless_upd)
    then firmware_boot_reset
    else if not warm_reset? && (not fw_boot_upd && fw_hitless_upd)
    then firmware_hitless_update
    else invalid

-- `reason == McuResetReason::…`
pub same_reason : McuResetReason → McuResetReason → Bool
same_reason cold_boot cold_boot = true
same_reason warm_reset warm_reset = true
same_reason firmware_boot_reset firmware_boot_reset = true
same_reason firmware_hitless_update firmware_hitless_update = true
same_reason invalid invalid = true
same_reason _ _ = false

module _ {S : Type 0} ⦃bus : Bus S⦄ (m : Mci) where
  unfoldable pub security_state : Hw S ℕ
  security_state = read_reg m.base_addr reg_security_state

  unfoldable pub device_lifecycle_state : Hw S DeviceLifecycleState
  unfolding lifecycle_of_bits
  device_lifecycle_state = do
    state ← read_reg m.base_addr reg_security_state
    pure (lifecycle_of_bits (bit_and state 0x03))

  unfoldable pub caliptra_boot_go : Hw S (Unit {0})
  caliptra_boot_go = write_reg m.base_addr reg_cptra_boot_go 1

  unfoldable pub set_flow_status : ℕ → Hw S (Unit {0})
  set_flow_status status = write_reg m.base_addr reg_fw_flow_status status

  unfoldable pub flow_status : Hw S ℕ
  flow_status = read_reg m.base_addr reg_fw_flow_status

  unfoldable pub flow_milestone : Hw S ℕ
  unfolding flow_status
  flow_milestone = do status ← flow_status; pure (u16 (status >>> 16))

  unfoldable pub flow_checkpoint : Hw S ℕ
  unfolding flow_status
  flow_checkpoint = do status ← flow_status; pure (u16 (bit_and status 0x0000ffff))

  unfoldable pub set_flow_checkpoint : ℕ → Hw S (Unit {0})
  unfolding flow_milestone set_flow_status
  set_flow_checkpoint checkpoint = do
    milestone ← flow_milestone
    set_flow_status (bit_or (u32 (milestone <<< 16)) checkpoint)

  unfoldable pub set_flow_milestone : ℕ → Hw S (Unit {0})
  unfolding flow_status set_flow_status
  set_flow_milestone milestone = do
    status ← flow_status
    set_flow_status (bit_or (u32 (milestone <<< 16)) status)

  unfoldable pub set_fw_fatal_error : ℕ → Hw S (Unit {0})
  set_fw_fatal_error code = write_reg m.base_addr reg_fw_error_fatal code

  unfoldable pub hw_flow_status : Hw S ℕ
  hw_flow_status = read_reg m.base_addr reg_hw_flow_status

  unfoldable pub set_nmi_vector : ℕ → Hw S (Unit {0})
  set_nmi_vector nmi_vector = write_reg m.base_addr reg_mcu_nmi_vector nmi_vector

  unfoldable pub configure_wdt : ℕ → ℕ → Hw S (Unit {0})
  configure_wdt wdt1_timeout wdt2_timeout = do
    write_reg m.base_addr reg_wdt_timer1_timeout_period_0 wdt1_timeout
    write_reg m.base_addr reg_wdt_timer1_timeout_period_1 0
    write_reg m.base_addr reg_wdt_timer2_timeout_period_0 wdt2_timeout
    write_reg m.base_addr reg_wdt_timer2_timeout_period_1 0
    write_reg m.base_addr reg_wdt_timer1_ctrl 1
    write_reg m.base_addr reg_wdt_timer1_en 1

  unfoldable pub disable_wdt : Hw S (Unit {0})
  disable_wdt = write_reg m.base_addr reg_wdt_timer1_en 0

  unfoldable pub generic_input_wires : ℕ → Hw S ℕ
  generic_input_wires index =
      if leb 2 index
      then pure 0
      else read_reg m.base_addr (reg_generic_input_wires_base + index * 4)

  unfoldable pub reset_reason : Hw S ℕ
  reset_reason = read_reg m.base_addr reg_reset_reason

  unfoldable pub reset_reason_enum : Hw S McuResetReason
  unfolding reset_reason reason_of_bits
  reset_reason_enum = do reason ← reset_reason; pure (reason_of_bits reason)

  unfoldable pub is_cold_reset : Hw S Bool
  unfolding reset_reason_enum same_reason
  is_cold_reset = do reason ← reset_reason_enum; pure (same_reason reason cold_boot)

  unfoldable pub is_warm_reset : Hw S Bool
  unfolding reset_reason_enum same_reason
  is_warm_reset = do reason ← reset_reason_enum; pure (same_reason reason warm_reset)

  unfoldable pub is_fw_boot_update_reset : Hw S Bool
  unfolding reset_reason_enum same_reason
  is_fw_boot_update_reset = do
    reason ← reset_reason_enum
    pure (same_reason reason firmware_boot_reset)

  unfoldable pub is_fw_hitless_update_reset : Hw S Bool
  unfolding reset_reason_enum same_reason
  is_fw_hitless_update_reset = do
    reason ← reset_reason_enum
    pure (same_reason reason firmware_hitless_update)

  unfoldable pub read_notif0_intr_trig_r : Hw S ℕ
  read_notif0_intr_trig_r = read_reg m.base_addr reg_notif0_intr_trig_r

  unfoldable pub write_notif0_intr_trig_r : ℕ → Hw S (Unit {0})
  write_notif0_intr_trig_r value = write_reg m.base_addr reg_notif0_intr_trig_r value

  unfoldable pub read_wdt_timer1_en : Hw S ℕ
  read_wdt_timer1_en = read_reg m.base_addr reg_wdt_timer1_en

  unfoldable pub write_wdt_timer1_en : ℕ → Hw S (Unit {0})
  write_wdt_timer1_en value = write_reg m.base_addr reg_wdt_timer1_en value

  -- The body of the `if` of `handle_interrupt`: clear the interrupt, request the reset.
  pub request_reset : Bool → Hw S (Unit {0})
  request_reset false = pure tt
  request_reset true = do
    modify_reg m.base_addr reg_notif0_internal_intr_r notif_cptra_mcu_reset_req_sts_mask
        notif_cptra_mcu_reset_req_sts_mask
    modify_reg m.base_addr reg_reset_request reset_request_mcu_req reset_request_mcu_req

  unfoldable pub handle_interrupt : Hw S (Unit {0})
  unfolding request_reset
  handle_interrupt = do
    intr_status ← read_reg m.base_addr reg_notif0_internal_intr_r
    request_reset (any_set intr_status notif_cptra_mcu_reset_req_sts_mask)

  unfoldable pub trigger_warm_reset : Hw S (Unit {0})
  trigger_warm_reset = write_reg m.base_addr reg_reset_request 1

  unfoldable pub set_ss_config_done_sticky : Hw S (Unit {0})
  set_ss_config_done_sticky = write_reg m.base_addr reg_ss_config_done_sticky ss_config_done_bit

  unfoldable pub is_ss_config_done_sticky : Hw S Bool
  is_ss_config_done_sticky = do
    v ← read_reg m.base_addr reg_ss_config_done_sticky
    pure (any_set v ss_config_done_bit)

  unfoldable pub set_ss_config_done : Hw S (Unit {0})
  set_ss_config_done = write_reg m.base_addr reg_ss_config_done ss_config_done_bit

  unfoldable pub is_ss_config_done : Hw S Bool
  is_ss_config_done = do
    v ← read_reg m.base_addr reg_ss_config_done
    pure (any_set v ss_config_done_bit)
