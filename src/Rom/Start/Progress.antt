-- ===== src/Rom/Start/Progress.antt =====
-- Where `rom_start` ends, by the reset reason.
use mcu_fw_cpp.Prelude.{ℕ, ◌%◌, ◌≡◌, ◌≢◌, ◌⊎◌, inl, inr, refl, sym, ap, ◌∙◌, bit_or, arith, ◌↔◌}
use mcu_fw_cpp.Bus.{Bus, reg}
use mcu_fw_cpp.Bus.Storage.{IsStorage, narrow, read_reg-cell, read_reg-keeps, write_reg-keeps}
use mcu_fw_cpp.Error.{McuResult, timeout, error_code}
use mcu_fw_cpp.Error.Ensures.{Ensures, done, failed}
use mcu_fw_cpp.Mci
use mcu_fw_cpp.Mci.Regs.{
  McuResetReason, cold_boot, warm_reset, firmware_boot_reset, firmware_hitless_update, invalid,
}
use mcu_fw_cpp.Mci.ResetReason.{reset_reason_enum_iff}
use mcu_fw_cpp.Rom.BootStatus.{BootMilestone}
use mcu_fw_cpp.Rom.Env.{World, with_device, g_mcu_memory_map}
use mcu_fw_cpp.Rom.Boot.Progress.{
  IsFlowStatus, flow_status_addr, IsAt, kept-IsAt, set_flow_milestone-IsAt,
}
use mcu_fw_cpp.Rom.Boot.ColdBoot.{cold_boot-progress}
use mcu_fw_cpp.Rom.Boot.Flows.{Never, short_flows-progress}
use mcu_fw_cpp.Rom.Start.{RomEnd, idle_loop, fatal_handler, dispatch, greet, rom_start}

-- The reset reason register, on the emulator's memory map.
abbrev pub reset_reason_addr : ℕ
reset_reason_addr = 0x21000030

-- The two registers that decide what happens.
abbrev pub IsBootRegister : ℕ → Type 0
IsBootRegister a = (a ≡ flow_status_addr) ⊎ (a ≡ reset_reason_addr)

-- The end of the ROM for the low three bits of the reset reason, from milestones `ms`, the ROM's own
-- included, and a checkpoint.
pub data Ended {S : Type 0} (cell : ℕ → S → ℕ) (ms cp : ℕ) (bits : ℕ)
    : RomEnd × World S → Type 0 where
  cold_complete :
      {w : World S}
      → bits ≡ 0
      → IsAt cell (bit_or 0x20 (bit_or 4 (bit_or 2 (bit_or 1 ms)))) 386 w
      → Ended cell ms cp bits (idle_loop, w)
  cold_stopped :
      {w : World S}
      → bits ≡ 0
      → IsAt cell (bit_or 1 ms) 3 w ⊎ IsAt cell (bit_or 4 (bit_or 2 (bit_or 1 ms))) 197 w
      → Ended cell ms cp bits (idle_loop, w)
  warm :
      {w : World S}
      → bits ≡ 1
      → IsAt cell (bit_or 0x40 ms) 388 w
      → Ended cell ms cp bits (idle_loop, w)
  firmware :
      {w : World S}
      → bits ≡ 2
      → IsAt cell (bit_or 0x80 ms) 390 w
      → Ended cell ms cp bits (idle_loop, w)
  hitless : {w : World S} → bits ≡ 4 → IsAt cell ms 392 w → Ended cell ms cp bits (idle_loop, w)
  refused :
      {w : World S}
      → (bits ≢ 0) × (bits ≢ 1) × (bits ≢ 2) × (bits ≢ 4)
      → IsAt cell ms cp w
      → Ended cell ms cp bits (fatal_handler 0x701, w)

module _ {S : Type 0} {cell : ℕ → S → ℕ} {ms cp bits : ℕ} where
  cold_Ended :
      {out : McuResult (Unit {0}) × World S}
      → bits ≡ 0
      → Ensures
          (IsAt cell (bit_or 0x20 (bit_or 4 (bit_or 2 (bit_or 1 ms)))) 386)
          (λ e w.
            (e ≡ timeout)
            × (IsAt cell (bit_or 1 ms) 3 w ⊎ IsAt cell (bit_or 4 (bit_or 2 (bit_or 1 ms))) 197 w))
          out
      → Ended cell ms cp bits (idle_loop, out.1)
  cold_Ended b (done h) = cold_complete b h
  cold_Ended b (failed h) = cold_stopped b h.1

  flow_Ended :
      {Q : World S → Type 0} {out : McuResult (Unit {0}) × World S}
      → Ensures Q Never out
      → ((w : World S) → Q w → Ended cell ms cp bits (idle_loop, w))
      → Ended cell ms cp bits (idle_loop, out.1)
  flow_Ended (done h) end = end _ h
  flow_Ended (failed x) end = elim x [ ]

-- The reset reason that the low three bits stand for.
abbrev pub IsReason : McuResetReason → ℕ → Type 0
IsReason reason bits =
    ((reason ≡ cold_boot) ↔ (bits ≡ 0))
    × ((reason ≡ warm_reset) ↔ (bits ≡ 1))
    × ((reason ≡ firmware_boot_reset) ↔ (bits ≡ 2))
    × ((reason ≡ firmware_hitless_update) ↔ (bits ≡ 4))

module _ {S : Type 0} ⦃bus : Bus S⦄ {cell : ℕ → S → ℕ} (d : IsStorage bus IsBootRegister cell) where
  pub on_flow : IsStorage bus IsFlowStatus cell
  on_flow = narrow (λ a e. inl e) d

  dispatch-Ended :
      (reason : McuResetReason) {ms cp bits : ℕ} (w : World S)
      → IsReason reason bits
      → IsAt cell ms cp w
      → Ended cell ms cp bits (dispatch reason w)
  unfolding dispatch error_code
  dispatch-Ended cold_boot w b h = cold_Ended (ground arith) (cold_boot-progress on_flow w h)
  dispatch-Ended warm_reset w b h =
      flow_Ended (short_flows-progress on_flow w h).0 (λ w'. warm (ground arith))
  dispatch-Ended firmware_boot_reset w b h =
      flow_Ended (short_flows-progress on_flow w h).1 (λ w'. firmware (ground arith))
  dispatch-Ended firmware_hitless_update w b h =
      flow_Ended (short_flows-progress on_flow w h).2 (λ w'. hitless (ground arith))
  dispatch-Ended invalid w b h = refused (ground arith, ground arith, ground arith, ground arith) h

  greet-IsAt : {ms cp : ℕ} (w : World S) → IsAt cell ms cp w → IsAt cell (bit_or 1 ms) cp (greet w)
  unfolding greet Mci.device_lifecycle_state Mci.generic_input_wires Mci.reset_reason
  greet-IsAt w h =
      let base = w.env.mci.base_addr in
      let s₁ = (Mci.set_flow_milestone w.env.mci 1 w.device).1 in
      let keeps =
        λ (offset : ℕ) (s : S). read_reg-keeps on_flow base offset flow_status_addr s refl in
      kept-IsAt on_flow (with_device w s₁) _
        (keeps 0x30 _ ∙ keeps 0x404 _ ∙ keeps 0x400 _ ∙ keeps 0x00 s₁)
        (set_flow_milestone-IsAt on_flow BootMilestone.rom_started w h)

  greet-reason :
      (w : World S)
      → w.env.mci.base_addr ≡ g_mcu_memory_map.mci_offset
      → cell reset_reason_addr (greet w).device ≡ cell reset_reason_addr w.device
  unfolding greet Mci.device_lifecycle_state Mci.generic_input_wires Mci.reset_reason
      Mci.set_flow_milestone Mci.flow_status Mci.set_flow_status
  greet-reason w e =
      let base = w.env.mci.base_addr in
      let keeps =
        λ (offset : ℕ) (s : S). read_reg-keeps d base offset reset_reason_addr s (inr refl) in
      keeps 0x30 _
      ∙ keeps 0x404 _
      ∙ keeps 0x400 _
      ∙ keeps 0x00 _
      ∙ write_reg-keeps d base 8 _ reset_reason_addr _ (inr refl) (omega (arith, e))
      ∙ keeps 0x08 w.device

  enum-IsReason :
      (m : Mci.Mci) (s : S)
      → m.base_addr ≡ g_mcu_memory_map.mci_offset
      → IsReason (Mci.reset_reason_enum m s).0 (cell reset_reason_addr s % 8)
  unfolding Mci.reset_reason
  enum-IsReason m s e = rw bits (reset_reason_enum_iff m s)
    where
      addr : reg m.base_addr 0x30 ≡ reset_reason_addr
      addr = omega (arith, e)

      bits : cell reset_reason_addr s % 8 ≡ (Mci.reset_reason m s).0 % 8
      bits =
          omega
            (arith, read_reg-cell d m.base_addr 0x30 s (inr addr), ap (λ (a : ℕ). cell a s) addr)

  reset_reason_enum-keeps :
      (m : Mci.Mci) (s : S)
      → cell flow_status_addr (Mci.reset_reason_enum m s).1 ≡ cell flow_status_addr s
  unfolding Mci.reset_reason_enum Mci.reset_reason
  reset_reason_enum-keeps m s = read_reg-keeps d m.base_addr 0x30 flow_status_addr s (inl refl)

  -- `rom_start` is the `switch`, in a state that has the ROM's own milestone and by the reason that
  -- the low three bits stand for.
  pub rom_start-dispatch :
      (P : RomEnd × World S → Type 0) {ms cp : ℕ} (w : World S)
      → IsAt cell ms cp w
      → ((reason : McuResetReason) (w' : World S)
          → IsReason reason (cell reset_reason_addr w.device % 8)
          → IsAt cell (bit_or 1 ms) cp w'
          → P (dispatch reason w'))
      → P (rom_start w)
  unfolding rom_start
  rom_start-dispatch P w h then_dispatch =
      let w' = greet w in
      let h' = greet-IsAt w h in
      then_dispatch (Mci.reset_reason_enum w'.env.mci w'.device).0 (with_device w' _) reason
        (kept-IsAt on_flow w' _ (reset_reason_enum-keeps w'.env.mci w'.device) h')
    where
      reason :
          IsReason
            (Mci.reset_reason_enum (greet w).env.mci (greet w).device).0
            (cell reset_reason_addr w.device % 8)
      reason =
          rw (sym (greet-reason w h.mci_at))
            (enum-IsReason (greet w).env.mci (greet w).device (greet-IsAt w h).mci_at)

  -- Over a device whose flow status and reset reason registers are plain storage, with the drivers at
  -- the addresses of the memory map, `rom_start` ends. By the low three bits of the reset reason: for
  -- 0 the cold boot flow has completed, or has stopped on a timeout with the milestones and checkpoint
  -- of that step, and the ROM idles either way; for 1, 2 and 4 the warm boot, firmware boot and
  -- hitless update flows have completed and the ROM idles; for every other value the fatal error
  -- handler gets the code 0x701, with only the ROM's own milestone added.
  pub rom_start-Ended :
      {ms cp : ℕ} (w : World S)
      → IsAt cell ms cp w
      → Ended cell (bit_or 1 ms) cp (cell reset_reason_addr w.device % 8) (rom_start w)
  rom_start-Ended {ms} {cp} w h =
      rom_start-dispatch (Ended cell (bit_or 1 ms) cp (cell reset_reason_addr w.device % 8)) w h
        (λ reason w' b h'. dispatch-Ended reason w' b h')
