-- ===== src/Rom/Main/Booted.antt =====
-- A reset on hardware that answers in time, from `main` to the endless loop.
use mcu_fw_cpp.Prelude.{
  ℕ, ◌+◌, ◌*◌, ◌%◌, ◌^◌, ◌<◌, ◌≡◌, ◌⊎◌, refl, ap, ◌∙◌, bit_or, arith, ◌==◌, if◌then◌else◌,
}
use mcu_fw_cpp.Bus.{Bus}
use mcu_fw_cpp.Bus.Storage.{IsStorage}
use mcu_fw_cpp.Error.{McuResult}
use mcu_fw_cpp.Error.Ensures.{Ensures, done, failed}
use mcu_fw_cpp.Mci.Regs.{
  McuResetReason, cold_boot, warm_reset, firmware_boot_reset, firmware_hitless_update, invalid,
}
use mcu_fw_cpp.Rom.Boot.Progress.{flow_status_addr, IsAt}
use mcu_fw_cpp.Rom.Boot.Flows.{Never, short_flows-progress}
use mcu_fw_cpp.Rom.Boot.Healthy.{IsHealthy, cold_boot-succeeds}
use mcu_fw_cpp.Rom.Env.{World, make_env, g_mcu_memory_map}
use mcu_fw_cpp.Rom.Main.{main, end_rom}
use mcu_fw_cpp.Rom.Main.Refused.{started}
use mcu_fw_cpp.Rom.Start.{RomEnd, idle_loop, dispatch, rom_start}
use mcu_fw_cpp.Rom.Start.Progress.{
  IsBootRegister, reset_reason_addr, IsReason, on_flow, rom_start-dispatch,
}

-- Three low bits that are a reset reason.
abbrev pub IsReset : ℕ → Type 0
IsReset bits = (bits ≡ 0) ⊎ ((bits ≡ 1) ⊎ ((bits ≡ 2) ⊎ (bits ≡ 4)))

-- The flow status at the end of the flow for a reset reason, from milestones `ms`.
abbrev pub final_status : ℕ → ℕ → ℕ
final_status ms bits =
    if bits == 0
    then bit_or 0x20 (bit_or 4 (bit_or 2 (bit_or 1 ms))) * 2 ^ 16 + 386
    else if bits == 1
    then bit_or 0x40 ms * 2 ^ 16 + 388
    else if bits == 2
    then bit_or 0x80 ms * 2 ^ 16 + 390
    else ms * 2 ^ 16 + 392

module _ {S : Type 0} where
  abbrev Booted : (ℕ → S → ℕ) → ℕ → ℕ → RomEnd × World S → Type 0
  Booted cell ms bits (end, w) =
      (end ≡ idle_loop) × (cell flow_status_addr w.device ≡ final_status ms bits)

  ran-Booted :
      {cell : ℕ → S → ℕ} {m c : ℕ} (ms bits : ℕ) {out : McuResult (Unit {0}) × World S}
      → m * 2 ^ 16 + c ≡ final_status ms bits
      → Ensures (IsAt cell m c) Never out
      → Booted cell ms bits (idle_loop, out.1)
  ran-Booted ms bits e (done h) = (refl, h.word ∙ e)
  ran-Booted ms bits e (failed x) = elim x [ ]

module _ {S : Type 0} ⦃bus : Bus S⦄ {otp_wait mbox_wait : S → ℕ}
    (k : IsHealthy bus otp_wait mbox_wait) {cell : ℕ → S → ℕ}
    (d : IsStorage bus IsBootRegister cell) where
  dispatch-Booted :
      (reason : McuResetReason) {ms cp bits : ℕ} (w : World S)
      → IsReset bits
      → IsReason reason bits
      → IsAt cell ms cp w
      → Booted cell ms bits (dispatch reason w)
  unfolding dispatch
  dispatch-Booted cold_boot {ms} {cp} {bits} w r b h =
      ran-Booted ms bits (ground arith) (cold_boot-succeeds k (on_flow d) w h)
  dispatch-Booted warm_reset {ms} {cp} {bits} w r b h =
      ran-Booted ms bits (ground arith) (short_flows-progress (on_flow d) w h).0
  dispatch-Booted firmware_boot_reset {ms} {cp} {bits} w r b h =
      ran-Booted ms bits (ground arith) (short_flows-progress (on_flow d) w h).1
  dispatch-Booted firmware_hitless_update {ms} {cp} {bits} w r b h =
      ran-Booted ms bits (ground arith) (short_flows-progress (on_flow d) w h).2
  dispatch-Booted invalid w r b h = absurd (ground arith)

  -- Where the flow status and the reset reason are plain storage, the fuse controller and the
  -- mailbox are busy for fewer loads of their status than the ROM polls, and the low three bits of
  -- the reset reason are 0, 1, 2 or 4: the boot flow completes and returns, and `main` ends in the
  -- endless loop behind the `switch` of `rom_start`, not in the fatal error handler.
  -- The flow status is then that of the completed flow. From milestones `ms` with
  -- the ROM's start added it adds 0x27 for a cold boot (checkpoint 386), 0x40 for a warm boot
  -- (388), 0x80 for a firmware boot (390) and none for a hitless update (392).
  pub main-booted :
      (ms cp : ℕ) (s : S)
      → ms < 2 ^ 16
      → cp < 2 ^ 16
      → cell flow_status_addr s ≡ ms * 2 ^ 16 + cp
      → IsReset (cell reset_reason_addr s % 8)
      → ((rom_start (record { device = s; env = make_env g_mcu_memory_map 0 })).0 ≡ idle_loop)
        × (cell flow_status_addr (main s)
            ≡ final_status (bit_or 1 ms) (cell reset_reason_addr s % 8))
  unfolding main end_rom
  main-booted ms cp s ms_fits cp_fits word reset =
      let w : World S = record { device = s; env = make_env g_mcu_memory_map 0 } in
      let (idle, status) =
        rom_start-dispatch d (Booted cell (bit_or 1 ms) (cell reset_reason_addr s % 8)) w
          (started s ms_fits cp_fits word)
          (λ reason w' b h'. dispatch-Booted reason w' reset b h') in
      (
        idle,
        ap (λ (end : RomEnd). cell flow_status_addr (end_rom end (rom_start w).1.device)) idle
            ∙ status,
      )
