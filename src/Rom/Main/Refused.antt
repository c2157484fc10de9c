-- ===== src/Rom/Main/Refused.antt =====
-- A reset whose reason the ROM refuses, from `main` to the emulator's exit.
use mcu_fw_cpp.Prelude.{
  ℕ, ◌+◌, ◌*◌, ◌%◌, ◌^◌, ◌<◌, ◌≡◌, ◌≢◌, ◌⊎◌, inl, inr, refl, ap, ◌∙◌, bit_or, arith,
}
use mcu_fw_cpp.Bus.{Bus}
use mcu_fw_cpp.Bus.Storage.{IsStorage, narrow}
use mcu_fw_cpp.Rom.Boot.Progress.{flow_status_addr, IsAt}
use mcu_fw_cpp.Rom.Env.{World, make_env, g_mcu_memory_map}
use mcu_fw_cpp.Rom.Fatal.{fatal_error_raw, main_globals}
use mcu_fw_cpp.Rom.Fatal.Reported.{Told, fatal_error_raw-cells, fatal_error_raw-keeps}
use mcu_fw_cpp.Rom.Main.{main, end_rom}
use mcu_fw_cpp.Rom.Start.{RomEnd, fatal_handler, rom_start}
use mcu_fw_cpp.Rom.Start.Progress.{
  IsBootRegister, reset_reason_addr, Ended, cold_complete, cold_stopped, warm, firmware, hitless,
  refused, rom_start-Ended,
}
use mcu_fw_cpp.Prelude.{none}

-- Three low bits that are no reset reason.
abbrev pub IsRefused : ℕ → Type 0
IsRefused bits = (bits ≢ 0) × (bits ≢ 1) × (bits ≢ 2) × (bits ≢ 4)

abbrev pub Shown : ℕ → Type 0
Shown a = IsBootRegister a ⊎ Told a

module _ {S : Type 0} where
  abbrev Handled : (ℕ → S → ℕ) → ℕ → ℕ → RomEnd × World S → Type 0
  Handled cell ms cp (end, w) = (end ≡ fatal_handler 0x701) × IsAt cell ms cp w

  refused-Handled :
      {cell : ℕ → S → ℕ} {ms cp bits : ℕ} {out : RomEnd × World S}
      → Ended cell ms cp bits out
      → IsRefused bits
      → Handled cell ms cp out
  refused-Handled (cold_complete b h) r = absurd (r.0 b)
  refused-Handled (cold_stopped b h) r = absurd (r.0 b)
  refused-Handled (warm b h) r = absurd (r.1 b)
  refused-Handled (firmware b h) r = absurd (r.2 b)
  refused-Handled (hitless b h) r = absurd (r.3 b)
  refused-Handled (refused b h) r = (refl, h)

-- The environment that `rom_start` builds.
pub started :
    {S : Type 0} {cell : ℕ → S → ℕ} {ms cp : ℕ} (s : S)
    → ms < 2 ^ 16
    → cp < 2 ^ 16
    → cell flow_status_addr s ≡ ms * 2 ^ 16 + cp
    → IsAt cell ms cp (record { device = s; env = make_env g_mcu_memory_map 0 })
unfolding make_env
started s ms_fits cp_fits word = record {
  mci_at = refl;
  otp_at = refl;
  i3c_at = refl;
  mbox_at = refl;
  ms_fits = ms_fits;
  cp_fits = cp_fits;
  word = word;
}

main-fatal_error_raw :
    {S : Type 0} ⦃bus : Bus S⦄ (code : ℕ) (s : S)
    → (rom_start (record { device = s; env = make_env g_mcu_memory_map 0 })).0 ≡ fatal_handler code
    → main s
      ≡ fatal_error_raw main_globals code
          (rom_start (record { device = s; env = make_env g_mcu_memory_map 0 })).1.device
unfolding main end_rom
main-fatal_error_raw code s e =
    ap
      (λ (end : RomEnd).
        end_rom end (rom_start (record { device = s; env = make_env g_mcu_memory_map 0 })).1.device)
      e

module _ {S : Type 0} ⦃bus : Bus S⦄ {cell : ℕ → S → ℕ} (d : IsStorage bus Shown cell) where
  -- Where the flow status, the reset reason and the registers that tell of a fatal error are plain
  -- storage, and the low three bits of the reset reason are none of 0, 1, 2 and 4: `main` ends with
  -- the code 0x701 in 0x21000020 and in the emulator's exit register 0x10002000, and in the flow
  -- status the milestone of the ROM's start is added and the checkpoint is the one before.
  pub main-refused :
      (ms cp : ℕ) (s : S)
      → ms < 2 ^ 16
      → cp < 2 ^ 16
      → cell flow_status_addr s ≡ ms * 2 ^ 16 + cp
      → IsRefused (cell reset_reason_addr s % 8)
      → (cell 0x21000020 (main s) ≡ 0x701)
        × (cell 0x10002000 (main s) ≡ 0x701)
        × (cell flow_status_addr (main s) ≡ bit_or 1 ms * 2 ^ 16 + cp)
  main-refused ms cp s ms_fits cp_fits word refused_reason =
      let w : World S = record { device = s; env = make_env g_mcu_memory_map 0 } in
      let (e, at) =
        refused-Handled (rom_start-Ended boot w (started s ms_fits cp_fits word)) refused_reason in
      let s' = (rom_start w).1.device in
      let ended : main s ≡ fatal_error_raw main_globals 0x701 s' = main-fatal_error_raw 0x701 s e in
      let told =
        fatal_error_raw-cells (narrow (λ a t. inr t) d) 0x701
          (record { g_writer = none; g_exiter = none }) s' in
      (
        ap (cell 0x21000020) ended ∙ told.0,
        ap (cell 0x10002000) ended ∙ told.1,
        ap (cell flow_status_addr) ended
            ∙ fatal_error_raw-keeps d flow_status_addr 0x701 s' (inl (inl refl)) (omega arith)
                (omega arith) (omega arith)
            ∙ at.word,
      )
    where
      boot : IsStorage bus IsBootRegister cell
      boot = narrow (λ a b. inl b) d
