-- ===== src/Rom/Soc/Ready.antt =====
-- The wait for the firmware, `Soc::wait_for_firmware_ready`.
use mcu_fw_cpp.Prelude.{
  ℕ, zero, suc, ◌<◌, ◌≡◌, refl, ◌∙◌, arith, Bool, Bool-cases, true, false, inl, inr, ◌||◌,
  if◌then◌else◌,
}
use mcu_fw_cpp.Bus.{Bus}
use mcu_fw_cpp.Error.{error_code}
use mcu_fw_cpp.Rom.Soc.{
  Soc, Outcome, returned, fatal, fw_ready, has_fw_fatal_error, wait_for_firmware_ready, fatal_error,
}

module _ {S : Type 0} ⦃bus : Bus S⦄ (soc : Soc) where
  -- One round of polling: the flag, the error, and the states after the one load and after both.
  abbrev pub ready : S → Bool
  ready s = (fw_ready soc s).0

  abbrev pub failed : S → Bool
  failed s = (has_fw_fatal_error soc (fw_ready soc s).1).0

  abbrev pub round : S → S
  round s = (has_fw_fatal_error soc (fw_ready soc s).1).1

  abbrev pub rounds : ℕ → S → S
  rounds zero s = s
  rounds (suc n) s = rounds n (round s)

  -- Neither the flag nor an error in the first `n` rounds.
  abbrev pub Quiet : ℕ → S → Type 0
  Quiet zero s = Unit
  Quiet (suc n) s = (ready s ≡ false) × (failed s ≡ false) × Quiet n (round s)

  -- What the wait ends with in a state whose round ends it.
  abbrev pub ended : S → Outcome (Unit {0}) × S
  ended s = if ready s then (returned tt, (fw_ready soc s).1) else (fatal 0x700, round s)

  quiet-round :
      (fuel : ℕ) (s : S)
      → ready s ≡ false
      → failed s ≡ false
      → wait_for_firmware_ready soc (suc fuel) s ≡ wait_for_firmware_ready soc fuel (round s)
  unfolding wait_for_firmware_ready
  quiet-round fuel s r f = rw (r, f) refl

  last-round :
      (fuel : ℕ) (s : S)
      → ready s || failed s ≡ true
      → wait_for_firmware_ready soc (suc fuel) s ≡ ended s
  unfolding wait_for_firmware_ready fatal_error error_code
  last-round fuel s h = elim (Bool-cases (ready s)) [
    | inl r ↦ rw r refl
    | inr r ↦ elim (Bool-cases (failed s)) [ inl f ↦ rw (r, f) refl | inr f ↦ ground arith ]
  ]

  -- On every device: where the first round of polling that sees the firmware ready or a fatal error is
  -- round `n` (counted from 0), `wait_for_firmware_ready` ends in that round: it returns if the firmware was ready, and
  -- else the fatal error handler gets BOOT_FAILED, 0x700; with any fuel above `n`.
  pub wait_for_firmware_ready-ends :
      (n fuel : ℕ) (s : S)
      → n < fuel
      → Quiet n s
      → ready (rounds n s) || failed (rounds n s) ≡ true
      → wait_for_firmware_ready soc fuel s ≡ ended (rounds n s)
  wait_for_firmware_ready-ends n zero s lt quiet h = absurd (omega arith)
  wait_for_firmware_ready-ends zero (suc fuel) s lt quiet h = last-round fuel s h
  wait_for_firmware_ready-ends (suc n) (suc fuel) s lt (r, f, quiet) h =
      quiet-round fuel s r f ∙ wait_for_firmware_ready-ends n fuel (round s) (omega arith) quiet h
