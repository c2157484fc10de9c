-- ===== src/Lifecycle/Tokens.antt =====
-- The transition tokens of the lifecycle driver.
use mcu_fw_cpp.Prelude.{
  ℕ, ◌+◌, ◌*◌, ◌<◌, ◌≤◌, ◌≡◌, ◌≢◌, refl, u32, ltb, leb, ◌==◌, if◌then◌else◌, arith, true, false,
  ◌&&◌, Bool-cases, inl, inr, ltb-cases,
}
use mcu_fw_cpp.Bus.{Bus, reg, write_reg}
use mcu_fw_cpp.Bus.Storage.{IsStorage, write_reg-cell, write_reg-keeps}
use mcu_fw_cpp.Error.{ok, err, invalid_parameter}
use mcu_fw_cpp.Lifecycle.{Lifecycle, write_transition_token}

-- The registers of the command and of the four tokens.
abbrev pub TransitionReg : Lifecycle → ℕ → Type 0
TransitionReg lc a =
    (offset : ℕ) × (0x08 ≤ offset) × (offset < 0x20) × (a ≡ reg lc.base_addr offset)

module _ {S : Type 0} ⦃bus : Bus S⦄ (lc : Lifecycle) {cell : ℕ → S → ℕ}
    (d : IsStorage bus (TransitionReg lc) cell) where
  transition_reg :
      (offset : ℕ) → 0x08 ≤ offset → offset < 0x20 → TransitionReg lc (reg lc.base_addr offset)
  transition_reg offset low high = (offset, low, high, refl)

  -- One token stored, as every register of the block sees it.
  token_stored :
      (i value offset : ℕ) (s : S)
      → i < 4
      → 0x08 ≤ offset
      → offset < 0x20
      → cell (reg lc.base_addr offset) (write_reg lc.base_addr (0x10 + i * 4) value s).1
        ≡ (if offset == 0x10 + i * 4 then u32 value else cell (reg lc.base_addr offset) s)
  token_stored i value offset s h low high = elim (Bool-cases (offset == 0x10 + i * 4)) [
    | inl same ↦ rw same (
        rw (at same) (
          write_reg-cell d lc.base_addr (0x10 + i * 4) value s
            (transition_reg (0x10 + i * 4) (omega arith) (omega arith))))
    | inr other ↦ rw other (
        write_reg-keeps d lc.base_addr (0x10 + i * 4) value (reg lc.base_addr offset) s
          (transition_reg offset low high) (differ other))
  ]
    where
      at : (offset == 0x10 + i * 4) ≡ true → offset ≡ 0x10 + i * 4
      at same = ground arith

      differ :
          (offset == 0x10 + i * 4) ≡ false
          → reg lc.base_addr (0x10 + i * 4) ≢ reg lc.base_addr offset
      differ other = ground arith

  -- Where the command and token registers are plain storage: `write_transition_token` with an index
  -- below 4 succeeds, stores the value in the token register of the index and changes no other
  -- register of the block; from 4 on it fails with INVALID_PARAMETER and changes none.
  write_transition_token-answers :
      (i value offset : ℕ) (s : S)
      → 0x08 ≤ offset
      → offset < 0x20
      → ((write_transition_token lc i value s).0
          ≡ (if ltb i 4 then ok tt else err invalid_parameter))
        × (cell (reg lc.base_addr offset) (write_transition_token lc i value s).1 ≡ (
            if ltb i 4 && (offset == 0x10 + i * 4)
            then u32 value
            else cell (reg lc.base_addr offset) s))
  unfolding write_transition_token
  write_transition_token-answers i value offset s low high = elim (ltb-cases i 4) [
    | inl (below, h) ↦ rw (below, accepted h) (refl, token_stored i value offset s h low high)
    | inr (above, h) ↦ rw (above, refused h) (refl, refl)
  ]
    where
      accepted : i < 4 → leb 4 i ≡ false
      accepted h = ground arith

      refused : 4 ≤ i → leb 4 i ≡ true
      refused h = ground arith
