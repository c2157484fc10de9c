-- ===== src/Mci/ResetReason.antt =====
-- How the reset reason register is read (`reset_reason_enum` and the four predicates).
use mcu_fw_cpp.Prelude.{ℕ, ◌%◌, ◌≡◌, ◌↔◌, arith}
use mcu_fw_cpp.Prelude.Masks.{bit_and-pow}
use mcu_fw_cpp.Bus.{Bus}
use mcu_fw_cpp.Mci.{Mci, reason_of_bits, reset_reason, reset_reason_enum}
use mcu_fw_cpp.Mci.Regs.{cold_boot, warm_reset, firmware_boot_reset, firmware_hitless_update}

reason_of_bits_iff :
    (w : ℕ)
    → ((reason_of_bits w ≡ cold_boot) ↔ (w % 8 ≡ 0))
      × ((reason_of_bits w ≡ warm_reset) ↔ (w % 8 ≡ 1))
      × ((reason_of_bits w ≡ firmware_boot_reset) ↔ (w % 8 ≡ 2))
      × ((reason_of_bits w ≡ firmware_hitless_update) ↔ (w % 8 ≡ 4))
unfolding reason_of_bits
reason_of_bits_iff w = ground (arith, bit_and-pow 0 w, bit_and-pow 1 w, bit_and-pow 2 w)

module _ {S : Type 0} ⦃bus : Bus S⦄ (m : Mci) (s : S) where
  -- On every device: with `w` the value that the one load of the register returns, the enumerator is
  -- a boot flow exactly when the low three bits of `w` are 0, 1, 2 or 4, and else it is `invalid`.
  pub reset_reason_enum_iff :
      let w = (reset_reason m s).0 in
      let reason = (reset_reason_enum m s).0 in
      ((reason ≡ cold_boot) ↔ (w % 8 ≡ 0))
      × ((reason ≡ warm_reset) ↔ (w % 8 ≡ 1))
      × ((reason ≡ firmware_boot_reset) ↔ (w % 8 ≡ 2))
      × ((reason ≡ firmware_hitless_update) ↔ (w % 8 ≡ 4))
  unfolding reset_reason_enum
  reset_reason_enum_iff = reason_of_bits_iff (reset_reason m s).0
