-- ===== src/I3c/Control.antt =====
-- The control register of the I3C driver.
use mcu_fw_cpp.Prelude.{
  ℕ, zero, suc, ◌+◌, ◌-◌, ◌*◌, min, max, ◌/◌, ◌^◌, ◌<◌, ◌≡◌, refl, ap, ◌∙◌, u32, arith,
}
use mcu_fw_cpp.Prelude.Bits.{bit, bit-lt, bits_ext}
use mcu_fw_cpp.Bus.{Bus, reg, modify_reg}
use mcu_fw_cpp.Bus.Storage.{IsStorage}
use mcu_fw_cpp.Bus.Modify.{modified, modified-lt, modified-bit, bit-zero, modify_reg-cell}
use mcu_fw_cpp.Error.{ok}
use mcu_fw_cpp.I3c.{I3c, reg_ctrl, enable, clear_tx_fifo, clear_rx_fifo, init}

-- A bit of the mask pulsed: set, and cleared again.
abbrev pulsed : ℕ → ℕ → ℕ
pulsed mask w = modified (modified w mask mask) mask 0

pulsed-lt : (mask w : ℕ) → mask < 2 ^ 32 → w < 2 ^ 32 → pulsed mask w < 2 ^ 32
pulsed-lt mask w h k = modified-lt _ mask 0 (modified-lt w mask mask k h) (omega arith)

pulsed-bit :
    (i mask w : ℕ) → mask < 2 ^ 32 → i < 32 → bit i (pulsed mask w) ≡ min (bit i w) (1 - bit i mask)
pulsed-bit i mask w h k = omega (
  arith,
  modified-bit i (modified w mask mask) mask 0 h k,
  modified-bit i w mask mask h k,
  bit-zero i,
  bit-lt i w,
  bit-lt i mask,
)

abbrev started : ℕ → ℕ
started w = modified (pulsed 0x04 (pulsed 0x02 w)) 0x01 0x01

three_bits :
    (w i : ℕ)
    → i < 32
    → (bit i (started w)
        ≡ max (min (bit i (pulsed 0x04 (pulsed 0x02 w))) (1 - bit i 1)) (min (bit i 1) (bit i 1)))
      × (bit i (pulsed 0x04 (pulsed 0x02 w))
          ≡ min (min (bit i w) (1 - bit i 0x02)) (1 - bit i 0x04))
three_bits w i k = (
  modified-bit i (pulsed 0x04 (pulsed 0x02 w)) 1 1 (omega arith) k,
  pulsed-bit i 0x04 (pulsed 0x02 w) (omega arith) k
      ∙ ap (λ (t : ℕ). min t (1 - bit i 0x04)) (pulsed-bit i 0x02 w (omega arith) k),
)

eighth : (w : ℕ) → (w / 8 * 8 + 1) / 2 / 2 / 2 ≡ w / 2 / 2 / 2
eighth w = omega arith

started-bits : (w : ℕ) → w < 2 ^ 32 → started w ≡ w / 8 * 8 + 1
started-bits w h =
    bits_ext 32 _ _
      (modified-lt _ 1 1 (pulsed-lt 4 _ (omega arith) (pulsed-lt 2 w (omega arith) h))
        (omega arith))
      (omega arith) bits
  where
    bits : (i : ℕ) → i < 32 → bit i (started w) ≡ bit i (w / 8 * 8 + 1)
    bits zero k = omega (arith, three_bits w 0 k)
    bits (suc zero) k = omega (arith, three_bits w 1 k)
    bits (suc (suc zero)) k = omega (arith, three_bits w 2 k)
    bits (suc (suc (suc i))) k = omega (
      arith,
      three_bits w (suc (suc (suc i))) k,
      bit-zero i,
      bit-lt i (w / 2 / 2 / 2),
      ap (bit i) (eighth w),
    )

module _ {S : Type 0} ⦃bus : Bus S⦄ {region : ℕ → Type 0} {cell : ℕ → S → ℕ}
    (d : IsStorage bus region cell) (c : I3c) (r : region (reg c.base_addr reg_ctrl)) where
  abbrev control : S → ℕ
  control s = cell (reg c.base_addr reg_ctrl) s

  modify-control :
      (mask value : ℕ) (s : S)
      → value < 2 ^ 32
      → control (modify_reg c.base_addr reg_ctrl mask value s).1
        ≡ modified (u32 (control s)) mask value
  modify-control mask value s h = modify_reg-cell d c.base_addr reg_ctrl mask value s r h

  pulse-control :
      (mask : ℕ) (s : S)
      → mask < 2 ^ 32
      → control
          (modify_reg c.base_addr reg_ctrl mask 0 (modify_reg c.base_addr reg_ctrl mask mask s).1).1
        ≡ pulsed mask (u32 (control s))
  pulse-control mask s h =
      modify-control mask 0 _ (omega arith)
      ∙ ap (λ (t : ℕ). modified (u32 t) mask 0) (modify-control mask mask s h)
      ∙ ap (λ (t : ℕ). modified t mask 0)
          (omega (arith, modified-lt (u32 (control s)) mask mask (omega arith) h))

  -- What is pulsed is below 2 ^ 32, so that reading it back gives the same word.
  u32-pulsed : (mask w : ℕ) → mask < 2 ^ 32 → w < 2 ^ 32 → u32 (pulsed mask w) ≡ pulsed mask w
  u32-pulsed mask w h k = omega (arith, pulsed-lt mask w h k)

  cleared-control :
      (s : S)
      → u32 (control (clear_rx_fifo c (clear_tx_fifo c s).1).1)
        ≡ pulsed 0x04 (pulsed 0x02 (u32 (control s)))
  unfolding clear_tx_fifo clear_rx_fifo
  cleared-control s =
      ap u32 (
        pulse-control 0x04 _ (omega arith)
        ∙ ap (λ (t : ℕ). pulsed 0x04 (u32 t)) (pulse-control 0x02 s (omega arith))
        ∙ ap (pulsed 0x04) (u32-pulsed 0x02 (u32 (control s)) (omega arith) (omega arith)))
      ∙ u32-pulsed 0x04 (pulsed 0x02 (u32 (control s))) (omega arith)
          (pulsed-lt 0x02 (u32 (control s)) (omega arith) (omega arith))

  -- Where the control register is plain storage, `init` succeeds and leaves the controller enabled,
  -- both FIFO reset bits clear, and the other bits of the register as they were.
  init-control :
      (s : S) → ((init c s).0 ≡ ok tt) × (control (init c s).1 ≡ u32 (control s) / 8 * 8 + 1)
  unfolding init enable
  init-control s = (
    refl,
    modify-control 0x01 0x01 _ (omega arith)
        ∙ ap (λ (t : ℕ). modified t 0x01 0x01) (cleared-control s)
        ∙ started-bits (u32 (control s)) (omega arith),
  )
