-- ===== src/Bus/Modify.antt =====
-- `modify_reg` bit by bit: the bits of the mask come from the value, the others stay.
use mcu_fw_cpp.Prelude.{
  ℕ, zero, suc, ◌+◌, ◌-◌, ◌*◌, ◌/◌, ◌^◌, ◌<◌, ◌≡◌, refl, ap, ap₂, ◌∙◌, min, max, bit_and, bit_or,
  u32, not32, arith,
}
use mcu_fw_cpp.Prelude.Bits.{
  bit, bit-lt, bit-and, bit-or, bit-complement, bit_and-le, bit_or-lt, bits_ext,
}
use mcu_fw_cpp.Bus.{Bus, reg, modify_reg}
use mcu_fw_cpp.Bus.Storage.{IsStorage}

-- The word that `modify_reg` stores.
abbrev pub modified : ℕ → ℕ → ℕ → ℕ
modified current mask value = bit_or (bit_and current (not32 mask)) (bit_and value mask)

pub modified-lt :
    (current mask value : ℕ)
    → current < 2 ^ 32
    → value < 2 ^ 32
    → modified current mask value < 2 ^ 32
modified-lt current mask value h k =
    bit_or-lt 32 _ _ (omega (arith, bit_and-le current (not32 mask)))
      (omega (arith, bit_and-le value mask))

bit-not32 : (i a : ℕ) → a < 2 ^ 32 → i < 32 → bit i (not32 a) ≡ 1 - bit i a
bit-not32 i a h k = ap (λ (t : ℕ). bit i (2 ^ 32 - 1 - t)) (omega arith) ∙ bit-complement 32 i a h k

pub modified-bit :
    (i current mask value : ℕ)
    → mask < 2 ^ 32
    → i < 32
    → bit i (modified current mask value)
      ≡ max (min (bit i current) (1 - bit i mask)) (min (bit i value) (bit i mask))
modified-bit i current mask value h k =
    bit-or i _ _
    ∙ ap₂ max (bit-and i current (not32 mask) ∙ ap (min (bit i current)) (bit-not32 i mask h k))
        (bit-and i value mask)

pub bit-zero : (i : ℕ) → bit i 0 ≡ 0
bit-zero zero = refl
bit-zero (suc i) = bit-zero i

-- No bit of a number is set in its complement.
pub bit_and-not32 : (a : ℕ) → a < 2 ^ 32 → bit_and a (not32 a) ≡ 0
bit_and-not32 a h = bits_ext 32 _ 0 (omega (arith, bit_and-le a (not32 a))) (omega arith) bits
  where
    bits : (i : ℕ) → i < 32 → bit i (bit_and a (not32 a)) ≡ bit i 0
    bits i k = omega (arith, bit-and i a (not32 a), bit-not32 i a h k, bit-lt i a, bit-zero i)

half_odd : (w : ℕ) → (w / 2 * 2 + 1) / 2 ≡ w / 2
half_odd w = omega arith

-- The lowest bit set, the others as they were.
pub set_low : (w : ℕ) → w < 2 ^ 32 → modified w 1 1 ≡ w / 2 * 2 + 1
set_low w h = bits_ext 32 _ _ (modified-lt w 1 1 h (omega arith)) (omega arith) bits
  where
    bits : (i : ℕ) → i < 32 → bit i (modified w 1 1) ≡ bit i (w / 2 * 2 + 1)
    bits zero k = omega (arith, modified-bit 0 w 1 1 (omega arith) k)
    bits (suc i) k = omega (
      arith,
      modified-bit (suc i) w 1 1 (omega arith) k,
      bit-zero i,
      ap (bit i) (half_odd w),
      bit-lt i (w / 2),
    )

-- Setting the second bit where it is set already.
pub set_second : (w : ℕ) → w < 2 ^ 32 → bit 1 w ≡ 1 → modified w 2 2 ≡ w
set_second w h e = bits_ext 32 _ w (modified-lt w 2 2 h (omega arith)) h bits
  where
    bits : (i : ℕ) → i < 32 → bit i (modified w 2 2) ≡ bit i w
    bits zero k = omega (arith, modified-bit 0 w 2 2 (omega arith) k, bit-lt 0 w)
    bits (suc zero) k = omega (arith, modified-bit 1 w 2 2 (omega arith) k, e)
    bits (suc (suc i)) k =
        omega (
          arith,
          modified-bit (suc (suc i)) w 2 2 (omega arith) k,
          bit-zero i,
          bit-lt i (w / 2 / 2),
        )

module _ {S : Type 0} ⦃bus : Bus S⦄ {region : ℕ → Type 0} {cell : ℕ → S → ℕ}
    (d : IsStorage bus region cell) where
  pub modify_reg-cell :
      (base offset mask value : ℕ) (s : S)
      → region (reg base offset)
      → value < 2 ^ 32
      → cell (reg base offset) (modify_reg base offset mask value s).1
        ≡ modified (u32 (cell (reg base offset) s)) mask value
  unfolding modify_reg
  modify_reg-cell base offset mask value s r h =
      d.store_cell _ _ _ r
      ∙ ap (λ (t : ℕ). u32 (modified (u32 t) mask value)) (d.load_cell _ s r)
      ∙ omega (arith, modified-lt (u32 (cell (reg base offset) s)) mask value (omega arith) h)
