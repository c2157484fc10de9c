-- ===== src/Bus.antt =====
-- Memory-mapped registers: the device behind every `volatile` access, and the drivers' register
-- helpers (romtime/src/mci.cpp, `reg`, `read_reg`, `write_reg`, `modify_reg`; the drivers of rom/src
-- repeat them).
use mcu_fw_cpp.Prelude.{ℕ, ◌+◌, bit_and, bit_or, u32, not32, List, [], ◌∷◌}
pub mod Storage
pub mod Modify

-- The hardware. A load may change the device (it takes a lock, pops a FIFO), and what it returns is
-- up to the device.
pub record Bus (S : Type 0) : Type 0 where
  pub load : ℕ → S → ℕ × S
  pub store : ℕ → ℕ → S → S

-- A computation that talks to the device.
abbrev pub Hw : Type 0 → Type 0 → Type 0
Hw S A = S → A × S

module _ {S : Type 0} where
  infixl 5 ◌>>=◌ ◌>>◌
  abbrev pub ◌>>=◌ : {A B : Type 0} → Hw S A → (A → Hw S B) → Hw S B
  ◌>>=◌ m f s = let (a, s') = m s in f a s'

  abbrev pub ◌>>◌ : {B : Type 0} → Hw S (Unit {0}) → Hw S B → Hw S B
  m >> k = m >>= λ _. k

  abbrev pub pure : {A : Type 0} → A → Hw S A
  pure a s = (a, s)

-- `base_addr_ + offset`, an address of the 32-bit target.
abbrev pub reg : ℕ → ℕ → ℕ
reg base offset = u32 (base + offset)

module _ {S : Type 0} ⦃bus : Bus S⦄ where
  -- A 32-bit load keeps 32 bits of what the device returns.
  unfoldable pub read_reg : ℕ → ℕ → Hw S ℕ
  read_reg base offset s = let (v, s') = bus.load (reg base offset) s in (u32 v, s')

  unfoldable pub write_reg : ℕ → ℕ → ℕ → Hw S (Unit {0})
  write_reg base offset value s = (tt, bus.store (reg base offset) (u32 value) s)

  unfoldable pub modify_reg : ℕ → ℕ → ℕ → ℕ → Hw S (Unit {0})
  unfolding read_reg write_reg
  modify_reg base offset mask value = do
    current ← read_reg base offset
    write_reg base offset (bit_or (bit_and current (not32 mask)) (bit_and value mask))

  -- Stores one after another, in the order of the list.
  abbrev pub stores : List (ℕ × ℕ) → S → S
  stores [] s = s
  stores ((addr, value) ∷ rest) s = stores rest (bus.store addr value s)
