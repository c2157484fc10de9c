-- ===== src/Bus/Storage.antt =====
-- Registers that behave as memory, and a memory as the device that has them.
use mcu_fw_cpp.Prelude.{ℕ, ◌≡◌, ◌≢◌, refl, ap, ◌∙◌, u32, arith, ◌==◌, if◌then◌else◌, List, [], ◌∷◌}
use mcu_fw_cpp.Bus.{Bus, reg, read_reg, write_reg, modify_reg, stores}

-- The documented behaviour of plain read/write registers: in the region a load returns what was
-- stored last and no other access changes it. Outside the region the device may do anything else.
pub record IsStorage {S : Type 0} (bus : Bus S) (region : ℕ → Type 0) (cell : ℕ → S → ℕ)
    : Type 0 where
  pub load_cell : (a : ℕ) (s : S) → region a → (bus.load a s).0 ≡ cell a s
  pub load_keeps : (a b : ℕ) (s : S) → region b → cell b (bus.load a s).1 ≡ cell b s
  pub store_cell : (a v : ℕ) (s : S) → region a → cell a (bus.store a v s) ≡ v
  pub store_keeps : (a b v : ℕ) (s : S) → region b → a ≢ b → cell b (bus.store a v s) ≡ cell b s

module _ {S : Type 0} ⦃bus : Bus S⦄ {region : ℕ → Type 0} {cell : ℕ → S → ℕ}
    (d : IsStorage bus region cell) where
  pub read_reg-cell :
      (base offset : ℕ) (s : S)
      → region (reg base offset)
      → (read_reg base offset s).0 ≡ u32 (cell (reg base offset) s)
  unfolding read_reg
  read_reg-cell base offset s r = ap u32 (d.load_cell _ s r)

  pub read_reg-keeps :
      (base offset b : ℕ) (s : S) → region b → cell b (read_reg base offset s).1 ≡ cell b s
  unfolding read_reg
  read_reg-keeps base offset b s r = d.load_keeps _ b s r

  pub write_reg-cell :
      (base offset value : ℕ) (s : S)
      → region (reg base offset)
      → cell (reg base offset) (write_reg base offset value s).1 ≡ u32 value
  unfolding write_reg
  write_reg-cell base offset value s r = d.store_cell _ _ s r

  pub write_reg-keeps :
      (base offset value b : ℕ) (s : S)
      → region b
      → reg base offset ≢ b
      → cell b (write_reg base offset value s).1 ≡ cell b s
  unfolding write_reg
  write_reg-keeps base offset value b s r ne = d.store_keeps _ b _ s r ne

  pub modify_reg-keeps :
      (base offset mask value b : ℕ) (s : S)
      → region b
      → reg base offset ≢ b
      → cell b (modify_reg base offset mask value s).1 ≡ cell b s
  unfolding modify_reg
  modify_reg-keeps base offset mask value b s r ne =
      d.store_keeps _ b _ _ r ne ∙ d.load_keeps _ b s r

  -- None of the stores is to `b`.
  abbrev pub Apart : ℕ → List (ℕ × ℕ) → Type 0
  Apart b [] = Unit {0}
  Apart b ((addr, value) ∷ rest) = (addr ≢ b) × Apart b rest

  -- The stores are to registers of the region, each to another one.
  abbrev pub Distinct : List (ℕ × ℕ) → Type 0
  Distinct [] = Unit {0}
  Distinct ((addr, value) ∷ rest) = region addr × Apart addr rest × Distinct rest

  -- Each register has the value that stands with it.
  abbrev pub Holds : List (ℕ × ℕ) → S → Type 0
  Holds [] s = Unit {0}
  Holds ((addr, value) ∷ rest) s = (cell addr s ≡ value) × Holds rest s

  pub stores-keeps :
      (b : ℕ) (l : List (ℕ × ℕ)) (s : S) → region b → Apart b l → cell b (stores l s) ≡ cell b s
  stores-keeps b [] s r apart = refl
  stores-keeps b ((addr, value) ∷ rest) s r (ne, apart) =
      stores-keeps b rest (bus.store addr value s) r apart ∙ d.store_keeps addr b value s r ne

  pub stores-Holds : (l : List (ℕ × ℕ)) (s : S) → Distinct l → Holds l (stores l s)
  stores-Holds [] s apart = tt
  stores-Holds ((addr, value) ∷ rest) s (r, apart, distinct) = (
    stores-keeps addr rest (bus.store addr value s) r apart ∙ d.store_cell addr value s r,
    stores-Holds rest (bus.store addr value s) distinct,
  )

-- A smaller region.
pub narrow :
    {S : Type 0} {bus : Bus S} {region part : ℕ → Type 0} {cell : ℕ → S → ℕ}
    → ((a : ℕ) → part a → region a)
    → IsStorage bus region cell
    → IsStorage bus part cell
narrow inside d = record {
  load_cell = λ a s r. d.load_cell a s (inside a r);
  load_keeps = λ a b s r. d.load_keeps a b s (inside b r);
  store_cell = λ a v s r. d.store_cell a v s (inside a r);
  store_keeps = λ a b v s r. d.store_keeps a b v s (inside b r);
}

-- A memory: every address is such a register.
abbrev pub Memory : Type 0
Memory = ℕ → ℕ

instance abbrev pub memory_bus : Bus Memory
memory_bus = record { load = λ a m. (m a, m); store = λ a v m b. if a == b then v else m b }

abbrev pub Anywhere : ℕ → Type 0
Anywhere a = Unit {0}

pub memory_bus-IsStorage : IsStorage memory_bus Anywhere (λ a m. m a)
memory_bus-IsStorage = record {
  load_cell = λ a s r. refl;
  load_keeps = λ a b s r. refl;
  store_cell = λ a v s r. ground arith;
  store_keeps = λ a b v s r ne. ground arith;
}
