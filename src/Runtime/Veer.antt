-- ===== src/Runtime/Veer.antt =====
-- The VeeR core support (runtime/kernel/veer/src/chip.cpp, interrupt.cpp): the classes `Chip` and
-- `InterruptController`. All but the global interrupt enable are stubs in the source.
use mcu_fw_cpp.Prelude.{ℕ}
use mcu_fw_cpp.Bus.{Hw, pure}

-- The instructions that set and clear bits of the status register, `csrsi mstatus` and
-- `csrci mstatus`.
pub record Mstatus (S : Type 0) : Type 0 where
  pub csrsi : ℕ → S → S
  pub csrci : ℕ → S → S

-- `MIE`
abbrev pub mie : ℕ
mie = 0x8

module _ {S : Type 0} where
  unfoldable pub enable_interrupts : Mstatus S → Hw S (Unit {0})
  enable_interrupts mstatus s = (tt, mstatus.csrsi mie s)

  unfoldable pub disable_interrupts : Mstatus S → Hw S (Unit {0})
  disable_interrupts mstatus s = (tt, mstatus.csrci mie s)

  unfoldable pub init_interrupts : Hw S (Unit {0})
  init_interrupts = pure tt

  unfoldable pub enable_interrupt : (irq : ℕ) → Hw S (Unit {0})
  enable_interrupt irq = pure tt

  unfoldable pub disable_interrupt : (irq : ℕ) → Hw S (Unit {0})
  disable_interrupt irq = pure tt

  unfoldable pub set_priority : (irq priority : ℕ) → Hw S (Unit {0})
  set_priority irq priority = pure tt

  unfoldable pub acknowledge : (irq : ℕ) → Hw S (Unit {0})
  acknowledge irq = pure tt

  unfoldable pub init_chip : Hw S (Unit {0})
  init_chip = pure tt

  unfoldable pub chip_id : Hw S ℕ
  chip_id = pure 0

  unfoldable pub configure_watchdog : (timeout : ℕ) → Hw S (Unit {0})
  configure_watchdog timeout = pure tt

  unfoldable pub pet_watchdog : Hw S (Unit {0})
  pet_watchdog = pure tt
