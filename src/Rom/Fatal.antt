-- ===== src/Rom/Fatal.antt =====
-- The fatal error path (`exception_handler`, `rom_panic`, `fatal_error_raw` and `fatal_error` of
-- rom/src/rom.cpp) and what the emulator's main.cpp plugs into it (`EmulatorWriter`,
-- `RomFatalErrorHandler`, `main`). All end in an endless loop: a function here returns the state in which that loop runs.
pub mod Reported
pub mod Exception
use mcu_fw_cpp.Prelude.{ℕ, u8, u32, List, [], ◌∷◌, Option, none, some}
use mcu_fw_cpp.Bus.{Bus, Hw}
use mcu_fw_cpp.Error.{McuError, error_code, generic_exception}
use mcu_fw_cpp.Mci.{set_fw_fatal_error}
use mcu_fw_cpp.Rom.Env.{RomEnv, make_env, g_mcu_memory_map}
use mcu_fw_cpp.Romtime.Console.{codes, Writer, Console, set_printer, print, println, print_word_to}

-- `FatalErrorHandler`, whose method does not return.
pub record FatalErrorHandler (S : Type 0) : Type 0 where
  pub fatal_error : ℕ → S → S

-- The globals of the ROM: the console and the handler, `none` for `nullptr`.
pub record Globals (S : Type 0) : Type 0 where
  pub console : Console S
  pub g_fatal_error_handler : Option (FatalErrorHandler S)

-- The registers that `exception_handler` reads.
pub record Trap (S : Type 0) : Type 0 where
  pub read_csr_mcause : Hw S ℕ
  pub read_csr_mepc : Hw S ℕ
  pub read_csr_mscratch : Hw S ℕ
  pub read_ra : Hw S ℕ

module _ {S : Type 0} where
  unfoldable pub set_fatal_error_handler : Option (FatalErrorHandler S) → Globals S → Globals S
  set_fatal_error_handler handler g = record g { g_fatal_error_handler = handler }

abbrev pub uart_tx : ℕ
uart_tx = 0x10001041

-- `mci_fatal` and `emu_exit` of the handler.
abbrev pub mci_fatal : ℕ
mci_fatal = 0x21000020

abbrev pub emu_exit : ℕ
emu_exit = 0x10002000

module _ {S : Type 0} ⦃bus : Bus S⦄ where
  unfoldable pub uart_write_char : ℕ → S → S
  uart_write_char c s = bus.store uart_tx (u8 c) s

  unfoldable pub uart_write : List ℕ → S → S
  unfolding uart_write_char
  uart_write [] s = s
  uart_write (c ∷ rest) s = uart_write rest (uart_write_char c s)

  unfoldable pub emulator_writer : Writer S
  unfolding uart_write
  emulator_writer = record { write = uart_write; write_char = uart_write_char }

  -- `RomFatalErrorHandler::fatal_error`, over the console of that time.
  unfoldable pub handle_fatal_error : Console S → ℕ → S → S
  unfolding print println print_word_to
  handle_fatal_error console code s =
      let s₁ = print console (some (codes "[mcu-rom] FATAL ERROR: 0x")) s in
      let s₂ = print_word_to code console.g_writer s₁ in
      let s₃ = println console (some []) s₂ in
      bus.store emu_exit (u32 code) (bus.store mci_fatal (u32 code) s₃)

  unfoldable pub rom_handler : Console S → FatalErrorHandler S
  unfolding handle_fatal_error
  rom_handler console = record { fatal_error = handle_fatal_error console }

  unfoldable pub fatal_error_raw : Globals S → ℕ → S → S
  unfolding set_fw_fatal_error make_env
  fatal_error_raw g code s = elim g.g_fatal_error_handler [
    | some handler ↦ handler.fatal_error code s
    | none ↦ (set_fw_fatal_error (make_env g_mcu_memory_map 0).mci code s).1
  ]

  unfoldable pub fatal_error : Globals S → McuError → S → S
  unfolding fatal_error_raw
  fatal_error g error = fatal_error_raw g (error_code error)

  unfoldable pub rom_panic : Globals S → S → S
  unfolding fatal_error_raw
  rom_panic g = fatal_error_raw g 0

  unfoldable pub exception_handler : Trap S → Globals S → S → S
  unfolding fatal_error print println print_word_to
  exception_handler trap g s =
      let c = g.console in
      let (mcause, s₁) = trap.read_csr_mcause s in
      let (mepc, s₂) = trap.read_csr_mepc s₁ in
      let (sp, s₃) = trap.read_csr_mscratch s₂ in
      let (ra, s₄) = trap.read_ra s₃ in
      let s₅ = print_word_to mcause c.g_writer (print c (some (codes "EXCEPTION mcause=")) s₄) in
      let s₆ = print_word_to mepc c.g_writer (print c (some (codes " mepc=")) s₅) in
      let s₇ = print_word_to sp c.g_writer (print c (some (codes " sp=")) s₆) in
      let s₈ = print_word_to ra c.g_writer (print c (some (codes " ra=")) s₇) in
      fatal_error g generic_exception (println c (some []) s₈)

  -- What `main` sets up before `rom_start`.
  unfoldable pub main_globals : Globals S
  unfolding set_printer set_fatal_error_handler rom_handler emulator_writer
  main_globals =
      let console =
        set_printer (some emulator_writer) (record { g_writer = none; g_exiter = none }) in
      set_fatal_error_handler (some (rom_handler console))
        (record { console = console; g_fatal_error_handler = none })
