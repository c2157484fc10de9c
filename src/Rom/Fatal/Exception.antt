-- ===== src/Rom/Fatal/Exception.antt =====
-- What an exception leaves on the device (`exception_handler` of rom/src/rom.cpp).
use mcu_fw_cpp.Prelude.{ℕ, ◌≡◌, ◌∙◌, refl, sym, ap, List, [], ◌∷◌, ◌++◌, some}
use mcu_fw_cpp.Bus.{Bus, stores}
use mcu_fw_cpp.Error.{error_code}
use mcu_fw_cpp.Romtime.{print_word}
use mcu_fw_cpp.Romtime.Console.{codes, print, println, print_word_to}
use mcu_fw_cpp.Rom.Fatal.{
  Trap, emulator_writer, uart_write, uart_write_char, fatal_error, exception_handler, main_globals,
  mci_fatal, emu_exit,
}
use mcu_fw_cpp.Rom.Fatal.Reported.{
  uart_stores, uart_write-stores, word_stores, spoken, fatal_error_raw-stores,
}

-- The line that describes an exception.
abbrev pub exception_text : ℕ → ℕ → ℕ → ℕ → List ℕ
exception_text mcause mepc sp ra =
    (codes "EXCEPTION mcause=" ++ print_word mcause)
    ++ ((codes " mepc=" ++ print_word mepc)
        ++ ((codes " sp=" ++ print_word sp) ++ ((codes " ra=" ++ print_word ra) ++ 10 ∷ [])))

module _ {S : Type 0} ⦃bus : Bus S⦄ where
  -- A text on the serial port.
  abbrev pub said : List ℕ → S → S
  said text s = stores (uart_stores text) s

  said-append : (a b : List ℕ) (s : S) → said (a ++ b) s ≡ said b (said a s)
  said-append [] b s = refl
  said-append (c ∷ a) b s = said-append a b _

  said_word :
      (label : List ℕ) (v : ℕ) (s : S)
      → print_word_to v (some emulator_writer) (uart_write label s) ≡ said (label ++ print_word v) s
  said_word label v s =
      word_stores v (uart_write label s)
      ∙ ap (said (print_word v)) (uart_write-stores label s)
      ∙ sym (said-append label (print_word v) s)

  -- The four registers, in the order in which they are read, and the state then.
  abbrev pub trapped : Trap S → S → (ℕ × ℕ × ℕ × ℕ) × S
  trapped trap s =
      let (mcause, s₁) = trap.read_csr_mcause s in
      let (mepc, s₂) = trap.read_csr_mepc s₁ in
      let (sp, s₃) = trap.read_csr_mscratch s₂ in
      let (ra, s₄) = trap.read_ra s₃ in ((mcause, mepc, sp, ra), s₄)

  labelled :
      (label : List ℕ) (v : ℕ) (rest : List ℕ) (s t : S)
      → said rest (print_word_to v (some emulator_writer) (uart_write label s)) ≡ t
      → said ((label ++ print_word v) ++ rest) s ≡ t
  labelled label v rest s t e =
      said-append (label ++ print_word v) rest s ∙ ap (said rest) (sym (said_word label v s)) ∙ e

  -- With the writer and the handler that `main` installs, on every device, and whatever the four
  -- registers are read as: `exception_handler` makes exactly these stores before it loops, after it has read the registers. To the serial
  -- port the bytes of a line with the hexadecimal digits of the four registers, then those of the
  -- message of a fatal error with the code 1 of GENERIC_EXCEPTION; then this code to 0x21000020 and to 0x10002000.
  pub exception_handler-stores :
      (trap : Trap S) (s : S)
      → let ((mcause, mepc, sp, ra), s') = trapped trap s in
        exception_handler trap main_globals s
        ≡ stores
            ((mci_fatal, 1) ∷ (emu_exit, 1) ∷ [])
            (spoken 1 (said (exception_text mcause mepc sp ra) s'))
  unfolding exception_handler fatal_error main_globals print println emulator_writer uart_write_char
      error_code
  exception_handler-stores trap s =
      let ((mcause, mepc, sp, ra), s') = trapped trap s in
      fatal_error_raw-stores 1 _
      ∙ ap (λ (t : S). stores ((mci_fatal, 1) ∷ (emu_exit, 1) ∷ []) (spoken 1 t))
          (sym (
            labelled (codes "EXCEPTION mcause=") mcause _ s' _ (
              labelled (codes " mepc=") mepc _ _ _ (
                labelled (codes " sp=") sp _ _ _ (labelled (codes " ra=") ra (10 ∷ []) _ _ refl)))))
