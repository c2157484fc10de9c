-- ===== src/Rom/Fatal/Reported.antt =====
-- What a fatal error leaves on the device.
use mcu_fw_cpp.Prelude.{
  ℕ, ◌≡◌, ◌≢◌, ◌∙◌, refl, ap, u8, u32, arith, List, [], ◌∷◌, some, none, ◌⊎◌, inl, inr,
}
use mcu_fw_cpp.Bus.{Bus, stores, write_reg}
use mcu_fw_cpp.Bus.Storage.{IsStorage}
use mcu_fw_cpp.Mci.{set_fw_fatal_error}
use mcu_fw_cpp.Romtime.{print_word}
use mcu_fw_cpp.Romtime.Console.{codes, print, println, print_word_to, Console}
use mcu_fw_cpp.Romtime.Console.Trace.{write_chars, print_word_to-write_chars}
use mcu_fw_cpp.Rom.Env.{make_env}
use mcu_fw_cpp.Rom.Fatal.{
  uart_write, uart_write_char, emulator_writer, handle_fatal_error, fatal_error_raw, main_globals,
  mci_fatal, emu_exit, uart_tx,
}

-- The stores of a text to the serial port.
abbrev pub uart_stores : List ℕ → List (ℕ × ℕ)
uart_stores [] = []
uart_stores (c ∷ rest) = (uart_tx, u8 c) ∷ uart_stores rest

-- The registers that tell of a fatal error.
abbrev pub Told : ℕ → Type 0
Told a = (a ≡ 0x21000020) ⊎ (a ≡ 0x10002000) ⊎ (a ≡ 0x2100000c)

module _ {S : Type 0} ⦃bus : Bus S⦄ where
  pub uart_write-stores : (text : List ℕ) (s : S) → uart_write text s ≡ stores (uart_stores text) s
  unfolding uart_write
  uart_write-stores [] s = refl
  uart_write-stores (c ∷ rest) s = uart_write-stores rest _

  write_chars-stores :
      (text : List ℕ) (s : S) → write_chars emulator_writer text s ≡ stores (uart_stores text) s
  unfolding emulator_writer uart_write_char
  write_chars-stores [] s = refl
  write_chars-stores (c ∷ rest) s = write_chars-stores rest _

  pub word_stores :
      (code : ℕ) (s : S)
      → print_word_to code (some emulator_writer) s ≡ stores (uart_stores (print_word code)) s
  word_stores code s =
      print_word_to-write_chars emulator_writer code s ∙ write_chars-stores (print_word code) s

  -- The stores of the message.
  abbrev pub spoken : ℕ → S → S
  spoken code s = stores (uart_stores (10 ∷ [])) (
      stores (uart_stores (print_word code))
        (stores (uart_stores (codes "[mcu-rom] FATAL ERROR: 0x")) s))

  -- With the writer and the handler that `main` installs, on every device, `fatal_error_raw` makes
  -- exactly these stores before it loops: to the serial port the bytes of the message, the
  -- hexadecimal digits of the code and a newline; then the code to 0x21000020 and to 0x10002000.
  pub fatal_error_raw-stores :
      (code : ℕ) (s : S)
      → fatal_error_raw main_globals code s
        ≡ stores ((mci_fatal, u32 code) ∷ (emu_exit, u32 code) ∷ []) (spoken code s)
  unfolding fatal_error_raw main_globals handle_fatal_error print println emulator_writer uart_write
      uart_write_char
  fatal_error_raw-stores code s =
      ap
        (λ (t : S).
          bus.store emu_exit (u32 code) (bus.store mci_fatal (u32 code) (bus.store uart_tx 10 t)))
        (word_stores code (uart_write (codes "[mcu-rom] FATAL ERROR: 0x") s))

  -- Text on the serial port changes no register that is storage.
  uart_stores-keep :
      {region : ℕ → Type 0} {cell : ℕ → S → ℕ} (d : IsStorage bus region cell) (b : ℕ)
      (text : List ℕ) (s : S)
      → region b
      → uart_tx ≢ b
      → cell b (stores (uart_stores text) s) ≡ cell b s
  uart_stores-keep d b [] s r ne = refl
  uart_stores-keep d b (c ∷ rest) s r ne =
      uart_stores-keep d b rest _ r ne ∙ d.store_keeps uart_tx b (u8 c) s r ne

  -- Of the registers that are storage, the handler changes its own two.
  pub fatal_error_raw-keeps :
      {region : ℕ → Type 0} {cell : ℕ → S → ℕ} (d : IsStorage bus region cell) (b code : ℕ) (s : S)
      → region b
      → uart_tx ≢ b
      → mci_fatal ≢ b
      → emu_exit ≢ b
      → cell b (fatal_error_raw main_globals code s) ≡ cell b s
  fatal_error_raw-keeps {cell = cell} d b code s r not_uart not_fatal not_exit =
      ap (cell b) (fatal_error_raw-stores code s)
      ∙ d.store_keeps emu_exit b (u32 code) _ r not_exit
      ∙ d.store_keeps mci_fatal b (u32 code) _ r not_fatal
      ∙ uart_stores-keep d b (10 ∷ []) _ r not_uart
      ∙ uart_stores-keep d b (print_word code) _ r not_uart
      ∙ uart_stores-keep d b (codes "[mcu-rom] FATAL ERROR: 0x") s r not_uart

  -- Without a handler, the driver's one store.
  unhandled :
      (code : ℕ) (console : Console S) (s : S)
      → fatal_error_raw (record { console = console; g_fatal_error_handler = none }) code s
        ≡ bus.store 0x2100000c (u32 code) s
  unfolding fatal_error_raw set_fw_fatal_error make_env write_reg
  unhandled code console s = refl

  -- Where the three registers 0x21000020, 0x10002000 and 0x2100000c are plain storage: with what
  -- `main` installs, `fatal_error_raw` leaves the code in the first two and does not change the
  -- third, which is FW_ERROR_FATAL of the MCI driver; without a handler it leaves the code in the
  -- third and does not change the first two.
  pub fatal_error_raw-cells :
      {cell : ℕ → S → ℕ} (d : IsStorage bus Told cell) (code : ℕ) (console : Console S) (s : S)
      → (cell 0x21000020 (fatal_error_raw main_globals code s) ≡ u32 code)
        × (cell 0x10002000 (fatal_error_raw main_globals code s) ≡ u32 code)
        × (cell 0x2100000c (fatal_error_raw main_globals code s) ≡ cell 0x2100000c s)
        × (cell 0x21000020
              (fatal_error_raw (record { console = console; g_fatal_error_handler = none }) code s)
            ≡ cell 0x21000020 s)
        × (cell 0x10002000
              (fatal_error_raw (record { console = console; g_fatal_error_handler = none }) code s)
            ≡ cell 0x10002000 s)
        × (cell 0x2100000c
              (fatal_error_raw (record { console = console; g_fatal_error_handler = none }) code s)
            ≡ u32 code)
  fatal_error_raw-cells {cell} d code console s =
      let at_mci : Told 0x21000020 = inl refl in
      let at_exit : Told 0x10002000 = inr (inl refl) in
      let at_driver : Told 0x2100000c = inr (inr refl) in
      let e = fatal_error_raw-stores code s in
      let e' = unhandled code console s in
      let t = spoken code s in
      let t' = bus.store mci_fatal (u32 code) t in
      (
        ap (cell 0x21000020) e
            ∙ d.store_keeps emu_exit _ (u32 code) t' at_mci (omega arith)
            ∙ d.store_cell mci_fatal (u32 code) t at_mci,
        ap (cell 0x10002000) e ∙ d.store_cell emu_exit (u32 code) t' at_exit,
        fatal_error_raw-keeps d _ code s at_driver (omega arith) (omega arith) (omega arith),
        ap (cell 0x21000020) e' ∙ d.store_keeps _ _ (u32 code) s at_mci (omega arith),
        ap (cell 0x10002000) e' ∙ d.store_keeps _ _ (u32 code) s at_exit (omega arith),
        ap (cell 0x2100000c) e' ∙ d.store_cell _ (u32 code) s at_driver,
      )
