-- ===== src/Romtime/Console/Trace.antt =====
-- What the printers write, character by character.
use mcu_fw_cpp.Prelude.{ℕ, ◌≡◌, refl, List, [], ◌∷◌, some}
use mcu_fw_cpp.Romtime.{print_bytes, print_word, bytes_of_word}
use mcu_fw_cpp.Romtime.Console.{Writer, print_each, print_word_to}

module _ {S : Type 0} (writer : Writer S) where
  -- The characters one after the other.
  abbrev pub write_chars : List ℕ → S → S
  write_chars [] s = s
  write_chars (c ∷ rest) s = write_chars rest (writer.write_char c s)

  pub print_each-write_chars :
      (xs : List ℕ) (s : S) → print_each writer xs s ≡ write_chars (print_bytes xs) s
  unfolding print_each print_bytes
  print_each-write_chars [] s = refl
  print_each-write_chars (x ∷ rest) s = print_each-write_chars rest _

  pub print_word_to-write_chars :
      (value : ℕ) (s : S) → print_word_to value (some writer) s ≡ write_chars (print_word value) s
  unfolding print_word_to print_word
  print_word_to-write_chars value s = print_each-write_chars (bytes_of_word value) s
