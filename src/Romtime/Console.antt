-- ===== src/Romtime/Console.antt =====
-- The console of romtime/src/romtime.cpp, with the writer and the exit that the platform sets, and
-- the printers of `HexBytes` and `HexWord` on a writer.
pub mod Trace
use Prim.Native.Char.{code}
use Prim.Native.String.{String}
use mcu_fw_cpp.Prelude.{ℕ, bit_and, List, [], ◌∷◌, Option, none, some, ◌>>>◌}
use mcu_fw_cpp.Romtime.{hex_digit, bytes_of_word}

-- The bytes of an ASCII literal.
abbrev pub codes : String → List ℕ
codes String.[] = []
codes (String.◌∷◌ c s) = code c ∷ codes s

-- The virtual methods of `Writer` and of `Exit`. The text comes with its length.
pub record Writer (S : Type 0) : Type 0 where
  pub write : List ℕ → S → S
  pub write_char : ℕ → S → S

pub record Exit (S : Type 0) : Type 0 where
  pub exit : ℕ → S → S

-- The two global pointers, `none` for `nullptr`.
pub record Console (S : Type 0) : Type 0 where
  pub g_writer : Option (Writer S)
  pub g_exiter : Option (Exit S)

module _ {S : Type 0} where
  unfoldable pub set_printer : Option (Writer S) → Console S → Console S
  set_printer writer c = record c { g_writer = writer }

  unfoldable pub set_exiter : Option (Exit S) → Console S → Console S
  set_exiter exiter c = record c { g_exiter = exiter }

  -- `print(str)`, where a text may be `nullptr`.
  unfoldable pub print : Console S → Option (List ℕ) → S → S
  print c str s = elim c.g_writer [
    | none ↦ s
    | some writer ↦ elim str [ none ↦ s | some text ↦ writer.write text s ]
  ]

  unfoldable pub println : Console S → Option (List ℕ) → S → S
  unfolding print
  println c str s =
      let s' = print c str s in
      elim c.g_writer [ none ↦ s' | some writer ↦ writer.write_char 10 s' ]

  -- The state in which `test_exit` loops for ever.
  unfoldable pub test_exit : Console S → ℕ → S → S
  test_exit c exit_code s = elim c.g_exiter [ none ↦ s | some exiter ↦ exiter.exit exit_code s ]

  -- The loop of `HexBytes::print_to`.
  unfoldable pub print_each : Writer S → List ℕ → S → S
  unfolding hex_digit
  print_each writer [] s = s
  print_each writer (x ∷ rest) s =
      print_each writer rest
        (writer.write_char (hex_digit (bit_and x 0x0f)) (writer.write_char (hex_digit (x >>> 4)) s))

  -- `HexBytes::print_to`, where the writer and the bytes may be `nullptr`.
  unfoldable pub print_bytes_to : Option (List ℕ) → Option (Writer S) → S → S
  unfolding print_each
  print_bytes_to bytes writer s = elim writer [
    | none ↦ s
    | some w ↦ elim bytes [ none ↦ s | some xs ↦ print_each w xs s ]
  ]

  -- `HexWord::print_to`
  unfoldable pub print_word_to : ℕ → Option (Writer S) → S → S
  unfolding print_bytes_to
  print_word_to value writer = print_bytes_to (some (bytes_of_word value)) writer
