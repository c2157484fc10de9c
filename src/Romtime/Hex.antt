-- ===== src/Romtime/Hex.antt =====
-- What the hexadecimal printers write can be read back.
use mcu_fw_cpp.Prelude.{
  ℕ, ◌+◌, ◌-◌, ◌*◌, ◌/◌, ◌%◌, ◌^◌, ◌<◌, ◌≤◌, ◌≡◌, ◌⊎◌, refl, bit_and, List, [], ◌∷◌, ltb,
  if◌then◌else◌, arith, length, u8, ap,
}
use mcu_fw_cpp.Prelude.Masks.{bit_and-mod}
use mcu_fw_cpp.Romtime.{hex_digit, print_bytes, print_word}

-- The value of a hexadecimal character, and of a text of them, highest digit first.
abbrev pub digit_value : ℕ → ℕ
digit_value c = if ltb c b'A' then c - b'0' else c - b'A' + 10

abbrev pub read_from : ℕ → List ℕ → ℕ
read_from acc [] = acc
read_from acc (c ∷ rest) = read_from (acc * 16 + digit_value c) rest

-- Upper-case hexadecimal characters only.
abbrev pub AllHex : List ℕ → Type 0
AllHex [] = Unit
AllHex (c ∷ rest) = (((b'0' ≤ c) × (c ≤ b'9')) ⊎ ((b'A' ≤ c) × (c ≤ b'F'))) × AllHex rest

digit_value-hex_digit : (c : ℕ) → c < 16 → digit_value (hex_digit c) ≡ c
unfolding hex_digit
digit_value-hex_digit c h = ground arith

hex_digit-hex :
    (c : ℕ)
    → c < 16
    → ((b'0' ≤ hex_digit c) × (hex_digit c ≤ b'9')) ⊎ ((b'A' ≤ hex_digit c) × (hex_digit c ≤ b'F'))
unfolding hex_digit
hex_digit-hex c h = ground arith

abbrev two : List ℕ → ℕ → ℕ → List ℕ
two rest h l = hex_digit h ∷ hex_digit l ∷ rest

print_bytes-step :
    (x : ℕ) (rest : List ℕ)
    → x < 2 ^ 8
    → print_bytes (x ∷ rest) ≡ two (print_bytes rest) (x / 16) (x % 16)
unfolding print_bytes
print_bytes-step x rest h = ap (two (print_bytes rest) (x / 16)) (bit_and-mod 4 x)

-- The eight digits of a word.
abbrev digits_of : ℕ → List ℕ
digits_of v =
    two
      (two (two (two [] (v / 2 ^ 4 % 16) (v % 16)) (v / 2 ^ 12 % 16) (v / 2 ^ 8 % 16))
        (v / 2 ^ 20 % 16) (v / 2 ^ 16 % 16))
      (v / 2 ^ 28 % 16) (v / 2 ^ 24 % 16)

print_word-digits : (v : ℕ) → v < 2 ^ 32 → print_word v ≡ digits_of v
unfolding print_word
print_word-digits v h =
    let a : bit_and (v / 2 ^ 24) 0xff ≡ v / 2 ^ 24 % 2 ^ 8 = bit_and-mod 8 (v / 2 ^ 24) in
    let b : bit_and (v / 2 ^ 16) 0xff ≡ v / 2 ^ 16 % 2 ^ 8 = bit_and-mod 8 (v / 2 ^ 16) in
    let c : bit_and (v / 2 ^ 8) 0xff ≡ v / 2 ^ 8 % 2 ^ 8 = bit_and-mod 8 (v / 2 ^ 8) in
    let d : bit_and v 0xff ≡ v % 2 ^ 8 = bit_and-mod 8 v in
    let a' = bit_and-mod 4 (u8 (bit_and (v / 2 ^ 24) 0xff)) in
    let b' = bit_and-mod 4 (u8 (bit_and (v / 2 ^ 16) 0xff)) in
    let c' = bit_and-mod 4 (u8 (bit_and (v / 2 ^ 8) 0xff)) in
    let d' = bit_and-mod 4 (u8 (bit_and v 0xff)) in
    cong₈ (omega arith) (omega arith) (omega arith) (omega arith) (omega arith) (omega arith)
      (omega arith) (omega arith)
  where
    cong₈ :
        {a b c d e f g h a' b' c' d' e' f' g' h' : ℕ}
        → a ≡ a'
        → b ≡ b'
        → c ≡ c'
        → d ≡ d'
        → e ≡ e'
        → f ≡ f'
        → g ≡ g'
        → h ≡ h'
        → two (two (two (two [] g h) e f) c d) a b
          ≡ two (two (two (two [] g' h') e' f') c' d') a' b'
    cong₈ p q r s t u v w = cc

-- A word below 2 ^ 32 is printed as eight upper-case hexadecimal digits, and reading them gives the
-- word back.
pub print_word-read :
    (v : ℕ)
    → v < 2 ^ 32
    → (read_from 0 (print_word v) ≡ v) × AllHex (print_word v) × (length (print_word v) ≡ 8)
print_word-read v h = rw (print_word-digits v h) (
  omega (
    arith,
    digit_value-hex_digit (v / 2 ^ 28 % 16) (omega arith),
    digit_value-hex_digit (v / 2 ^ 24 % 16) (omega arith),
    digit_value-hex_digit (v / 2 ^ 20 % 16) (omega arith),
    digit_value-hex_digit (v / 2 ^ 16 % 16) (omega arith),
    digit_value-hex_digit (v / 2 ^ 12 % 16) (omega arith),
    digit_value-hex_digit (v / 2 ^ 8 % 16) (omega arith),
    digit_value-hex_digit (v / 2 ^ 4 % 16) (omega arith),
    digit_value-hex_digit (v % 16) (omega arith),
  ),
  (
    hex_digit-hex (v / 2 ^ 28 % 16) (omega arith),
    (
      hex_digit-hex (v / 2 ^ 24 % 16) (omega arith),
      (
        hex_digit-hex (v / 2 ^ 20 % 16) (omega arith),
        (
          hex_digit-hex (v / 2 ^ 16 % 16) (omega arith),
          (
            hex_digit-hex (v / 2 ^ 12 % 16) (omega arith),
            (
              hex_digit-hex (v / 2 ^ 8 % 16) (omega arith),
              (
                hex_digit-hex (v / 2 ^ 4 % 16) (omega arith),
                (hex_digit-hex (v % 16) (omega arith), tt),
              ),
            ),
          ),
        ),
      ),
    ),
  ),
  refl,
)
