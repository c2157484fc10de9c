-- ===== src/SocManager/Checksum.antt =====
-- The mailbox checksum, `calc_checksum`.
use mcu_fw_cpp.Prelude.{
  ℕ, ◌+◌, ◌/◌, ◌%◌, ◌^◌, ◌<◌, u32, not32, bit_and, ◌>>>◌, List, [], ◌∷◌, ◌≡◌, arith,
}
use mcu_fw_cpp.Prelude.Masks.{bit_and-mod}

-- The bytes of a word in memory, lowest first.
abbrev pub word_bytes : ℕ → List ℕ
word_bytes w = w % 2 ^ 8 ∷ w / 2 ^ 8 % 2 ^ 8 ∷ w / 2 ^ 16 % 2 ^ 8 ∷ w / 2 ^ 24 % 2 ^ 8 ∷ []

-- The loop over the payload.
unfoldable pub add_payload : List ℕ → ℕ → ℕ
add_payload [] checksum = checksum
add_payload (byte ∷ rest) checksum = add_payload rest (u32 (checksum + byte))

unfoldable pub calc_checksum : ℕ → List ℕ → ℕ
unfolding add_payload
calc_checksum cmd payload =
    let c₁ = u32 (0 + bit_and (cmd >>> 0) 0xff) in
    let c₂ = u32 (c₁ + bit_and (cmd >>> 8) 0xff) in
    let c₃ = u32 (c₂ + bit_and (cmd >>> 16) 0xff) in
    let c₄ = u32 (c₃ + bit_and (cmd >>> 24) 0xff) in u32 (not32 (add_payload payload c₄) + 1)

-- The plain sum of some bytes, and of the four bytes of a command.
abbrev pub sum : List ℕ → ℕ
sum [] = 0
sum (b ∷ rest) = b + sum rest

add_payload-sum : (bytes : List ℕ) (c : ℕ) → c < 2 ^ 32 → add_payload bytes c ≡ u32 (c + sum bytes)
unfolding add_payload
add_payload-sum [] c h = omega arith
add_payload-sum (b ∷ rest) c h = omega (arith, add_payload-sum rest (u32 (c + b)) (omega arith))

-- A receiver that adds up the bytes of the command and of the payload and then the checksum gets
-- zero, in 32-bit arithmetic: the checksum is the two's complement of the sum.
pub calc_checksum_balances :
    (cmd : ℕ) (payload : List ℕ)
    → u32 (sum (word_bytes cmd) + sum payload + calc_checksum cmd payload) ≡ 0
unfolding calc_checksum
calc_checksum_balances cmd payload =
    let b₁ : ℕ = bit_and (cmd >>> 0) 0xff in
    let b₂ : ℕ = bit_and (cmd >>> 8) 0xff in
    let b₃ : ℕ = bit_and (cmd >>> 16) 0xff in
    let b₄ : ℕ = bit_and (cmd >>> 24) 0xff in
    omega (
      arith,
      bit_and-mod 8 (cmd >>> 0),
      bit_and-mod 8 (cmd >>> 8),
      bit_and-mod 8 (cmd >>> 16),
      bit_and-mod 8 (cmd >>> 24),
      add_payload-sum payload (u32 (u32 (u32 (u32 (0 + b₁) + b₂) + b₃) + b₄)) (omega arith),
    )
