-- ===== src/Flash/Bounds.antt =====
-- The bounds checks of the flash window, and where they wrap.
use mcu_fw_cpp.Prelude.{
  ℕ, ◌+◌, ◌-◌, ◌*◌, ◌^◌, ◌≤◌, ◌<◌, ◌≡◌, ◌↔◌, refl, ap, ◌∙◌, u8, u32, true, arith, inl, inr, ltb,
  ltb-cases, leb, if◌then◌else◌, bit_or, false,
}
use mcu_fw_cpp.Prelude.Masks.{bit_or-low_high}
use mcu_fw_cpp.Error.{McuResult, ok, err, flash_invalid_address, ◌>>=◌, pure}
use mcu_fw_cpp.Flash.Hil.{FlashHil, Chunk}
use mcu_fw_cpp.Flash.{FlashMemory, assemble, contains, to_flash_offset, read_word}

-- The region fits the address space.
pub record IsRegion (f : FlashMemory) : Type 0 where
  pub size_fits : f.size < 2 ^ 32
  pub end_fits : f.base_address + f.size < 2 ^ 32

-- An address is contained exactly when it is the base plus an offset below the size, for a region
-- that ends below 2 ^ 32, and `to_flash_offset` gives that offset.
contains_iff :
    (f : FlashMemory) (address : ℕ)
    → IsRegion f
    → address < 2 ^ 32
    → (contains f address ≡ true) ↔ (
        (f.base_address + to_flash_offset f address ≡ address)
        × (to_flash_offset f address < f.size))
unfolding contains to_flash_offset
contains_iff f address r h = ground arith

-- The little-endian value of four bytes.
abbrev pub little_endian : (ℕ → ℕ) → ℕ
little_endian bytes =
    u8 (bytes 0) + u8 (bytes 1) * 2 ^ 8 + u8 (bytes 2) * 2 ^ 16 + u8 (bytes 3) * 2 ^ 24

assemble-little_endian : (c : Chunk) → assemble c ≡ little_endian c.bytes
unfolding assemble
assemble-little_endian c =
    ap
      (λ (t : ℕ). bit_or (bit_or t (u32 (u8 (c.bytes 2) * 2 ^ 16))) (u32 (u8 (c.bytes 3) * 2 ^ 24)))
      first
    ∙ ap (λ (t : ℕ). bit_or t (u32 (u8 (c.bytes 3) * 2 ^ 24))) second
    ∙ third
  where
    first :
        bit_or (u8 (c.bytes 0)) (u32 (u8 (c.bytes 1) * 2 ^ 8))
        ≡ u8 (c.bytes 1) * 2 ^ 8 + u8 (c.bytes 0)
    first =
        ap (bit_or (u8 (c.bytes 0))) (omega arith)
        ∙ bit_or-low_high 8 (u8 (c.bytes 1)) (u8 (c.bytes 0)) (omega arith)

    second :
        bit_or (u8 (c.bytes 1) * 2 ^ 8 + u8 (c.bytes 0)) (u32 (u8 (c.bytes 2) * 2 ^ 16))
        ≡ u8 (c.bytes 2) * 2 ^ 16 + (u8 (c.bytes 1) * 2 ^ 8 + u8 (c.bytes 0))
    second = ap (bit_or _) (omega arith) ∙ bit_or-low_high 16 (u8 (c.bytes 2)) _ (omega arith)

    third :
        bit_or
          (u8 (c.bytes 2) * 2 ^ 16 + (u8 (c.bytes 1) * 2 ^ 8 + u8 (c.bytes 0)))
          (u32 (u8 (c.bytes 3) * 2 ^ 24))
        ≡ little_endian c.bytes
    third =
        ap (bit_or _) (omega arith)
        ∙ bit_or-low_high 24 (u8 (c.bytes 3)) _ (omega arith)
        ∙ omega arith

-- A controller that reads a fixed content: every read succeeds, changes nothing, and brings the
-- bytes from the address on.
pub record IsFlash {S : Type 0} (hil : FlashHil S) (content : ℕ → ℕ) : Type 0 where
  pub reads :
      (a n : ℕ) (s : S)
      → hil.read a n s ≡ (ok (record { count = n; bytes = λ i. content (a + i) }), s)

module _ {S : Type 0} (hil : FlashHil S) (content : ℕ → ℕ) (d : IsFlash hil content)
    (f : FlashMemory) (offset : ℕ) (s : S) where
  -- What a read of four bytes brings, at the address that `address` stands for.
  fetched :
      (address : ℕ) {start : ℕ}
      → address ≡ start
      → (hil.read address 4 >>= λ c. pure (assemble c)) s
        ≡ (ok (little_endian (λ i. content (start + i))), s)
  fetched address e =
      ap word_of (d.reads address 4 s)
      ∙ ap (λ (w : ℕ). (ok w, s))
          (assemble-little_endian _ ∙ ap (λ (a : ℕ). little_endian (λ i. content (a + i))) e)
    where
      word_of : McuResult Chunk × S → McuResult ℕ × S
      word_of (r, s') = elim r [ ok c ↦ (ok (assemble c), s') | err x ↦ (err x, s') ]

  -- Over a controller that reads a fixed content, inside a window that ends below 2 ^ 32, and for an
  -- offset below 2 ^ 32 - 4, `read_word` gives the little-endian word of the content at the window's
  -- base plus the offset if all four bytes lie in the window, and else FLASH_INVALID_ADDRESS.
  pub read_word-content :
      IsRegion f
      → offset < 2 ^ 32 - 4
      → read_word hil f offset s ≡ (
          if leb (offset + 4) f.size
          then (ok (little_endian (λ i. content (f.base_address + offset + i))), s)
          else (err flash_invalid_address, s))
  unfolding read_word
  read_word-content r h = elim (ltb-cases f.size (u32 (offset + 4))) [
    | inl far ↦ rw (far.0, outside far.1) refl
    | inr near ↦ rw (near.0, inside near.1) (fetched _ (no_wrap near.1))
  ]
    where
      outside : f.size < u32 (offset + 4) → leb (offset + 4) f.size ≡ false
      outside far = ground arith

      inside : u32 (offset + 4) ≤ f.size → leb (offset + 4) f.size ≡ true
      inside near = ground arith

      no_wrap : u32 (offset + 4) ≤ f.size → u32 (f.base_address + offset) ≡ f.base_address + offset
      no_wrap near = omega (arith, near, r.end_fits)

  -- Over such a controller, for a window of at least four bytes at a base of at least 4, an offset
  -- in the last four below 2 ^ 32 passes the bounds check of `read_word`, whose sum wraps: the
  -- word is read at an address one to four bytes below the base of the window, which `contains`
  -- denies.
  pub read_word-wraps :
      4 ≤ f.size
      → 4 ≤ f.base_address
      → f.base_address < 2 ^ 32
      → 2 ^ 32 - 4 ≤ offset
      → offset < 2 ^ 32
      → let below = f.base_address + offset - 2 ^ 32 in
        (read_word hil f offset s ≡ (ok (little_endian (λ i. content (below + i))), s))
        × (contains f below ≡ false)
  unfolding read_word contains
  read_word-wraps size base high low small = (rw passes (fetched _ (omega arith)), ground arith)
    where
      passes : ltb f.size (u32 (offset + 4)) ≡ false
      passes = ground arith
