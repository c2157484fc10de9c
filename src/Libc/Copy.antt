-- ===== src/Libc/Copy.antt =====
-- `memcpy`, `memmove` and `memset` as functions on the memory.
use mcu_fw_cpp.Prelude.{
  ℕ, zero, suc, ◌+◌, ◌-◌, ◌≤◌, ◌≡◌, ◌⊎◌, ap₂, ◌∙◌, arith, u8, ltb, leb, ◌&&◌, if◌then◌else◌,
  Bool-cases, inl, inr,
}
use mcu_fw_cpp.Libc.{Bytes, put, memset, copy_up, copy_down, memcpy, memmove}

-- The memory with `count` bytes from `s` on copied to `d`, all at once.
abbrev pub copied : ℕ → ℕ → ℕ → Bytes → Bytes
copied d s count m q = if leb d q && ltb q (d + count) then m (s + (q - d)) else m q

copy_up-copied :
    (d s count : ℕ) (m : Bytes) (q : ℕ)
    → d ≤ s ⊎ s + count ≤ d
    → copy_up d s count m q ≡ copied d s count m q
unfolding copy_up
copy_up-copied d s zero m q h = ground arith
copy_up-copied d s (suc count) m q h =
    ground (arith, copy_up-copied (d + 1) (s + 1) count (put m d (m s)) q)

copied-suc_down :
    (d s count : ℕ) (m : Bytes) (q : ℕ)
    → s ≤ d
    → copied d s count (put m (d + count) (m (s + count))) q ≡ copied d s (suc count) m q
copied-suc_down d s count m q h = ground arith

copy_down-suc :
    (d s count : ℕ) (m : Bytes) (q : ℕ)
    → copy_down (d + suc count) (s + suc count) (suc count) m q
      ≡ copy_down (d + count) (s + count) count (put m (d + count) (m (s + count))) q
unfolding copy_down
copy_down-suc d s count m q =
    ap₂ (λ (a b : ℕ). copy_down a b count (put m a (m b)) q) (last d count) (last s count)
  where
    last : (a n : ℕ) → a + suc n - 1 ≡ a + n
    last a n = omega arith

copy_down-copied :
    (d s count : ℕ) (m : Bytes) (q : ℕ)
    → s ≤ d
    → copy_down (d + count) (s + count) count m q ≡ copied d s count m q
copy_down-copied d s zero m q h = unfold copy_down in ground arith
copy_down-copied d s (suc count) m q h =
    copy_down-suc d s count m q
    ∙ copy_down-copied d s count (put m (d + count) (m (s + count))) q h
    ∙ copied-suc_down d s count m q h

-- `memmove` copies the bytes as they were before the call, however the two ranges overlap, and
-- changes no other byte.
pub memmove-copied :
    (dest src count : ℕ) (m : Bytes) (q : ℕ)
    → memmove dest src count m q ≡ copied dest src count m q
unfolding memmove
memmove-copied dest src count m q = elim (Bool-cases (ltb dest src)) [
  | inl up ↦ rw up (copy_up-copied dest src count m q (inl (ground arith)))
  | inr down ↦ rw down (copy_down-copied dest src count m q (ground arith))
]

-- `memcpy` does so when the destination does not begin inside the source; beginning below it is
-- enough.
pub memcpy-copied :
    (dest src count : ℕ) (m : Bytes) (q : ℕ)
    → (dest ≤ src) ⊎ (src + count ≤ dest)
    → memcpy dest src count m q ≡ copied dest src count m q
unfolding memcpy
memcpy-copied dest src count m q h = copy_up-copied dest src count m q h

-- `memset` fills exactly its range with the low byte of `ch`.
pub memset-fill :
    (d ch count : ℕ) (m : Bytes) (q : ℕ)
    → memset d ch count m q ≡ (if leb d q && ltb q (d + count) then u8 ch else m q)
unfolding memset
memset-fill d ch zero m q = ground arith
memset-fill d ch (suc count) m q = ground (arith, memset-fill (d + 1) ch count (put m d (u8 ch)) q)
