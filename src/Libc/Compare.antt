-- ===== src/Libc/Compare.antt =====
-- `memcmp` and `strlen` against what they look for.
use mcu_fw_cpp.Prelude.{
  ℕ, zero, suc, ◌+◌, ◌<◌, ◌≡◌, ◌≢◌, ap, sym, ◌∙◌, arith, ltb-cases, ◌==◌, Bool-cases, inl, inr,
  some,
}
use mcu_fw_cpp.Libc.{Bytes, Sign, negative, nought, positive, memcmp, strlen, strlen_from}

-- The two ranges agree in their first `n` bytes.
abbrev pub Agree : ℕ → ℕ → ℕ → Bytes → Type 0
Agree l r n m = (i : ℕ) → i < n → m (l + i) ≡ m (r + i)

-- What a result of `memcmp` means.
abbrev pub Compared : ℕ → ℕ → ℕ → Bytes → Sign → Type 0
Compared l r count m nought = Agree l r count m
Compared l r count m negative = (n : ℕ) × (n < count) × Agree l r n m × (m (l + n) < m (r + n))
Compared l r count m positive = (n : ℕ) × (n < count) × Agree l r n m × (m (r + n) < m (l + n))

-- The next byte, of the range and of the rest of it.
byte_suc : (p i : ℕ) (m : Bytes) → m (p + suc i) ≡ m (p + 1 + i)
byte_suc p i m = ap m (omega arith)

byte_zero : (p : ℕ) (m : Bytes) → m (p + 0) ≡ m p
byte_zero p m = ap m (omega arith)

Agree-suc : (l r n : ℕ) (m : Bytes) → m l ≡ m r → Agree (l + 1) (r + 1) n m → Agree l r (suc n) m
Agree-suc l r n m first rest zero h = byte_zero l m ∙ first ∙ sym (byte_zero r m)
Agree-suc l r n m first rest (suc i) h =
    byte_suc l i m ∙ rest i (omega arith) ∙ sym (byte_suc r i m)

Compared-suc :
    (l r count : ℕ) (m : Bytes) (sign : Sign)
    → m l ≡ m r
    → Compared (l + 1) (r + 1) count m sign
    → Compared l r (suc count) m sign
Compared-suc l r count m nought e c = Agree-suc l r count m e c
Compared-suc l r count m negative e (n, below, agree, lt) =
    (suc n, omega arith, Agree-suc l r n m e agree, rw (byte_suc l n m, byte_suc r n m) lt)
Compared-suc l r count m positive e (n, below, agree, lt) =
    (suc n, omega arith, Agree-suc l r n m e agree, rw (byte_suc l n m, byte_suc r n m) lt)

-- `memcmp` compares by the first byte in which the two ranges differ, as unsigned bytes: where the
-- ranges agree it answers 0; otherwise there is a first byte in which they differ, and the answer
-- is -1 if that byte is the smaller one on the left, and 1 if it is the smaller one on the right.
pub memcmp-Compared : (l r count : ℕ) (m : Bytes) → Compared l r count m (memcmp l r count m)
unfolding memcmp
memcmp-Compared l r zero m = λ i h. absurd (omega arith)
memcmp-Compared l r (suc count) m = elim (Bool-cases (m l == m r)) [
  | inl same ↦ rw same (
      Compared-suc l r count m (memcmp (l + 1) (r + 1) count m) (ground arith)
        (memcmp-Compared (l + 1) (r + 1) count m))
  | inr differ ↦ elim (ltb-cases (m l) (m r)) [
    | inl (less, lt) ↦
        rw (differ, less)
          (zero, omega arith, λ i h. absurd (omega arith), rw (byte_zero l m, byte_zero r m) lt)
    | inr (more, ge) ↦
        rw (differ, more)
          (
            zero,
            omega arith,
            λ i h. absurd (omega arith),
            rw (byte_zero l m, byte_zero r m) (ground arith),
          )
  ]
]

strlen_from-ends :
    (fuel str len n : ℕ) (m : Bytes)
    → n < fuel
    → m (str + n) ≡ 0
    → ((i : ℕ) → i < n → m (str + i) ≢ 0)
    → strlen_from fuel str len m ≡ some (len + n)
unfolding strlen_from
strlen_from-ends zero str len n m h e before = absurd (omega arith)
strlen_from-ends (suc fuel) str len zero m h e before = ground (arith, byte_zero str m)
strlen_from-ends (suc fuel) str len (suc n) m h e before = ground (
  arith,
  byte_zero str m,
  before 0,
  strlen_from-ends fuel (str + 1) (len + 1) n m (omega arith) (sym (byte_suc str n m) ∙ e)
      (λ i below. λ z. before (suc i) (omega arith) (byte_suc str i m ∙ z)),
)

-- For a text with its first zero byte at `n`, and more than `n` rounds, `strlen` returns `n`.
pub strlen-ends :
    (fuel str n : ℕ) (m : Bytes)
    → n < fuel
    → m (str + n) ≡ 0
    → ((i : ℕ) → i < n → m (str + i) ≢ 0)
    → strlen fuel str m ≡ some n
unfolding strlen
strlen-ends fuel str n m h e before =
    strlen_from-ends fuel str 0 n m h e before ∙ ap some (omega arith)
