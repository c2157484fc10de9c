-- ===== src/Prelude/Bits.antt =====
-- Laws of the bit operations at every width, through single bits.
use Prim.Native.Nat.{
  ℕ, zero, suc, ◌+◌, ◌-◌, ◌*◌, ◌/◌, ◌%◌, ◌^◌, ◌≤◌, ◌<◌, min, max, bit_and, bit_or, bit_xor, digits,
  differ, bit_and-bitwise, bit_or-bitwise, bit_xor-bitwise,
}
use mathlib.Core.Path.{◌≡◌, refl, ap, ◌∙◌}
use native.Mathlib.Nat.{pow-suc, le_refl}
use native.Mathlib.Omega.{arith}

-- The native operations stand for a recursion on digits with fuel. Fuel beyond the first number is
-- not used.
module _ (z : ℕ → ℕ) (f : ℕ → ℕ → ℕ) where
  one_more : (fuel x y : ℕ) → x ≤ fuel → digits z f (suc fuel) x y ≡ digits z f fuel x y
  one_more zero zero y le = refl
  one_more (suc fuel) zero y le = refl
  one_more zero (suc x) y le = absurd (omega arith)
  one_more (suc fuel) (suc x) y le = omega (arith, one_more fuel (suc x / 2) (y / 2) (omega arith))

  same_fuel : (m n x y : ℕ) → m ≡ n → digits z f m x y ≡ digits z f n x y
  same_fuel m n x y e = ap (λ (t : ℕ). digits z f t x y) e

  spare : (extra fuel x y : ℕ) → x ≤ fuel → digits z f (extra + fuel) x y ≡ digits z f fuel x y
  spare zero fuel x y le = same_fuel (0 + fuel) fuel x y (omega arith)
  spare (suc extra) fuel x y le =
      same_fuel (suc extra + fuel) (suc (extra + fuel)) x y (omega arith)
      ∙ one_more (extra + fuel) x y (omega arith)
      ∙ spare extra fuel x y le

  lowest :
      (x y : ℕ)
      → digits z f (suc x) (suc x) y
        ≡ f (suc x % 2) (y % 2) + 2 * digits z f (suc x / 2) (suc x / 2) (y / 2)
  lowest x y = omega (
    arith,
    ap (λ (t : ℕ). digits z f t (suc x / 2) (y / 2)) (unused x),
    spare (x - suc x / 2) (suc x / 2) (suc x / 2) (y / 2) (omega arith),
  )
    where
      unused : (x : ℕ) → x - suc x / 2 + suc x / 2 ≡ x
      unused x = omega arith

-- The lowest digit of each operation, and the rest.
pub bit_and_step : (x y : ℕ) → bit_and x y ≡ bit_and (x / 2) (y / 2) * 2 + min (x % 2) (y % 2)
bit_and_step zero y = simp bit_and-bitwise (omega arith)
bit_and_step (suc x) y = simp bit_and-bitwise (omega (arith, lowest (λ d. 0) min x y))

pub bit_or_step : (x y : ℕ) → bit_or x y ≡ bit_or (x / 2) (y / 2) * 2 + max (x % 2) (y % 2)
bit_or_step zero y = simp bit_or-bitwise (omega arith)
bit_or_step (suc x) y = simp bit_or-bitwise (omega (arith, lowest (λ d. d) max x y))

differ-mod : (x y : ℕ) → x < 2 → y < 2 → differ x y ≡ (x + y) % 2
differ-mod zero y p q = omega arith
differ-mod (suc x) zero p q = omega arith
differ-mod (suc zero) (suc zero) p q = omega arith
differ-mod (suc zero) (suc (suc y)) p q = absurd (omega arith)
differ-mod (suc (suc x)) (suc y) p q = absurd (omega arith)

pub bit_xor_step : (x y : ℕ) → bit_xor x y ≡ bit_xor (x / 2) (y / 2) * 2 + (x % 2 + y % 2) % 2
bit_xor_step zero y = simp bit_xor-bitwise (omega arith)
bit_xor_step (suc x) y = simp bit_xor-bitwise (
    omega (
      arith,
      lowest (λ d. d) differ x y,
      differ-mod (suc x % 2) (y % 2) (omega arith) (omega arith),
    ))

-- The binary digit of `x` at place `i`.
abbrev pub bit : ℕ → ℕ → ℕ
bit zero x = x % 2
bit (suc i) x = bit i (x / 2)

pub bit-lt : (i x : ℕ) → bit i x < 2
bit-lt zero x = omega arith
bit-lt (suc i) x = bit-lt i (x / 2)

pub bit-and : (i a b : ℕ) → bit i (bit_and a b) ≡ min (bit i a) (bit i b)
bit-and zero a b = omega (arith, bit_and_step a b)
bit-and (suc i) a b = ap (bit i) (omega (arith, bit_and_step a b)) ∙ bit-and i (a / 2) (b / 2)

pub bit-or : (i a b : ℕ) → bit i (bit_or a b) ≡ max (bit i a) (bit i b)
bit-or zero a b = omega (arith, bit_or_step a b)
bit-or (suc i) a b = ap (bit i) (omega (arith, bit_or_step a b)) ∙ bit-or i (a / 2) (b / 2)

pub bit-xor : (i a b : ℕ) → bit i (bit_xor a b) ≡ (bit i a + bit i b) % 2
bit-xor zero a b = omega (arith, bit_xor_step a b)
bit-xor (suc i) a b = ap (bit i) (omega (arith, bit_xor_step a b)) ∙ bit-xor i (a / 2) (b / 2)

pub half-lt : (k a : ℕ) → a < 2 ^ suc k → a / 2 < 2 ^ k
half-lt k a h = omega (arith, pow-suc 2 k)

-- Below `2 ^ k` a number is its first `k` bits.
pub bits_ext : (k a b : ℕ) → a < 2 ^ k → b < 2 ^ k → ((i : ℕ) → i < k → bit i a ≡ bit i b) → a ≡ b
bits_ext zero a b p q h = omega arith
bits_ext (suc k) a b p q h = omega (
  arith,
  h 0 (omega arith),
  bits_ext k (a / 2) (b / 2) (half-lt k a p) (half-lt k b q) (λ i r. h (suc i) (omega arith)),
)

-- Subtraction from all ones turns every bit round.
pub bit-complement : (k i a : ℕ) → a < 2 ^ k → i < k → bit i (2 ^ k - 1 - a) ≡ 1 - bit i a
bit-complement zero i a p q = absurd (omega arith)
bit-complement (suc k) zero a p q = omega (arith, pow-suc 2 k)
bit-complement (suc k) (suc i) a p q =
    ap (bit i) (omega (arith, pow-suc 2 k))
    ∙ bit-complement k i (a / 2) (half-lt k a p) (omega arith)

bit_and_le_fuel : (n a b : ℕ) → a ≤ n → bit_and a b ≤ a
bit_and_le_fuel n zero b p = omega (arith, bit_and-bitwise 0 b)
bit_and_le_fuel zero (suc a) b p = absurd (omega arith)
bit_and_le_fuel (suc n) (suc a) b p =
    omega (arith, bit_and_step (suc a) b, bit_and_le_fuel n (suc a / 2) (b / 2) (omega arith))

pub bit_and-le : (a b : ℕ) → bit_and a b ≤ a
bit_and-le a b = bit_and_le_fuel a a b (le_refl _)

pub bit_or-lt : (k a b : ℕ) → a < 2 ^ k → b < 2 ^ k → bit_or a b < 2 ^ k
bit_or-lt zero zero zero p q = omega arith
bit_or-lt zero zero (suc b) p q = absurd (omega arith)
bit_or-lt zero (suc a) b p q = absurd (omega arith)
bit_or-lt (suc k) a b p q = omega (
  arith,
  pow-suc 2 k,
  bit_or_step a b,
  bit_or-lt k (a / 2) (b / 2) (half-lt k a p) (half-lt k b q),
)

pub bit_xor-lt : (k a b : ℕ) → a < 2 ^ k → b < 2 ^ k → bit_xor a b < 2 ^ k
bit_xor-lt zero zero zero p q = omega arith
bit_xor-lt zero zero (suc b) p q = absurd (omega arith)
bit_xor-lt zero (suc a) b p q = absurd (omega arith)
bit_xor-lt (suc k) a b p q = omega (
  arith,
  pow-suc 2 k,
  bit_xor_step a b,
  bit_xor-lt k (a / 2) (b / 2) (half-lt k a p) (half-lt k b q),
)
