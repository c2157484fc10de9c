-- ===== src/Prelude/Masks.antt =====
-- Laws of the bit operations on zero, on masks and on the two parts of a word.
use Prim.Native.Nat.{
  ℕ, zero, suc, ◌+◌, ◌-◌, ◌*◌, ◌/◌, ◌%◌, ◌^◌, ◌≤◌, ◌<◌, bit_and, bit_or, bit_or-bitwise,
}
use mathlib.Core.Path.{◌≡◌, refl, sym, ap, ap₂, ◌∙◌}
use native.Mathlib.Nat.{pow-suc, one-le-pow, le_refl, add-zero, mod-lt, div-add-mod'}
use native.Mathlib.Omega.{arith}
use mcu_fw_cpp.Prelude.Bits.{bit_and_step, bit_or_step, bit, half-lt}

bit_and_zero_fuel : (n a : ℕ) → a ≤ n → bit_and a 0 ≡ 0
bit_and_zero_fuel n zero p = refl
bit_and_zero_fuel zero (suc a) p = absurd (omega arith)
bit_and_zero_fuel (suc n) (suc a) p =
    omega (arith, bit_and_step (suc a) 0, bit_and_zero_fuel n (suc a / 2) (omega arith))

bit_or_zero_fuel : (n a : ℕ) → a ≤ n → bit_or a 0 ≡ a
bit_or_zero_fuel n zero p = refl
bit_or_zero_fuel zero (suc a) p = absurd (omega arith)
bit_or_zero_fuel (suc n) (suc a) p =
    omega (arith, bit_or_step (suc a) 0, bit_or_zero_fuel n (suc a / 2) (omega arith))

pub bit_and-zero : (a : ℕ) → bit_and a 0 ≡ 0
bit_and-zero a = bit_and_zero_fuel a a (le_refl _)

pub bit_or-zero : (a : ℕ) → bit_or a 0 ≡ a
bit_or-zero a = bit_or_zero_fuel a a (le_refl _)

pub zero-bit_or : (a : ℕ) → bit_or 0 a ≡ a
zero-bit_or a = bit_or-bitwise 0 a

-- A mask of one bit reads that bit.
pub bit_and-pow : (i a : ℕ) → bit_and a (2 ^ i) ≡ bit i a * 2 ^ i
bit_and-pow zero a = omega (arith, bit_and_step a 1, bit_and_zero_fuel (a / 2) (a / 2) (le_refl _))
bit_and-pow (suc i) a = omega (
  arith,
  bit_and_step a (2 ^ suc i),
  pow-suc 2 i,
  bit_and-pow i (a / 2),
  ap (λ (t : ℕ). bit_and (a / 2) t) (half-pow i),
  ap (λ (t : ℕ). bit i (a / 2) * t) (pow-suc 2 i),
)
  where
    half-pow : (i : ℕ) → 2 ^ suc i / 2 ≡ 2 ^ i
    half-pow i = omega (arith, pow-suc 2 i)

twice-pow : (h k : ℕ) → h * 2 ^ suc k ≡ 2 * (h * 2 ^ k)
twice-pow h k = omega (arith, ap (λ (t : ℕ). h * t) (pow-suc 2 k))

half-parts : (k h l : ℕ) → (h * 2 ^ suc k + l) / 2 ≡ h * 2 ^ k + l / 2
half-parts k h l = omega (arith, twice-pow h k)

parity-parts : (k h l : ℕ) → (h * 2 ^ suc k + l) % 2 ≡ l % 2
parity-parts k h l = omega (arith, twice-pow h k)

half-ones : (k : ℕ) → (2 ^ suc k - 1) / 2 ≡ 2 ^ k - 1
half-ones k = omega (arith, pow-suc 2 k)

-- A mask of `k` low ones keeps the low part.
pub bit_and-low : (k h l : ℕ) → l < 2 ^ k → bit_and (h * 2 ^ k + l) (2 ^ k - 1) ≡ l
bit_and-low zero h l p =
    omega (arith, bit_and_zero_fuel (h * 2 ^ 0 + l) (h * 2 ^ 0 + l) (le_refl _))
bit_and-low (suc k) h l p = omega (
  arith,
  bit_and_step (h * 2 ^ suc k + l) (2 ^ suc k - 1),
  pow-suc 2 k,
  one-le-pow k 2 (omega arith),
  ap₂ bit_and (half-parts k h l) (half-ones k),
  parity-parts k h l,
  bit_and-low k h (l / 2) (half-lt k l p),
)

no-low : (h : ℕ) → h * 2 ^ 0 + 0 ≡ h
no-low h = omega arith

-- `|` of a high and a low part, part by part.
pub bit_or-parts :
    (k h h' l l' : ℕ)
    → l < 2 ^ k
    → l' < 2 ^ k
    → bit_or (h * 2 ^ k + l) (h' * 2 ^ k + l') ≡ bit_or h h' * 2 ^ k + bit_or l l'
bit_or-parts zero h h' zero zero p q = omega (arith, ap₂ bit_or (no-low h) (no-low h'))
bit_or-parts zero h h' zero (suc l') p q = absurd (omega arith)
bit_or-parts zero h h' (suc l) l' p q = absurd (omega arith)
bit_or-parts (suc k) h h' l l' p q = omega (
  arith,
  bit_or_step (h * 2 ^ suc k + l) (h' * 2 ^ suc k + l'),
  bit_or_step l l',
  ap₂ bit_or (half-parts k h l) (half-parts k h' l'),
  parity-parts k h l,
  parity-parts k h' l',
  twice-pow (bit_or h h') k,
  bit_or-parts k h h' (l / 2) (l' / 2) (half-lt k l p) (half-lt k l' q),
)

pub bit_or-high_low : (k h l : ℕ) → l < 2 ^ k → bit_or (h * 2 ^ k) l ≡ h * 2 ^ k + l
bit_or-high_low k h l p =
    ap₂ bit_or (sym (add-zero _)) (zero-mul-add l (2 ^ k))
    ∙ bit_or-parts k h 0 0 l (omega (arith, one-le-pow k 2 (omega arith))) p
    ∙ omega (arith, bit_or-zero h, zero-bit_or l, ap (λ (t : ℕ). t * 2 ^ k) (bit_or-zero h))
  where
    zero-mul-add : (l t : ℕ) → l ≡ 0 * t + l
    zero-mul-add l t = omega arith

-- `|` of a shifted half-word with a word.
pub bit_or-shifted16 :
    (h w : ℕ) → bit_or (h * 2 ^ 16) w ≡ bit_or h (w / 2 ^ 16) * 2 ^ 16 + w % 2 ^ 16
bit_or-shifted16 h w =
    ap₂ bit_or (sym (add-zero _)) split
    ∙ bit_or-parts 16 h (w / 2 ^ 16) 0 (w % 2 ^ 16) (omega arith) (omega arith)
    ∙ omega (arith, zero-bit_or (w % 2 ^ 16))
  where
    split : w ≡ w / 2 ^ 16 * 2 ^ 16 + w % 2 ^ 16
    split = omega arith

pub bit_and-mod : (k a : ℕ) → bit_and a (2 ^ k - 1) ≡ a % 2 ^ k
bit_and-mod k a =
    ap (λ (t : ℕ). bit_and t (2 ^ k - 1)) (split k a)
    ∙ bit_and-low k (a / 2 ^ k) (a % 2 ^ k) (mod-lt a (one-le-pow k 2 (omega arith)))
  where
    split : (k a : ℕ) → a ≡ a / 2 ^ k * 2 ^ k + a % 2 ^ k
    split k a = sym (div-add-mod' a (2 ^ k))

pub bit_or-low_high : (k h l : ℕ) → l < 2 ^ k → bit_or l (h * 2 ^ k) ≡ h * 2 ^ k + l
bit_or-low_high k h l p =
    ap₂ bit_or (zero-mul-add l (2 ^ k)) (sym (add-zero _))
    ∙ bit_or-parts k 0 h l 0 p (omega (arith, one-le-pow k 2 (omega arith)))
    ∙ omega (arith, bit_or-zero l, zero-bit_or h, ap (λ (t : ℕ). t * 2 ^ k) (zero-bit_or h))
  where
    zero-mul-add : (l t : ℕ) → l ≡ 0 * t + l
    zero-mul-add l t = omega arith
