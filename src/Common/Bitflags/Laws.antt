-- ===== src/Common/Bitflags/Laws.antt =====
-- What the flag operations do to each flag.
use mcu_fw_cpp.Prelude.{
  ℕ, ◌+◌, ◌-◌, ◌%◌, ◌^◌, ◌<◌, ◌≤◌, ◌≡◌, ◌↔◌, ap, ◌∙◌, arith, bit_and, min, max, true, ==_iff,
}
use mcu_fw_cpp.Prelude.Bits.{
  bit, bit-and, bit-or, bit-xor, bit-complement, bits_ext, bit_and-le, bit_or-lt, bit_xor-lt,
}
use mcu_fw_cpp.Common.Bitflags.{Bitflags, contains, set, unset, toggle}

-- A value of the type.
abbrev pub Fits : ℕ → Bitflags → Type 0
Fits w a = a.value < 2 ^ w

-- A set contains another if and only if it has each flag of it.
pub contains-flags :
    (w : ℕ) (a other : Bitflags)
    → Fits w a
    → Fits w other
    → (contains w a other ≡ true) ↔ ((i : ℕ) → i < w → bit i other.value ≤ bit i a.value)
unfolding contains
contains-flags w a other fa fo = (
  λ e i lt.
      let same : bit_and a.value other.value ≡ other.value = (==_iff _ _).0 e in
      omega (arith, ap (bit i) same, bit-and i a.value other.value),
  λ below. (==_iff _ _).1 (
      bits_ext w (bit_and a.value other.value) other.value
        (omega (arith, bit_and-le a.value other.value)) fo
        (λ i lt. omega (arith, bit-and i a.value other.value, below i lt))),
)

-- For values of a type of `w` bits and every flag `i` of it: after `set` the flag is set exactly if
-- it was set or is in `other`, after `unset` if it was set and is not in `other`, after `toggle` if
-- it is in exactly one of the two; all three leave a value of the type, and the flags that were set
-- are contained in it.
pub set-unset-toggle :
    (w i : ℕ) (a other : Bitflags)
    → i < w
    → Fits w a
    → Fits w other
    → (bit i (set w a other).value ≡ max (bit i a.value) (bit i other.value))
      × (bit i (unset w a other).value ≡ min (bit i a.value) (1 - bit i other.value))
      × (bit i (toggle w a other).value ≡ (bit i a.value + bit i other.value) % 2)
      × Fits w (set w a other)
      × Fits w (unset w a other)
      × Fits w (toggle w a other)
      × (contains w (set w a other) other ≡ true)
unfolding set unset toggle
set-unset-toggle w i a other lt fa fo = (
  bit-or i a.value other.value,
  bit-and i a.value (2 ^ w - 1 - other.value)
      ∙ ap (min (bit i a.value)) (bit-complement w i other.value fo lt),
  bit-xor i a.value other.value,
  bit_or-lt w a.value other.value fa fo,
  omega (arith, bit_and-le a.value (2 ^ w - 1 - other.value)),
  bit_xor-lt w a.value other.value fa fo,
  (contains-flags w (set w a other) other (bit_or-lt w a.value other.value fa fo) fo).1
      (λ j lj. omega (arith, bit-or j a.value other.value)),
)
