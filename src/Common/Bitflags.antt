-- ===== src/Common/Bitflags.antt =====
-- The bit flags of include/common/bitflags.hpp, at the unsigned types of `w` bits that the header
-- names (`Bitflags8` to `Bitflags64`).
pub mod Laws
use mcu_fw_cpp.Prelude.{ℕ, ◌-◌, ◌%◌, ◌^◌, bit_and, bit_or, bit_xor, Bool, ◌==◌}

pub record Bitflags : Type 0 where
  pub value : ℕ

module _ (w : ℕ) where
  -- The constructor from a value of the type.
  unfoldable pub flags : ℕ → Bitflags
  flags value = record { value = value % 2 ^ w }

  unfoldable pub no_flags : Bitflags
  no_flags = record { value = 0 }

  unfoldable pub is_empty : Bitflags → Bool
  is_empty a = a.value == 0

  -- `static_cast<T>(-1)`
  unfoldable pub is_all : Bitflags → Bool
  is_all a = a.value == (2 ^ w - 1)

  unfoldable pub contains : Bitflags → Bitflags → Bool
  contains a other = bit_and a.value other.value == other.value

  unfoldable pub union : Bitflags → Bitflags → Bitflags
  unfolding flags
  union a other = flags (bit_or a.value other.value)

  unfoldable pub intersection : Bitflags → Bitflags → Bitflags
  unfolding flags
  intersection a other = flags (bit_and a.value other.value)

  unfoldable pub symmetric_difference : Bitflags → Bitflags → Bitflags
  unfolding flags
  symmetric_difference a other = flags (bit_xor a.value other.value)

  -- `~value_`, cut back to the type.
  unfoldable pub complement : Bitflags → Bitflags
  unfolding flags
  complement a = flags (2 ^ w - 1 - a.value)

  -- `value_ |= other.value_`
  unfoldable pub set : Bitflags → Bitflags → Bitflags
  set a other = record { value = bit_or a.value other.value }

  -- `operator|=`
  unfoldable pub unite_with : Bitflags → Bitflags → Bitflags
  unite_with a other = record { value = bit_or a.value other.value }

  -- `operator^=`
  unfoldable pub differ_with : Bitflags → Bitflags → Bitflags
  differ_with a other = record { value = bit_xor a.value other.value }

  -- `value_ &= other.value_`
  unfoldable pub intersect_with : Bitflags → Bitflags → Bitflags
  intersect_with a other = record { value = bit_and a.value other.value }

  -- `value_ &= ~other.value_`
  unfoldable pub unset : Bitflags → Bitflags → Bitflags
  unset a other = record { value = bit_and a.value (2 ^ w - 1 - other.value) }

  -- `value_ ^= other.value_`
  unfoldable pub toggle : Bitflags → Bitflags → Bitflags
  toggle a other = record { value = bit_xor a.value other.value }
