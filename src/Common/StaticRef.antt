-- ===== src/Common/StaticRef.antt =====
-- The pointer wrapper of include/common/static_ref.hpp.
use mcu_fw_cpp.Prelude.{ℕ, u32, Bool, not, ◌==◌}

-- A pointer of the 32-bit target, 0 for `nullptr`.
pub record StaticRef : Type 0 where
  pub ptr : ℕ

-- From an address.
unfoldable pub at_address : ℕ → StaticRef
at_address addr = record { ptr = u32 addr }

unfoldable pub null_ref : StaticRef
null_ref = record { ptr = 0 }

unfoldable pub get : StaticRef → ℕ
get r = r.ptr

-- `operator bool`
unfoldable pub is_valid : StaticRef → Bool
is_valid r = not (r.ptr == 0)

unfoldable pub same_ref : StaticRef → StaticRef → Bool
same_ref r other = r.ptr == other.ptr

unfoldable pub other_ref : StaticRef → StaticRef → Bool
other_ref r other = not (r.ptr == other.ptr)
