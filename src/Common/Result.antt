-- ===== src/Common/Result.antt =====
-- The result template of include/common/types.hpp.
use mcu_fw_cpp.Prelude.{Bool, true, false, not, Option, none, some, if◌then◌else◌}

-- `value_{}` and `error_{}` start as the types' default values.
pub record Result (T E : Type 0) : Type 0 where
  pub value : T
  pub error : E
  pub is_ok : Bool

module _ {T E : Type 0} where
  -- With the default values of the two types.
  unfoldable pub ok : T → E → T → Result T E
  ok no_value no_error value = record { value = value; error = no_error; is_ok = true }

  unfoldable pub err : T → E → E → Result T E
  err no_value no_error error = record { value = no_value; error = error; is_ok = false }

  unfoldable pub is_err : Result T E → Bool
  is_err r = not r.is_ok

  -- On an error the source loops for ever: `none`.
  unfoldable pub unwrap : Result T E → Option T
  unwrap r = if not r.is_ok then none else some r.value

  unfoldable pub unwrap_or : Result T E → T → T
  unwrap_or r default_value = if r.is_ok then r.value else default_value
