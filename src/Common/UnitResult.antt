-- ===== src/Common/UnitResult.antt =====
-- The result template of include/common/types.hpp at `void`.
use mcu_fw_cpp.Prelude.{Bool, true, false, not, Option, none, some, if◌then◌else◌}

-- `error_{}` starts as the type's default value.
pub record UnitResult (E : Type 0) : Type 0 where
  pub error : E
  pub is_ok : Bool

module _ {E : Type 0} where
  -- With the default value of the type.
  pub ok : E → UnitResult E
  ok no_error = record { error = no_error; is_ok = true }

  pub err : E → UnitResult E
  err error = record { error = error; is_ok = false }

  pub is_err : UnitResult E → Bool
  is_err r = not r.is_ok

  -- On an error the source loops for ever: `none`.
  pub unwrap : UnitResult E → Option (Unit {0})
  unwrap r = if not r.is_ok then none else some tt
