-- ===== src/Error.antt =====
-- Error codes and results (include/common/error.hpp).
pub mod Slot
pub mod Ensures
pub mod Returns
use mcu_fw_cpp.Prelude.{ℕ}

pub data McuError : Type 0 where
  success generic_exception invalid_parameter timeout not_supported : McuError
  lc_invalid_state lc_transition_failed : McuError
  otp_read_error otp_write_error otp_locked : McuError
  flash_read_error flash_write_error flash_erase_error flash_invalid_address : McuError
  image_invalid_signature image_invalid_manifest image_verification_failed : McuError
  mbox_lock_failed mbox_timeout mbox_cmd_failed mbox_invalid_response : McuError
  i3c_init_failed i3c_transfer_failed : McuError
  boot_failed boot_invalid_reset_reason : McuError

-- `static_cast<std::uint32_t>(error)`
unfoldable pub error_code : McuError → ℕ
error_code success = 0
error_code generic_exception = 0x0001
error_code invalid_parameter = 0x0002
error_code timeout = 0x0003
error_code not_supported = 0x0004
error_code lc_invalid_state = 0x0100
error_code lc_transition_failed = 0x0101
error_code otp_read_error = 0x0200
error_code otp_write_error = 0x0201
error_code otp_locked = 0x0202
error_code flash_read_error = 0x0300
error_code flash_write_error = 0x0301
error_code flash_erase_error = 0x0302
error_code flash_invalid_address = 0x0303
error_code image_invalid_signature = 0x0400
error_code image_invalid_manifest = 0x0401
error_code image_verification_failed = 0x0402
error_code mbox_lock_failed = 0x0500
error_code mbox_timeout = 0x0501
error_code mbox_cmd_failed = 0x0502
error_code mbox_invalid_response = 0x0503
error_code i3c_init_failed = 0x0600
error_code i3c_transfer_failed = 0x0601
error_code boot_failed = 0x0700
error_code boot_invalid_reset_reason = 0x0701

-- What `McuResult<T>::Ok` and `McuResult<T>::Err` build, as the drivers pass it on. `Slot` has the
-- class with its fields.
pub data McuResult (A : Type 0) : Type 0 where
  ok : A → McuResult A
  err : McuError → McuResult A

-- A device computation that can fail: `if (result.is_err()) return result;` after every step.
abbrev pub Try : Type 0 → Type 0 → Type 0
Try S A = S → McuResult A × S

module _ {S : Type 0} where
  infixl 5 ◌>>=◌ ◌>>◌
  abbrev pub ◌>>=◌ : {A B : Type 0} → Try S A → (A → Try S B) → Try S B
  ◌>>=◌ m f s = let (r, s') = m s in elim r [ ok a ↦ f a s' | err e ↦ (err e, s') ]

  abbrev pub ◌>>◌ : {B : Type 0} → Try S (Unit {0}) → Try S B → Try S B
  m >> k = m >>= λ _. k

  abbrev pub pure : {A : Type 0} → A → Try S A
  pure a s = (ok a, s)

  abbrev pub fail : {A : Type 0} → McuError → Try S A
  fail e s = (err e, s)

  -- A step that cannot fail.
  abbrev pub lift : {A : Type 0} → (S → A × S) → Try S A
  lift m s = let (a, s') = m s in (ok a, s')
