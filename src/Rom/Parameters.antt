-- ===== src/Rom/Parameters.antt =====
-- What the ROM is started with (rom/include/rom/rom.hpp), and the image verifier behind it
-- (rom/include/rom/image_verifier.hpp). `rom_start` does not look at its parameters.
use mcu_fw_cpp.Prelude.{ℕ, Bool, false, List, [], ◌∷◌, Option, none}
use mcu_fw_cpp.Error.{Try}
use mcu_fw_cpp.Lifecycle.{LifecycleControllerState}
use mcu_fw_cpp.Flash.Hil.{FlashHil}
use mcu_fw_cpp.Flash.Partition.{FlashPartition}

pub record ImageVerificationResult : Type 0 where
  pub signature_valid : Bool
  pub manifest_valid : Bool
  pub svn : ℕ
  pub entry_point : ℕ
  pub image_size : ℕ

-- The virtual methods.
pub record ImageVerifier (S : Type 0) : Type 0 where
  pub verify : List ℕ → Try S ImageVerificationResult
  pub verify_manifest : List ℕ → Try S (Unit {0})
  pub verify_signature : List ℕ → List ℕ → Try S (Unit {0})

pub data LifecycleToken : Type 0 where
  test_unlock test_exit rma_unlock : LifecycleToken

-- Four words.
pub record LifecycleHashedTokens : Type 0 where
  pub words : List ℕ

pub data CmStableKeyType : Type 0 where
  idev_id ldev_id : CmStableKeyType

-- A null pointer is `none`.
pub record RomParameters (S : Type 0) : Type 0 where
  pub lifecycle_transition : Option (LifecycleControllerState × LifecycleToken)
  pub burn_lifecycle_tokens : Option LifecycleHashedTokens
  pub flash_partition_driver : Option (FlashPartition S)
  pub program_field_entropy : List Bool
  pub mcu_image_header_size : ℕ
  pub mcu_image_verifier : Option (ImageVerifier S)
  pub dot_stable_key_type : Option CmStableKeyType
  pub dot_flash : Option (FlashHil S)
  pub otp_enable_integrity_check : Bool
  pub otp_enable_consistency_check : Bool
  pub otp_check_timeout_override : Option ℕ

-- The default constructor.
abbrev pub default_parameters : {S : Type 0} → RomParameters S
default_parameters = record {
  lifecycle_transition = none;
  burn_lifecycle_tokens = none;
  flash_partition_driver = none;
  program_field_entropy = false ∷ false ∷ false ∷ false ∷ [];
  mcu_image_header_size = 0;
  mcu_image_verifier = none;
  dot_stable_key_type = none;
  dot_flash = none;
  otp_enable_integrity_check = false;
  otp_enable_consistency_check = false;
  otp_check_timeout_override = none;
}
