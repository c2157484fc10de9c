-- ===== src/Fuses.antt =====
-- The fuse layout policy (rom/include/rom/fuse_layout.hpp, fuses.hpp, rom/src/fuses.cpp).
pub mod Raw
use mcu_fw_cpp.Prelude.{ℕ, ◌*◌, Option, none, some}

pub data FuseLayoutType : Type 0 where
  single one_hot_linear_majority_vote linear_majority_vote word_majority_vote : FuseLayoutType

pub record FuseLayout : Type 0 where
  pub type : FuseLayoutType
  pub bits : ℕ
  pub duplication : ℕ

-- The four factories.
abbrev pub make_single : ℕ → FuseLayout
make_single bits = record { type = single; bits = bits; duplication = 1 }

abbrev pub make_one_hot : ℕ → ℕ → FuseLayout
make_one_hot bits dup = record {
  type = one_hot_linear_majority_vote;
  bits = bits;
  duplication = dup;
}

abbrev pub make_linear : ℕ → ℕ → FuseLayout
make_linear bits dup = record { type = linear_majority_vote; bits = bits; duplication = dup }

abbrev pub make_word : ℕ → ℕ → FuseLayout
make_word bits dup = record { type = word_majority_vote; bits = bits; duplication = dup }

pub record McuFuseLayoutPolicy : Type 0 where
  pub anti_rollback_disable : FuseLayout
  pub idevid_cert_idevid_attr : FuseLayout
  pub soc_specific_idevid_certificate : Option FuseLayout
  pub idevid_manuf_hsm_identifier : FuseLayout
  pub soc_stepping_id : FuseLayout
  pub fmc_key_manifest_svn : FuseLayout
  pub runtime_svn : FuseLayout
  pub soc_manifest_svn : FuseLayout
  pub soc_manifest_max_svn : FuseLayout
  pub owner_pqc_key_type : FuseLayout
  pub owner_pk_hash_valid : FuseLayout
  pub pqc_key_types : FuseLayout
  pub vendor_pk_hash_valid : FuseLayout
  pub owner_ecc_revocation : FuseLayout
  pub owner_lms_revocation : FuseLayout
  pub owner_mldsa_revocation : FuseLayout
  pub ecc_revocations : FuseLayout
  pub lms_revocations : FuseLayout
  pub mldsa_revocations : FuseLayout

abbrev pub default_policy : McuFuseLayoutPolicy
default_policy = record {
  anti_rollback_disable = make_single 1;
  idevid_cert_idevid_attr = make_single (768 * 8);
  soc_specific_idevid_certificate = none;
  idevid_manuf_hsm_identifier = make_single 32;
  soc_stepping_id = make_single 32;
  fmc_key_manifest_svn = make_one_hot 32 3;
  runtime_svn = make_one_hot 128 3;
  soc_manifest_svn = make_one_hot 128 3;
  soc_manifest_max_svn = make_single 128;
  owner_pqc_key_type = make_single 1;
  owner_pk_hash_valid = make_single 1;
  pqc_key_types = make_single 16;
  vendor_pk_hash_valid = make_single 16;
  owner_ecc_revocation = make_linear 1 3;
  owner_lms_revocation = make_linear 1 3;
  owner_mldsa_revocation = make_linear 1 3;
  ecc_revocations = make_word 16 3;
  lms_revocations = make_word 16 3;
  mldsa_revocations = make_word 16 3;
}
