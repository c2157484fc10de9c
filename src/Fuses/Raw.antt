-- ===== src/Fuses/Raw.antt =====
-- The raw fuses and the fuses on top of them (rom/include/rom/fuses.hpp, rom/src/fuses.cpp). The
-- source has no raw fuses: they are an argument of the code that uses them.
use mcu_fw_cpp.Prelude.{ℕ, List, Option, none, some}
use mcu_fw_cpp.Bus.{Hw}
use mcu_fw_cpp.Fuses.{McuFuseLayoutPolicy, default_policy}

-- Twelve words, as in the next.
pub record OwnerPkHash : Type 0 where
  pub words : List ℕ

pub record VendorPkHash : Type 0 where
  pub words : List ℕ

-- The virtual methods. A span is the list of its words or bytes.
pub record RawFuses (S : Type 0) : Type 0 where
  pub anti_rollback_disable : Hw S ℕ
  pub idevid_cert_idevid_attr : Hw S (List ℕ)
  pub soc_specific_idevid_certificate : Hw S (Option (List ℕ))
  pub idevid_manuf_hsm_identifier : Hw S (List ℕ)
  pub soc_stepping_id : Hw S ℕ
  pub fmc_key_manifest_svn : Hw S (List ℕ)
  pub runtime_svn : Hw S (List ℕ)
  pub soc_manifest_svn : Hw S (List ℕ)
  pub soc_manifest_max_svn : Hw S (List ℕ)
  pub owner_pk_hash : Hw S (Option OwnerPkHash)
  pub owner_pqc_key_type : Hw S (List ℕ)
  pub owner_pk_hash_valid : Hw S ℕ
  pub vendor_pk_hashes : Hw S (List VendorPkHash)
  pub pqc_key_types : Hw S (List ℕ)
  pub vendor_pk_hash_valid : Hw S (List ℕ)
  pub owner_ecc_revocation : Hw S (List ℕ)
  pub owner_lms_revocation : Hw S (List ℕ)
  pub owner_mldsa_revocation : Hw S (List ℕ)
  pub ecc_revocations : Hw S (List ℕ)
  pub lms_revocations : Hw S (Option (List ℕ))
  pub mldsa_revocations : Hw S (Option (List ℕ))

-- A null pointer is `none`.
pub record McuFuses (S : Type 0) : Type 0 where
  pub raw_fuses : Option (RawFuses S)
  pub policy : McuFuseLayoutPolicy

policy_of : Option McuFuseLayoutPolicy → McuFuseLayoutPolicy
policy_of none = default_policy
policy_of (some policy_override) = policy_override

module _ {S : Type 0} where
  -- The constructor.
  pub create : Option (RawFuses S) → Option McuFuseLayoutPolicy → McuFuses S
  create raw_fuses policy_override = record {
    raw_fuses = raw_fuses;
    policy = policy_of policy_override;
  }

  -- `*raw_fuses_`: `none` is the null pointer followed.
  pub raw : McuFuses S → Option (RawFuses S)
  raw fuses = fuses.raw_fuses
