-- ===== src/Rom/Soc.antt =====
-- The SoC interface registers and the fatal error path (class `Soc` and `fatal_error` of
-- rom/src/rom.cpp, rom/include/rom/rom.hpp).
pub mod Users
pub mod Ready
pub mod Programmed
use mcu_fw_cpp.Prelude.{
  ℕ, zero, suc, ◌+◌, ◌*◌, any_set, Bool, not, List, [], ◌∷◌, Option, none, some, ◌==◌, leb,
  if◌then◌else◌, ◌<<<◌,
}
use mcu_fw_cpp.Bus.{Bus, Hw, read_reg, write_reg}
use mcu_fw_cpp.Error.{McuError, McuResult, ok, err, error_code, invalid_parameter, boot_failed}
use mcu_fw_cpp.Otp.{Otp, read_word}

-- A call that may not return: a fatal error leaves with a code, and a wait without a bound may
-- outlast its fuel.
pub data Outcome (A : Type 0) : Type 0 where
  returned : A → Outcome A
  fatal : ℕ → Outcome A
  waiting : Outcome A

abbrev pub Run : Type 0 → Type 0 → Type 0
Run S A = S → Outcome A × S

module _ {S : Type 0} where
  infixl 5 ◌>>=◌ ◌>>◌
  abbrev pub ◌>>=◌ : {A B : Type 0} → Run S A → (A → Run S B) → Run S B
  ◌>>=◌ m f s =
      let (r, s') = m s in
      elim r [ returned a ↦ f a s' | fatal code ↦ (fatal code, s') | waiting ↦ (waiting, s') ]

  abbrev pub ◌>>◌ : {B : Type 0} → Run S (Unit {0}) → Run S B → Run S B
  m >> k = m >>= λ _. k

  abbrev pub run : {A : Type 0} → Hw S A → Run S A
  run m s = let (a, s') = m s in (returned a, s')

  -- `fatal_error(error)`: the handler does not return.
  unfoldable pub fatal_error : {A : Type 0} → McuError → Run S A
  fatal_error e s = (fatal (error_code e), s)

pub record Soc : Type 0 where
  pub base_addr : ℕ

abbrev pub cptra_flow_status : ℕ
cptra_flow_status = 0x00

abbrev pub ss_generic_fw_exec_ctrl_0 : ℕ
ss_generic_fw_exec_ctrl_0 = 0x04

abbrev pub cptra_fw_error_fatal : ℕ
cptra_fw_error_fatal = 0x08

abbrev pub cptra_wdt_cfg_base : ℕ
cptra_wdt_cfg_base = 0x0c

abbrev pub cptra_mbox_valid_axi_user_base : ℕ
cptra_mbox_valid_axi_user_base = 0x20

abbrev pub cptra_mbox_axi_user_lock_base : ℕ
cptra_mbox_axi_user_lock_base = 0x34

abbrev pub cptra_fuse_valid_axi_user : ℕ
cptra_fuse_valid_axi_user = 0x48

abbrev pub cptra_fuse_axi_user_lock : ℕ
cptra_fuse_axi_user_lock = 0x4c

abbrev pub cptra_trng_valid_axi_user : ℕ
cptra_trng_valid_axi_user = 0x50

abbrev pub cptra_trng_axi_user_lock : ℕ
cptra_trng_axi_user_lock = 0x54

abbrev pub ss_caliptra_dma_axi_user : ℕ
ss_caliptra_dma_axi_user = 0x58

abbrev pub cptra_fuse_wr_done : ℕ
cptra_fuse_wr_done = 0x5c

abbrev pub fuse_pqc_key_type : ℕ
fuse_pqc_key_type = 0x140

abbrev pub fuse_fmc_key_manifest_svn : ℕ
fuse_fmc_key_manifest_svn = 0x144

abbrev pub ss_uds_seed_base_addr_l : ℕ
ss_uds_seed_base_addr_l = 0x200

abbrev pub ss_uds_seed_base_addr_h : ℕ
ss_uds_seed_base_addr_h = 0x204

abbrev pub ss_strap_generic_base : ℕ
ss_strap_generic_base = 0x208

abbrev pub flow_status_ready_for_runtime : ℕ
flow_status_ready_for_runtime = 0x01

abbrev pub flow_status_ready_for_mb : ℕ
flow_status_ready_for_mb = 0x02

abbrev pub flow_status_ready_for_fuses : ℕ
flow_status_ready_for_fuses = 0x04

abbrev pub fw_exec_ctrl_fw_ready : ℕ
fw_exec_ctrl_fw_ready = 1 <<< 2

abbrev pub mldsa_caliptra_value : ℕ
mldsa_caliptra_value = 1

abbrev pub otp_dai_idle_bit_offset : ℕ
otp_dai_idle_bit_offset = 22

abbrev pub otp_direct_access_cmd_reg_offset : ℕ
otp_direct_access_cmd_reg_offset = 0x60

-- `AxiUsers`: five mailbox users, of which some are given.
pub record AxiUsers : Type 0 where
  pub mbox_users : List (Option ℕ)
  pub fuse_user : ℕ
  pub trng_user : ℕ
  pub dma_user : ℕ

module _ {S : Type 0} ⦃bus : Bus S⦄ (soc : Soc) where
  abbrev test_reg : ℕ → ℕ → Hw S Bool
  test_reg offset mask s = let (v, s') = read_reg soc.base_addr offset s in (any_set v mask, s')

  unfoldable pub flow_status : Hw S ℕ
  flow_status = read_reg soc.base_addr cptra_flow_status

  unfoldable pub ready_for_runtime : Hw S Bool
  ready_for_runtime = test_reg cptra_flow_status flow_status_ready_for_runtime

  unfoldable pub fw_ready : Hw S Bool
  fw_ready = test_reg ss_generic_fw_exec_ctrl_0 fw_exec_ctrl_fw_ready

  unfoldable pub ready_for_mbox : Hw S Bool
  ready_for_mbox = test_reg cptra_flow_status flow_status_ready_for_mb

  unfoldable pub ready_for_fuses : Hw S Bool
  ready_for_fuses = test_reg cptra_flow_status flow_status_ready_for_fuses

  unfoldable pub has_fw_fatal_error : Hw S Bool
  has_fw_fatal_error s =
      let (v, s') = read_reg soc.base_addr cptra_fw_error_fatal s in (not (v == 0), s')

  unfoldable pub set_cptra_wdt_cfg : ℕ → ℕ → Hw S (Unit {0})
  set_cptra_wdt_cfg index value = write_reg soc.base_addr (cptra_wdt_cfg_base + index * 4) value

  unfoldable pub set_cptra_mbox_valid_axi_user : ℕ → ℕ → Run S (Unit {0})
  set_cptra_mbox_valid_axi_user index value =
      if leb 5 index
      then fatal_error invalid_parameter
      else run (write_reg soc.base_addr (cptra_mbox_valid_axi_user_base + index * 4) value)

  unfoldable pub set_cptra_mbox_axi_user_lock : ℕ → ℕ → Run S (Unit {0})
  set_cptra_mbox_axi_user_lock index value =
      if leb 5 index
      then fatal_error invalid_parameter
      else run (write_reg soc.base_addr (cptra_mbox_axi_user_lock_base + index * 4) value)

  unfoldable pub set_cptra_fuse_valid_axi_user : ℕ → Hw S (Unit {0})
  set_cptra_fuse_valid_axi_user value = write_reg soc.base_addr cptra_fuse_valid_axi_user value

  unfoldable pub set_cptra_fuse_axi_user_lock : ℕ → Hw S (Unit {0})
  set_cptra_fuse_axi_user_lock value = write_reg soc.base_addr cptra_fuse_axi_user_lock value

  unfoldable pub set_cptra_trng_valid_axi_user : ℕ → Hw S (Unit {0})
  set_cptra_trng_valid_axi_user value = write_reg soc.base_addr cptra_trng_valid_axi_user value

  unfoldable pub set_cptra_trng_axi_user_lock : ℕ → Hw S (Unit {0})
  set_cptra_trng_axi_user_lock value = write_reg soc.base_addr cptra_trng_axi_user_lock value

  unfoldable pub set_ss_caliptra_dma_axi_user : ℕ → Hw S (Unit {0})
  set_ss_caliptra_dma_axi_user value = write_reg soc.base_addr ss_caliptra_dma_axi_user value

  -- `if (svn_result.is_ok())`
  unfoldable pub store_svn : McuResult ℕ → Hw S (Unit {0})
  store_svn (ok svn) s = write_reg soc.base_addr fuse_fmc_key_manifest_svn svn s
  store_svn (err e) s = (tt, s)

  unfoldable pub populate_fuses : Otp → Hw S (Unit {0})
  unfolding store_svn
  populate_fuses otp s =
      let (_, s₁) = write_reg soc.base_addr ss_uds_seed_base_addr_l 0x0 s in
      let (_, s₂) = write_reg soc.base_addr ss_uds_seed_base_addr_h 0 s₁ in
      let (_, s₃) =
        write_reg soc.base_addr ss_strap_generic_base (otp_dai_idle_bit_offset <<< 16) s₂ in
      let (_, s₄) =
        write_reg soc.base_addr (ss_strap_generic_base + 4) otp_direct_access_cmd_reg_offset s₃ in
      let (_, s₅) = write_reg soc.base_addr fuse_pqc_key_type mldsa_caliptra_value s₄ in
      let (svn_result, s₆) = read_word otp 0 s₅ in store_svn svn_result s₆

  -- The loop over the mailbox users, from index `i` on.
  unfoldable pub set_mbox_users : ℕ → List (Option ℕ) → Run S (Unit {0})
  unfolding set_cptra_mbox_valid_axi_user set_cptra_mbox_axi_user_lock
  set_mbox_users i [] s = (returned tt, s)
  set_mbox_users i (none ∷ rest) s = set_mbox_users (i + 1) rest s
  set_mbox_users i (some user ∷ rest) s =
      (set_cptra_mbox_valid_axi_user i user
          >> (set_cptra_mbox_axi_user_lock i 1 >> set_mbox_users (i + 1) rest))
        s

  unfoldable pub set_axi_users : AxiUsers → Run S (Unit {0})
  unfolding set_mbox_users set_cptra_fuse_valid_axi_user set_cptra_fuse_axi_user_lock
      set_cptra_trng_valid_axi_user set_cptra_trng_axi_user_lock set_ss_caliptra_dma_axi_user
  set_axi_users users = do
    set_mbox_users 0 users.mbox_users
    run (set_cptra_fuse_valid_axi_user users.fuse_user)
    run (set_cptra_fuse_axi_user_lock 1)
    run (set_cptra_trng_valid_axi_user users.trng_user)
    run (set_cptra_trng_axi_user_lock 1)
    run (set_ss_caliptra_dma_axi_user users.dma_user)

  unfoldable pub fuse_write_done : Hw S (Unit {0})
  fuse_write_done = write_reg soc.base_addr cptra_fuse_wr_done 1

  -- The loop has no bound: `waiting` is a wait that outlasts the fuel.
  unfoldable pub wait_for_firmware_ready : ℕ → Run S (Unit {0})
  unfolding fw_ready has_fw_fatal_error fatal_error
  wait_for_firmware_ready zero s = (waiting, s)
  wait_for_firmware_ready (suc fuel) s =
      let (ready, s₁) = fw_ready s in
      let (failed, s₂) = has_fw_fatal_error s₁ in
      let again = wait_for_firmware_ready fuel s₂ in
      if ready then (returned tt, s₁) else if failed then fatal_error boot_failed s₂ else again
