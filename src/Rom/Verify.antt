-- ===== src/Rom/Verify.antt =====
-- The configuration of the MCU mailbox users and the checks of what was written
-- (`configure_mcu_mbox_axi_users`, `verify_mcu_mbox_axi_users` and
-- `verify_prod_debug_unlock_pk_hash` of rom/src/rom.cpp).
pub mod PkHash
pub mod Slots
pub mod Users
pub mod Expected
pub mod Held
use mcu_fw_cpp.Prelude.{
  ℕ, zero, suc, ◌+◌, ◌*◌, u32, Bool, true, false, not, ◌||◌, List, [], ◌∷◌, Option, none, some,
  ◌==◌, if◌then◌else◌, get_or,
}
use mcu_fw_cpp.Bus.{Bus, Hw}
use mcu_fw_cpp.Error.{
  McuResult, ok, err, otp_read_error, mbox_invalid_response, Try, ◌>>=◌, ◌>>◌, pure, fail, lift,
}
use mcu_fw_cpp.Mci.{Mci}
use mcu_fw_cpp.Mci.AxiUsers.{
  read_mbox0_valid_axi_user, read_mbox0_axi_user_lock, read_mbox1_valid_axi_user,
  read_mbox1_axi_user_lock, write_mbox0_valid_axi_user, lock_mbox0_axi_user,
  write_mbox1_valid_axi_user, lock_mbox1_axi_user, read_prod_debug_unlock_pk_hash,
  prod_debug_unlock_pk_hash_len,
}
use mcu_fw_cpp.Otp.{Otp, read_word}

abbrev pub mcu_mbox_users : ℕ
mcu_mbox_users = 5

-- `expected_len`: 384 bytes.
abbrev pub pk_hash_expected_len : ℕ
pk_hash_expected_len = 96

-- What one mailbox is configured with: `mbox0_users[i]` and `mbox0_locks[i]` of
-- `McuMboxAxiUserConfig`, entry by entry, and so for mailbox 1.
pub record UserSlot : Type 0 where
  pub user : Option ℕ
  pub locked : Bool

pub record McuMboxAxiUserConfig : Type 0 where
  pub mbox0 : List UserSlot
  pub mbox1 : List UserSlot

abbrev pub unused : UserSlot
unused = record { user = none; locked = false }

abbrev pub in_use : ℕ → UserSlot
in_use user = record { user = some user; locked = true }

-- `actual_result.value_or(0)` and `.value_or(false)`
abbrev pub value_or {ℓ} : {A : Type ℓ} → A → Option A → A
value_or d none = d
value_or d (some a) = a

-- The negation of `a != b` on flags.
abbrev pub same_flag : Bool → Bool → Bool
same_flag true b = b
same_flag false b = not b

module _ {S : Type 0} ⦃bus : Bus S⦄ where
  -- The loop over one mailbox, from index `i` on, with that mailbox's two writers.
  unfoldable pub configure_mbox :
      (ℕ → ℕ → Hw S Bool) → (ℕ → Hw S Bool) → ℕ → List ℕ → Hw S (List UserSlot)
  configure_mbox write_user lock_user i [] s = ([], s)
  configure_mbox write_user lock_user i (user ∷ rest) s =
      let s' = if user == 0 then s else (lock_user i (write_user i user s).1).1 in
      let (slots, s'') = configure_mbox write_user lock_user (i + 1) rest s' in
      ((if user == 0 then unused else in_use user) ∷ slots, s'')

  unfoldable pub configure_mcu_mbox_axi_users : Mci → List ℕ → List ℕ → Hw S McuMboxAxiUserConfig
  unfolding configure_mbox
  configure_mcu_mbox_axi_users mci mbox0_users mbox1_users s =
      let (slots0, s₁) =
        configure_mbox (write_mbox0_valid_axi_user mci) (lock_mbox0_axi_user mci) 0 mbox0_users s in
      let (slots1, s₂) =
        configure_mbox (write_mbox1_valid_axi_user mci) (lock_mbox1_axi_user mci) 0 mbox1_users
          s₁ in
      (record { mbox0 = slots0; mbox1 = slots1 }, s₂)

  -- The check of the user value, if one is configured.
  unfoldable pub verify_user : (ℕ → Hw S (Option ℕ)) → ℕ → Option ℕ → Try S (Unit {0})
  verify_user read_user i none = pure tt
  verify_user read_user i (some expected) = do
    actual ← lift (read_user i)
    if value_or 0 actual == expected then pure tt else fail mbox_invalid_response

  -- The loop over one mailbox, from index `i` on, with that mailbox's two readers.
  unfoldable pub verify_mbox :
      (ℕ → Hw S (Option ℕ)) → (ℕ → Hw S (Option Bool)) → ℕ → List UserSlot → Try S (Unit {0})
  unfolding verify_user
  verify_mbox read_user read_lock i [] = pure tt
  verify_mbox read_user read_lock i (slot ∷ rest) = do
    verify_user read_user i slot.user
    locked ← lift (read_lock i)
    (if same_flag slot.locked (value_or false locked) then pure tt else fail mbox_invalid_response)
    verify_mbox read_user read_lock (i + 1) rest

  unfoldable pub verify_mcu_mbox_axi_users : Mci → McuMboxAxiUserConfig → Try S (Unit {0})
  unfolding verify_mbox
  verify_mcu_mbox_axi_users mci expected = do
    verify_mbox (read_mbox0_valid_axi_user mci) (read_mbox0_axi_user_lock mci) 0 expected.mbox0
    verify_mbox (read_mbox1_valid_axi_user mci) (read_mbox1_axi_user_lock mci) 0 expected.mbox1

  -- An error of the read is reported as `OTP_READ_ERROR`, whatever it was.
  abbrev pub as_otp_error : Try S ℕ → Try S ℕ
  as_otp_error m s =
      let (r, s') = m s in elim r [ ok w ↦ (ok w, s') | err e ↦ (err otp_read_error, s') ]

  -- The inner loop on the words of a hash; the mismatches are gathered.
  unfoldable pub compare_words : Mci → Otp → ℕ → ℕ → ℕ → Bool → Try S Bool
  compare_words mci otp hash_idx word_idx zero mismatch = pure mismatch
  compare_words mci otp hash_idx word_idx (suc count) mismatch = do
    expected ← as_otp_error (read_word otp (u32 (124 + hash_idx * 48 + word_idx * 4)))
    actual ← lift (read_prod_debug_unlock_pk_hash mci (hash_idx * 12 + word_idx))
    compare_words mci otp hash_idx (word_idx + 1) count
        (mismatch || not (expected == value_or 0 actual))

  -- The loop on the hashes, from `hash_idx` on.
  unfoldable pub compare_hashes : Mci → Otp → ℕ → ℕ → Bool → Try S Bool
  unfolding compare_words
  compare_hashes mci otp hash_idx zero mismatch = pure mismatch
  compare_hashes mci otp hash_idx (suc count) mismatch = do
    mismatch' ← compare_words mci otp hash_idx 0 12 mismatch
    compare_hashes mci otp (hash_idx + 1) count mismatch'

  unfoldable pub verify_prod_debug_unlock_pk_hash : Mci → Otp → Try S (Unit {0})
  unfolding compare_hashes prod_debug_unlock_pk_hash_len
  verify_prod_debug_unlock_pk_hash mci otp =
      if not (prod_debug_unlock_pk_hash_len == pk_hash_expected_len)
      then fail otp_read_error
      else (do
        mismatch ← compare_hashes mci otp 0 8 false
        if mismatch then fail otp_read_error else pure tt)
