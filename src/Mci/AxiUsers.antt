-- ===== src/Mci/AxiUsers.antt =====
-- The registers that come in arrays: debug unlock hash, mailbox AXI users and their locks.
pub mod Locks
pub mod Apart
pub mod Readers
pub mod Steps
pub mod History
use mcu_fw_cpp.Prelude.{
  ℕ, ◌+◌, ◌*◌, any_set, Bool, true, false, leb, Option, none, some, if◌then◌else◌,
}
use mcu_fw_cpp.Bus.{Bus, Hw, ◌>>=◌, ◌>>◌, pure, read_reg, write_reg}
use mcu_fw_cpp.Mci.{Mci}
use mcu_fw_cpp.Mci.Regs.{
  reg_prod_debug_unlock_pk_hash_base, reg_mbox0_valid_axi_user_base, reg_mbox0_axi_user_lock_base,
  reg_mbox1_valid_axi_user_base, reg_mbox1_axi_user_lock_base, pk_hash_reg_count,
  mbox_axi_user_count, mbox_axi_user_lock_bit,
}

unfoldable pub prod_debug_unlock_pk_hash_len : ℕ
prod_debug_unlock_pk_hash_len = pk_hash_reg_count

unfoldable pub mbox_axi_user_len : ℕ
mbox_axi_user_len = mbox_axi_user_count

module _ {S : Type 0} ⦃bus : Bus S⦄ (m : Mci) where
  unfoldable pub read_prod_debug_unlock_pk_hash : ℕ → Hw S (Option ℕ)
  read_prod_debug_unlock_pk_hash index =
      if leb pk_hash_reg_count index
      then pure none
      else (read_reg m.base_addr (reg_prod_debug_unlock_pk_hash_base + index * 4) >>= λ v.
          pure (some v))

  -- The two mailboxes have the same methods at different offsets.
  unfoldable pub read_user : ℕ → ℕ → Hw S (Option ℕ)
  read_user user_base index =
      if leb mbox_axi_user_count index
      then pure none
      else (read_reg m.base_addr (user_base + index * 4) >>= λ v. pure (some v))

  unfoldable pub read_lock : ℕ → ℕ → Hw S (Option Bool)
  read_lock lock_base index =
      if leb mbox_axi_user_count index
      then pure none
      else (read_reg m.base_addr (lock_base + index * 4) >>= λ v.
          pure (some (any_set v mbox_axi_user_lock_bit)))

  unfoldable pub write_user : ℕ → ℕ → ℕ → Hw S Bool
  write_user user_base index value =
      if leb mbox_axi_user_count index
      then pure false
      else (write_reg m.base_addr (user_base + index * 4) value >> pure true)

  unfoldable pub lock_user : ℕ → ℕ → Hw S Bool
  lock_user lock_base index =
      if leb mbox_axi_user_count index
      then pure false
      else (write_reg m.base_addr (lock_base + index * 4) mbox_axi_user_lock_bit >> pure true)

  unfoldable pub read_mbox0_valid_axi_user : ℕ → Hw S (Option ℕ)
  unfolding read_user
  read_mbox0_valid_axi_user = read_user reg_mbox0_valid_axi_user_base

  unfoldable pub read_mbox0_axi_user_lock : ℕ → Hw S (Option Bool)
  unfolding read_lock
  read_mbox0_axi_user_lock = read_lock reg_mbox0_axi_user_lock_base

  unfoldable pub read_mbox1_valid_axi_user : ℕ → Hw S (Option ℕ)
  unfolding read_user
  read_mbox1_valid_axi_user = read_user reg_mbox1_valid_axi_user_base

  unfoldable pub read_mbox1_axi_user_lock : ℕ → Hw S (Option Bool)
  unfolding read_lock
  read_mbox1_axi_user_lock = read_lock reg_mbox1_axi_user_lock_base

  unfoldable pub write_mbox0_valid_axi_user : ℕ → ℕ → Hw S Bool
  unfolding write_user
  write_mbox0_valid_axi_user = write_user reg_mbox0_valid_axi_user_base

  unfoldable pub lock_mbox0_axi_user : ℕ → Hw S Bool
  unfolding lock_user
  lock_mbox0_axi_user = lock_user reg_mbox0_axi_user_lock_base

  unfoldable pub write_mbox1_valid_axi_user : ℕ → ℕ → Hw S Bool
  unfolding write_user
  write_mbox1_valid_axi_user = write_user reg_mbox1_valid_axi_user_base

  unfoldable pub lock_mbox1_axi_user : ℕ → Hw S Bool
  unfolding lock_user
  lock_mbox1_axi_user = lock_user reg_mbox1_axi_user_lock_base
