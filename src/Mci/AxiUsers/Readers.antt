-- ===== src/Mci/AxiUsers/Readers.antt =====
-- What the readers of the mailbox users and their locks give, and what they load.
use mcu_fw_cpp.Prelude.{ℕ, ◌≡◌, refl, ap₂, u32, Bool, true, false, leb, Option, none, some}
use mcu_fw_cpp.Bus.{Bus, read_reg}
use mcu_fw_cpp.Mci.{Mci}
use mcu_fw_cpp.Mci.AxiUsers.{
  read_user, read_lock, read_mbox0_valid_axi_user, read_mbox1_valid_axi_user,
  read_mbox0_axi_user_lock, read_mbox1_axi_user_lock,
}
use mcu_fw_cpp.Mci.AxiUsers.Locks.{
  Mailbox, mbox0, mbox1, user_addr, lock_addr, lock_bit, Entry, entry_of, user_of, lock_of, reader,
  lock_reader,
}

abbrev pub entry : Option ℕ → Option Bool → Entry
entry u l = record { user = u; locked = l }

abbrev pub absent : Entry
absent = record { user = none; locked = none }

module _ {S : Type 0} ⦃bus : Bus S⦄ (m : Mci) where
  readers-absent :
      (c : Mailbox) (j : ℕ) (s : S)
      → leb 8 j ≡ true
      → (user_of m c j s ≡ none) × (lock_of m c j s ≡ none)
  unfolding read_mbox0_valid_axi_user read_mbox1_valid_axi_user read_mbox0_axi_user_lock
      read_mbox1_axi_user_lock read_user read_lock
  readers-absent mbox0 j s h = (rw (user_of, reader, h) refl, rw (lock_of, lock_reader, h) refl)
  readers-absent mbox1 j s h = (rw (user_of, reader, h) refl, rw (lock_of, lock_reader, h) refl)

  pub entry-absent : (c : Mailbox) (j : ℕ) (s : S) → leb 8 j ≡ true → entry_of m c j s ≡ absent
  entry-absent c j s h = let (u, l) = readers-absent c j s h in ap₂ entry u l

  pub readers-present :
      (c : Mailbox) (j : ℕ) (s : S)
      → leb 8 j ≡ false
      → (user_of m c j s ≡ some (u32 (bus.load (user_addr m c j) s).0))
        × (lock_of m c j s ≡ some (lock_bit (bus.load (lock_addr m c j) s).0))
  unfolding read_mbox0_valid_axi_user read_mbox1_valid_axi_user read_mbox0_axi_user_lock
      read_mbox1_axi_user_lock read_user read_lock read_reg
  readers-present mbox0 j s h = (rw (user_of, reader, h) refl, rw (lock_of, lock_reader, h) refl)
  readers-present mbox1 j s h = (rw (user_of, reader, h) refl, rw (lock_of, lock_reader, h) refl)

  -- A reader loads one register, or none.
  pub reader-state :
      (b : Mailbox) (i : ℕ) (s : S)
      → leb 8 i ≡ false
      → ((reader m b i s).1 ≡ (bus.load (user_addr m b i) s).1)
        × ((lock_reader m b i s).1 ≡ (bus.load (lock_addr m b i) s).1)
  unfolding read_mbox0_valid_axi_user read_mbox1_valid_axi_user read_mbox0_axi_user_lock
      read_mbox1_axi_user_lock read_user read_lock read_reg
  reader-state mbox0 i s h = (rw (reader, h) refl, rw (lock_reader, h) refl)
  reader-state mbox1 i s h = (rw (reader, h) refl, rw (lock_reader, h) refl)

  pub reader-untouched :
      (b : Mailbox) (i : ℕ) (s : S)
      → leb 8 i ≡ true
      → ((reader m b i s).1 ≡ s) × ((lock_reader m b i s).1 ≡ s)
  unfolding read_mbox0_valid_axi_user read_mbox1_valid_axi_user read_mbox0_axi_user_lock
      read_mbox1_axi_user_lock read_user read_lock
  reader-untouched mbox0 i s h = (rw (reader, h) refl, rw (lock_reader, h) refl)
  reader-untouched mbox1 i s h = (rw (reader, h) refl, rw (lock_reader, h) refl)
