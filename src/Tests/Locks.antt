-- ===== src/Tests/Locks.antt =====
-- The theorems on the mailbox users and their locks, on a device whose locks hold.
use mcu_fw_cpp.Prelude.{
  ℕ, ◌+◌, ◌≤◌, ◌<◌, ◌≡◌, refl, ap, arith, ◌==◌, ltb, leb, ◌&&◌, if◌then◌else◌, Bool, true, false,
  [], ◌∷◌, List, some, map,
}
use mcu_fw_cpp.Bus.{Bus, read_reg}
use mcu_fw_cpp.Mci.{Mci}
use mcu_fw_cpp.Mci.AxiUsers.{read_mbox0_axi_user_lock, read_mbox1_axi_user_lock, read_lock}
use mcu_fw_cpp.Mci.AxiUsers.Locks.{
  Mailbox, mbox0, mbox1, user_addr, lock_addr, lock_bit, IsLockable, Call, write, lock, call_all,
  note_all, accepted, entry_of, user_of, lock_reader,
}
use mcu_fw_cpp.Mci.AxiUsers.Readers.{entry}
use mcu_fw_cpp.Error.Returns.{Returns}
use mcu_fw_cpp.Rom.Verify.{configure_mcu_mbox_axi_users, verify_mcu_mbox_axi_users}
use mcu_fw_cpp.Rom.Verify.Held.{Kept, verify-configure-writes}
use mcu_fw_cpp.Mci.AxiUsers.History.{axi_users-history, lock-stays}

abbrev mci : Mci
mci = record { base_addr = 0x21000000 }

-- A memory in which a set lock guards its user.
record Guarded : Type 0 where
  cells : ℕ → ℕ

abbrev is_user : ℕ → Bool
is_user a = if ltb a 0x210000a0 then leb 0x21000080 a else (leb 0x210000c0 a && ltb a 0x210000e0)

abbrev is_guarded : ℕ → Guarded → Bool
is_guarded a s = is_user a && lock_bit (s.cells (a + 0x20))

abbrev stored : ℕ → ℕ → Guarded → ℕ
stored a v s = if is_guarded a s then s.cells a else v

instance abbrev guarded_bus : Bus Guarded
guarded_bus = record {
  load = λ a s. (s.cells a, s);
  store = λ a v s. record { cells = λ b. if a == b then stored a v s else s.cells b };
}

stored-user :
    (b : Mailbox) (i v : ℕ) (s : Guarded)
    → i < 8
    → stored (user_addr mci b i) v s
      ≡ (if lock_bit (s.cells (lock_addr mci b i)) then s.cells (user_addr mci b i) else v)
stored-user mbox0 i v s h =
    let user : is_user (user_addr mci mbox0 i) ≡ true = ground arith in
    let next : user_addr mci mbox0 i + 0x20 ≡ lock_addr mci mbox0 i = omega arith in
    rw (user, next) refl
stored-user mbox1 i v s h =
    let user : is_user (user_addr mci mbox1 i) ≡ true = ground arith in
    let next : user_addr mci mbox1 i + 0x20 ≡ lock_addr mci mbox1 i = omega arith in
    rw (user, next) refl

stored-lock : (b : Mailbox) (i v : ℕ) (s : Guarded) → i < 8 → stored (lock_addr mci b i) v s ≡ v
stored-lock mbox0 i v s h =
    let other : is_user (lock_addr mci mbox0 i) ≡ false = ground arith in rw other refl
stored-lock mbox1 i v s h =
    let other : is_user (lock_addr mci mbox1 i) ≡ false = ground arith in rw other refl

self : (a : ℕ) → (a == a) ≡ true
self a = ground arith

guarded_bus-IsLockable : IsLockable guarded_bus mci (λ a s. s.cells a)
guarded_bus-IsLockable = record {
  load_cell = λ a s r. refl;
  load_keeps = λ a c s r. refl;
  store_user = λ b i v s h. rw (self (user_addr mci b i)) (stored-user b i v s h);
  store_lock = λ b i s h. rw (self (lock_addr mci b i)) (ap lock_bit (stored-lock b i 1 s h));
  store_keeps = λ a c v s r ne. let apart : (a == c) ≡ false = ground arith in rw apart refl;
}

abbrev start : Guarded
start = record { cells = λ a. 0 }

-- A write before and after the lock, one to the other mailbox, and two beyond the table.
abbrev calls : List Call
calls =
    write mbox0 2 7
    ∷ lock mbox0 2
    ∷ write mbox0 2 9
    ∷ write mbox1 2 5
    ∷ write mbox0 8 1
    ∷ lock mbox1 9
    ∷ []

axi_users-history_example :
    ((call_all mci calls start).0 ≡ map accepted calls)
    × ((c : Mailbox) (j : ℕ)
        → entry_of mci c j (call_all mci calls start).1
          ≡ note_all calls c j (entry_of mci c j start))
axi_users-history_example = axi_users-history mci guarded_bus-IsLockable calls start (omega arith)

lock-stays_example :
    entry_of mci mbox0 2 (call_all mci (lock mbox0 2 ∷ calls) start).1
    ≡ entry (user_of mci mbox0 2 start) (some true)
lock-stays_example =
    lock-stays mci guarded_bus-IsLockable mbox0 2 calls start (omega arith) (omega arith)

start-unlocked :
    (c : Mailbox) (j : ℕ) → 0 ≤ j → j < 8 → (entry_of mci c j start).locked ≡ some false
unfolding read_mbox0_axi_user_lock read_mbox1_axi_user_lock read_lock read_reg
start-unlocked mbox0 j le lt =
    let inside : leb 8 j ≡ false = ground arith in rw (lock_reader, inside) refl
start-unlocked mbox1 j le lt =
    let inside : leb 8 j ≡ false = ground arith in rw (lock_reader, inside) refl

-- Writes that try to change a user of each mailbox, an unused one, and one beyond the table.
abbrev tampering : List Call
tampering = write mbox0 0 66 ∷ write mbox1 1 66 ∷ write mbox0 1 66 ∷ write mbox1 8 66 ∷ []

verify-configure-writes_example :
    let (config, configured) =
      configure_mcu_mbox_axi_users mci (1 ∷ 0 ∷ 7 ∷ []) (0 ∷ 9 ∷ []) start in
    let after = (call_all mci tampering configured).1 in
    Returns (verify_mcu_mbox_axi_users mci config) after tt (Kept mci guarded_bus-IsLockable after)
verify-configure-writes_example =
    verify-configure-writes mci guarded_bus-IsLockable (1 ∷ 0 ∷ 7 ∷ []) (0 ∷ 9 ∷ []) tampering start
      (omega arith) (omega arith) (omega arith, (omega arith, (omega arith, tt)))
      (omega arith, (omega arith, tt)) tt (omega arith) start-unlocked
