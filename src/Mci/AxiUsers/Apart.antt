-- ===== src/Mci/AxiUsers/Apart.antt =====
-- The registers of two different users or locks have different addresses.
use mcu_fw_cpp.Prelude.{ℕ, ◌+◌, ◌*◌, ◌<◌, ◌≡◌, ◌≢◌, refl, arith, true, false}
use mathlib.Core.Path.{subst}
use mcu_fw_cpp.Mci.{Mci}
use mcu_fw_cpp.Mci.AxiUsers.Locks.{Mailbox, mbox0, mbox1, user_addr, lock_addr, TableReg, same}

pub same-apart : (b : Mailbox) (i : ℕ) (c : Mailbox) (j : ℕ) → i ≢ j → same b i c j ≡ false
same-apart mbox0 i mbox0 j ne = ground arith
same-apart mbox0 i mbox1 j ne = refl
same-apart mbox1 i mbox0 j ne = refl
same-apart mbox1 i mbox1 j ne = ground arith

pub same_self : (b : Mailbox) (i : ℕ) → same b i b i ≡ true
same_self mbox0 i = ground arith
same_self mbox1 i = ground arith

pub same-elim :
    (P : Mailbox → ℕ → Type 0) (b : Mailbox) (i : ℕ) (c : Mailbox) (j : ℕ)
    → same b i c j ≡ true
    → P b i
    → P c j
same-elim P mbox0 i mbox0 j h p = let e : i ≡ j = ground arith in subst (P mbox0) e p
same-elim P mbox0 i mbox1 j h p = ground arith
same-elim P mbox1 i mbox0 j h p = ground arith
same-elim P mbox1 i mbox1 j h p = let e : i ≡ j = ground arith in subst (P mbox1) e p

abbrev pub Apart : Mci → Mailbox → ℕ → Mailbox → ℕ → Type 0
Apart m b i c j = (user_addr m b i ≢ user_addr m c j) × (lock_addr m b i ≢ lock_addr m c j)

pub Apart-same :
    (m : Mci) (b : Mailbox) (i : ℕ) (c : Mailbox) (j : ℕ)
    → i < 8
    → j < 8
    → same b i c j ≡ false
    → Apart m b i c j
Apart-same m mbox0 i mbox0 j hi hj h = let ne : i ≢ j = ground arith in (omega arith, omega arith)
Apart-same m mbox0 i mbox1 j hi hj h = (omega arith, omega arith)
Apart-same m mbox1 i mbox0 j hi hj h = (omega arith, omega arith)
Apart-same m mbox1 i mbox1 j hi hj h = let ne : i ≢ j = ground arith in (omega arith, omega arith)

pub user-lock-apart :
    (m : Mci) (b : Mailbox) (i : ℕ) (c : Mailbox) (j : ℕ)
    → i < 8
    → j < 8
    → user_addr m b i ≢ lock_addr m c j
user-lock-apart m mbox0 i mbox0 j hi hj = omega arith
user-lock-apart m mbox0 i mbox1 j hi hj = omega arith
user-lock-apart m mbox1 i mbox0 j hi hj = omega arith
user-lock-apart m mbox1 i mbox1 j hi hj = omega arith

pub user-TableReg : (m : Mci) (b : Mailbox) (i : ℕ) → i < 8 → TableReg m (user_addr m b i)
user-TableReg m mbox0 i h = (0x80 + i * 4, omega arith, omega arith, refl)
user-TableReg m mbox1 i h = (0xc0 + i * 4, omega arith, omega arith, refl)

pub lock-TableReg : (m : Mci) (b : Mailbox) (i : ℕ) → i < 8 → TableReg m (lock_addr m b i)
lock-TableReg m mbox0 i h = (0xa0 + i * 4, omega arith, omega arith, refl)
lock-TableReg m mbox1 i h = (0xe0 + i * 4, omega arith, omega arith, refl)
