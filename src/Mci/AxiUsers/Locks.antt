-- ===== src/Mci/AxiUsers/Locks.antt =====
-- The mailbox users and their locks, on a device whose locks hold.
use mcu_fw_cpp.Prelude.{
  ℕ, ◌+◌, ◌*◌, ◌^◌, ◌≤◌, ◌<◌, ◌≡◌, ◌≢◌, u32, Bool, true, false, any_set, ltb, ◌==◌, Option, none,
  some, List, [], ◌∷◌, if◌then◌else◌,
}
use mcu_fw_cpp.Bus.{Bus, Hw, ◌>>=◌, pure, reg}
use mcu_fw_cpp.Mci.{Mci}
use mcu_fw_cpp.Mci.AxiUsers.{
  read_mbox0_valid_axi_user, read_mbox1_valid_axi_user, read_mbox0_axi_user_lock,
  read_mbox1_axi_user_lock, write_mbox0_valid_axi_user, write_mbox1_valid_axi_user,
  lock_mbox0_axi_user, lock_mbox1_axi_user,
}

pub data Mailbox : Type 0 where
  mbox0 mbox1 : Mailbox

abbrev pub user_base : Mailbox → ℕ
user_base mbox0 = 0x80
user_base mbox1 = 0xc0

abbrev pub lock_base : Mailbox → ℕ
lock_base mbox0 = 0xa0
lock_base mbox1 = 0xe0

abbrev pub user_addr : Mci → Mailbox → ℕ → ℕ
user_addr m b i = reg m.base_addr (user_base b + i * 4)

abbrev pub lock_addr : Mci → Mailbox → ℕ → ℕ
lock_addr m b i = reg m.base_addr (lock_base b + i * 4)

-- The registers of both tables.
abbrev pub TableReg : Mci → ℕ → Type 0
TableReg m a = (o : ℕ) × (0x80 ≤ o) × (o < 0x100) × (a ≡ reg m.base_addr o)

abbrev pub lock_bit : ℕ → Bool
lock_bit w = any_set (u32 w) 1

-- The documented behaviour of these registers: they hold what was stored, but a user register
-- ignores stores once its lock is set, and a store to any other register leaves them as they are.
pub record IsLockable {S : Type 0} (bus : Bus S) (m : Mci) (cell : ℕ → S → ℕ) : Type 0 where
  pub load_cell : (a : ℕ) (s : S) → TableReg m a → (bus.load a s).0 ≡ cell a s
  pub load_keeps : (a c : ℕ) (s : S) → TableReg m c → cell c (bus.load a s).1 ≡ cell c s
  pub store_user :
      (b : Mailbox) (i v : ℕ) (s : S)
      → i < 8
      → cell (user_addr m b i) (bus.store (user_addr m b i) v s)
        ≡ (if lock_bit (cell (lock_addr m b i) s) then cell (user_addr m b i) s else v)
  pub store_lock :
      (b : Mailbox) (i : ℕ) (s : S)
      → i < 8
      → lock_bit (cell (lock_addr m b i) (bus.store (lock_addr m b i) 1 s)) ≡ true
  pub store_keeps : (a c v : ℕ) (s : S) → TableReg m c → a ≢ c → cell c (bus.store a v s) ≡ cell c s

-- The calls of the driver, by mailbox.
pub data Call : Type 0 where
  write : Mailbox → ℕ → ℕ → Call
  lock : Mailbox → ℕ → Call

module _ {S : Type 0} ⦃bus : Bus S⦄ (m : Mci) where
  abbrev pub call : Call → Hw S Bool
  call (write mbox0 i v) = write_mbox0_valid_axi_user m i v
  call (write mbox1 i v) = write_mbox1_valid_axi_user m i v
  call (lock mbox0 i) = lock_mbox0_axi_user m i
  call (lock mbox1 i) = lock_mbox1_axi_user m i

  -- The answers of the calls, one after the other.
  abbrev pub call_all : List Call → Hw S (List Bool)
  call_all [] = pure []
  call_all (c ∷ cs) = call c >>= λ answer. call_all cs >>= λ answers. pure (answer ∷ answers)

  abbrev pub reader : Mailbox → ℕ → Hw S (Option ℕ)
  reader mbox0 = read_mbox0_valid_axi_user m
  reader mbox1 = read_mbox1_valid_axi_user m

  abbrev pub lock_reader : Mailbox → ℕ → Hw S (Option Bool)
  lock_reader mbox0 = read_mbox0_axi_user_lock m
  lock_reader mbox1 = read_mbox1_axi_user_lock m

  abbrev pub user_of : Mailbox → ℕ → S → Option ℕ
  user_of b i s = (reader b i s).0

  abbrev pub lock_of : Mailbox → ℕ → S → Option Bool
  lock_of b i s = (lock_reader b i s).0

-- The abstract table: no entry from index 8 on.
pub record Entry : Type 0 where
  pub user : Option ℕ
  pub locked : Option Bool

abbrev pub same : Mailbox → ℕ → Mailbox → ℕ → Bool
same mbox0 i mbox0 j = i == j
same mbox1 i mbox1 j = i == j
same _ i _ j = false

-- A write counts where the lock is there and not set; a lock stays.
abbrev pub overwrite : ℕ → Entry → Entry
overwrite v e = record e { user = elim e.locked [ some false ↦ some v | _ ↦ e.user ] }

abbrev pub set_lock : Entry → Entry
set_lock e = record e { locked = elim e.locked [ some b ↦ some true | none ↦ none ] }

abbrev pub note : Call → Mailbox → ℕ → Entry → Entry
note (write b i v) c j e = if same b i c j then overwrite v e else e
note (lock b i) c j e = if same b i c j then set_lock e else e

abbrev pub note_all : List Call → Mailbox → ℕ → Entry → Entry
note_all [] c j e = e
note_all (x ∷ xs) c j e = note_all xs c j (note x c j e)

-- Users of 32 bits.
abbrev pub Fits : List Call → Type 0
Fits [] = Unit {0}
Fits (write b i v ∷ cs) = (v < 2 ^ 32) × Fits cs
Fits (lock b i ∷ cs) = Fits cs

-- The index is in range.
abbrev pub accepted : Call → Bool
accepted (write b i v) = ltb i 8
accepted (lock b i) = ltb i 8

module _ {S : Type 0} ⦃bus : Bus S⦄ (m : Mci) where
  -- What the two readers give.
  abbrev pub entry_of : Mailbox → ℕ → S → Entry
  entry_of c j s = record { user = user_of m c j s; locked = lock_of m c j s }
