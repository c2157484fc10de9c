-- ===== src/SocManager/Lock.antt =====
-- The mailbox lock as the manager relies on it, and a device with such a lock.
use mcu_fw_cpp.Prelude.{
  ℕ, ◌≡◌, ◌≢◌, refl, arith, Bool, true, false, ◌==◌, ◌&&◌, if◌then◌else◌, List, ◌∷◌,
}
use mcu_fw_cpp.Bus.{Bus, reg}
use mcu_fw_cpp.SocManager.{mbox_lock, mbox_execute}

abbrev pub flag : Bool → ℕ
flag true = 1
flag false = 0

-- The documented behaviour of the mailbox lock: a load of LOCK returns whether the lock was held, and
-- takes it; a store of 0 to EXECUTE frees it; no other access of the device changes it.
pub record IsLock {S : Type 0} (bus : Bus S) (base : ℕ) (held : S → Bool) : Type 0 where
  pub load_lock : (s : S) → (bus.load (reg base mbox_lock) s).0 ≡ flag (held s)
  pub load_takes : (s : S) → held (bus.load (reg base mbox_lock) s).1 ≡ true
  pub load_keeps : (a : ℕ) (s : S) → a ≢ reg base mbox_lock → held (bus.load a s).1 ≡ held s
  pub store_frees : (s : S) → held (bus.store (reg base mbox_execute) 0 s) ≡ false
  pub store_keeps : (a v : ℕ) (s : S) → a ≢ reg base mbox_execute → held (bus.store a v s) ≡ held s
  pub execute_keeps : (s : S) → held (bus.store (reg base mbox_execute) 1 s) ≡ held s

-- A mailbox at one base address: its lock, and the stores that it has seen, newest first.
pub record LockDevice : Type 0 where
  pub locked : Bool
  pub seen : List (ℕ × ℕ)

abbrev pub device_base : ℕ
device_base = 0x30020000

instance abbrev pub lock_bus : Bus LockDevice
lock_bus = record {
  load = λ a s. if a == 0x30020000 then (flag s.locked, record s { locked = true }) else (0, s);
  store = λ a v s. record {
    locked = if (a == 0x30020018) && (v == 0) then false else s.locked;
    seen = (a, v) ∷ s.seen;
  };
}

pub lock_bus-IsLock : IsLock lock_bus device_base (λ s. s.locked)
lock_bus-IsLock = record {
  load_lock = λ s. refl;
  load_takes = λ s. refl;
  load_keeps = λ a s ne. ground arith;
  store_frees = λ s. refl;
  store_keeps = λ a v s ne. ground arith;
  execute_keeps = λ s. refl;
}
