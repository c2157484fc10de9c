-- ===== src/Rom/Verify/Expected.antt =====
-- The mailbox user configuration in the abstract table of users and locks: the calls that it makes,
-- and what they and later writes leave there.
use mcu_fw_cpp.Prelude.{
  ℕ, ◌+◌, ◌≤◌, ◌<◌, ◌≡◌, refl, sym, ap, ◌∙◌, arith, Bool, Bool-cases, true, false, inl, inr, Option,
  none, some, List, [], ◌∷◌, length, ◌==◌, if◌then◌else◌,
}
use mathlib.Core.Path.{subst}
use mcu_fw_cpp.Mci.AxiUsers.Locks.{
  overwrite, Mailbox, Call, write, lock, Entry, same, note, note_all, Fits,
}
use mcu_fw_cpp.Mci.AxiUsers.Readers.{entry}
use mcu_fw_cpp.Mci.AxiUsers.Apart.{same-apart, same_self}
use mcu_fw_cpp.Rom.Verify.{UserSlot, unused, in_use}
use mcu_fw_cpp.Rom.Verify.Slots.{AllFit}

abbrev pub slot_of : ℕ → UserSlot
slot_of user = if user == 0 then unused else in_use user

abbrev pub config_calls : Mailbox → ℕ → List ℕ → List Call
config_calls b i [] = []
config_calls b i (user ∷ rest) =
    let calls = config_calls b (i + 1) rest in
    if user == 0 then calls else write b i user ∷ lock b i ∷ calls

pub config_calls-Fits :
    (b : Mailbox) (i : ℕ) (users : List ℕ) → AllFit users → Fits (config_calls b i users)
config_calls-Fits b i [] fit = tt
config_calls-Fits b i (user ∷ rest) (f, fit) = elim (Bool-cases (user == 0)) [
  | inl e ↦ rw e (config_calls-Fits b (i + 1) rest fit)
  | inr e ↦ rw e (f, config_calls-Fits b (i + 1) rest fit)
]

-- The table has what a slot wants.
abbrev pub UserOf : Option ℕ → Entry → Type 0
UserOf none e = Unit {0}
UserOf (some user) e = e.user ≡ some user

abbrev pub Matches : UserSlot → Entry → Type 0
Matches slot e = UserOf slot.user e × (e.locked ≡ some slot.locked)

abbrev pub AllMatch : (ℕ → Entry) → ℕ → List ℕ → Type 0
AllMatch table i [] = Unit {0}
AllMatch table i (user ∷ rest) = Matches (slot_of user) (table i) × AllMatch table (i + 1) rest

config_calls-unused :
    (b : Mailbox) (i user : ℕ) (rest : List ℕ)
    → (user == 0) ≡ true
    → config_calls b i (user ∷ rest) ≡ config_calls b (i + 1) rest
config_calls-unused b i user rest z = rw z refl

config_calls-used :
    (b : Mailbox) (i user : ℕ) (rest : List ℕ)
    → (user == 0) ≡ false
    → config_calls b i (user ∷ rest) ≡ write b i user ∷ lock b i ∷ config_calls b (i + 1) rest
config_calls-used b i user rest z = rw z refl

Matches-unused :
    (user : ℕ) (e : Entry) → (user == 0) ≡ true → e.locked ≡ some false → Matches (slot_of user) e
Matches-unused user e z h = rw z (tt, h)

Matches-used :
    (user : ℕ) (e : Entry)
    → (user == 0) ≡ false
    → e ≡ entry (some user) (some true)
    → Matches (slot_of user) e
Matches-used user e z h = rw z (ap (λ (x : Entry). x.user) h, ap (λ (x : Entry). x.locked) h)

-- The calls of the configuration from index `i` on leave the other entries.
pub config_calls-elsewhere :
    (b : Mailbox) (i : ℕ) (users : List ℕ) (c : Mailbox) (j : ℕ) (e : Entry)
    → ((k : ℕ) → i ≤ k → same b k c j ≡ false)
    → note_all (config_calls b i users) c j e ≡ e
config_calls-elsewhere b i [] c j e apart = refl
config_calls-elsewhere b i (user ∷ rest) c j e apart =
    let onward = config_calls-elsewhere b (i + 1) rest c j e (λ k le. apart k (omega arith)) in
    elim (Bool-cases (user == 0)) [
      | inl z ↦
          ap (λ (calls : List Call). note_all calls c j e) (config_calls-unused b i user rest z)
          ∙ onward
      | inr z ↦
          ap (λ (calls : List Call). note_all calls c j e) (config_calls-used b i user rest z)
          ∙ rw (note_all, apart i (omega arith)) onward
    ]

-- No entry from `i` to 7 is locked.
abbrev pub Open : (ℕ → Entry) → ℕ → Type 0
Open table i = (j : ℕ) → i ≤ j → j < 8 → (table j).locked ≡ some false

configured_entry :
    (b : Mailbox) (i user : ℕ) (e : Entry)
    → e.locked ≡ some false
    → note (lock b i) b i (note (write b i user) b i e) ≡ entry (some user) (some true)
configured_entry b i user e free = rw (same_self b i, free) refl

pub config_calls-AllMatch :
    (b : Mailbox) (i : ℕ) (users : List ℕ) (table : ℕ → Entry)
    → i + length users ≤ 8
    → Open table i
    → AllMatch (λ j. note_all (config_calls b i users) b j (table j)) i users
config_calls-AllMatch b i [] table h free = tt
config_calls-AllMatch b i (user ∷ rest) table h free =
    let past : (e : Entry) → note_all (config_calls b (i + 1) rest) b i e ≡ e = λ e.
      config_calls-elsewhere b (i + 1) rest b i e
        (λ k le. same-apart b k b i (λ p. absurd (omega (arith, p)))) in
    let wanted : List Call → Type 0 =
      λ calls. AllMatch (λ j. note_all calls b j (table j)) i (user ∷ rest) in
    elim (Bool-cases (user == 0)) [
      | inl z ↦ subst wanted (sym (config_calls-unused b i user rest z)) (
        Matches-unused user _ z
            (ap (λ (e : Entry). e.locked) (past (table i)) ∙ free i (omega arith) (omega arith)),
        config_calls-AllMatch b (i + 1) rest table (omega arith)
            (λ j le lt. free j (omega arith) lt),
      )
      | inr z ↦
          let step : ℕ → Entry = λ j. note (lock b i) b j (note (write b i user) b j (table j)) in
          subst wanted (sym (config_calls-used b i user rest z)) (
            Matches-used user _ z (
                past (step i)
                ∙ configured_entry b i user (table i) (free i (omega arith) (omega arith))),
            config_calls-AllMatch b (i + 1) rest step (omega arith) (λ j le lt.
                let other : same b i b j ≡ false =
                  same-apart b i b j (λ p. absurd (omega (arith, p))) in
                rw other (free j (omega arith) lt)),
          )
    ]

-- Writes only.
abbrev pub IsWriteOnly : List Call → Type 0
IsWriteOnly [] = Unit {0}
IsWriteOnly (write b i v ∷ cs) = IsWriteOnly cs
IsWriteOnly (lock b i ∷ cs) = ⊥

overwrite-locked :
    (v : ℕ) (u : Option ℕ) (l : Option Bool) → l ≡ some true → overwrite v (entry u l) ≡ entry u l
overwrite-locked v u l h = rw h refl

-- A later write changes nothing that a slot wants.
overwrite-Matches :
    (v user : ℕ) (e : Entry) → Matches (slot_of user) e → Matches (slot_of user) (overwrite v e)
overwrite-Matches v user e m = elim (Bool-cases (user == 0)) [
  | inl z ↦ Matches-unused user (overwrite v e) z (rw z at m).1
  | inr z ↦
      let locked : e.locked ≡ some true = (rw z at m).1 in
      subst (Matches (slot_of user)) (sym (overwrite-locked v e.user e.locked locked)) m
]

pub writes-Matches :
    (cs : List Call) (c : Mailbox) (j user : ℕ) (e : Entry)
    → IsWriteOnly cs
    → Matches (slot_of user) e
    → Matches (slot_of user) (note_all cs c j e)
writes-Matches [] c j user e w m = m
writes-Matches (lock b i ∷ cs) c j user e w m = absurd w
writes-Matches (write b i v ∷ cs) c j user e w m =
    writes-Matches cs c j user (note (write b i v) c j e) w (elim (Bool-cases (same b i c j)) [
      | inl hit ↦ rw hit (overwrite-Matches v user e m)
      | inr miss ↦ rw miss m
    ])
