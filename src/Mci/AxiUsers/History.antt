-- ===== src/Mci/AxiUsers/History.antt =====
-- The mailbox users and their locks over any sequence of calls.
use mcu_fw_cpp.Prelude.{
  ℕ, ◌<◌, ◌≡◌, refl, ap, ap₂, sym, ◌∙◌, arith, Bool, true, leb, Bool-cases, inl, inr, Option, some,
  List, [], ◌∷◌, map,
}
use mcu_fw_cpp.Bus.{Bus}
use mcu_fw_cpp.Mci.{Mci}
use mcu_fw_cpp.Mci.AxiUsers.Locks.{
  Mailbox, IsLockable, Call, write, lock, call, call_all, same, set_lock, note, note_all, Fits,
  accepted, entry_of, user_of,
}
use mcu_fw_cpp.Mci.AxiUsers.Apart.{same_self}
use mcu_fw_cpp.Mci.AxiUsers.Readers.{entry, absent, entry-absent, readers-present}
use mcu_fw_cpp.Mci.AxiUsers.Steps.{note-absent, entry-call, call-refused, call-stores}

note_all-absent : (cs : List Call) (c : Mailbox) (j : ℕ) → note_all cs c j absent ≡ absent
note_all-absent [] c j = refl
note_all-absent (x ∷ xs) c j = ap (note_all xs c j) (note-absent x c j) ∙ note_all-absent xs c j

-- In the abstract table a lock stays, and so does what it locks.
note_all-locked :
    (cs : List Call) (c : Mailbox) (j : ℕ) (u : Option ℕ)
    → note_all cs c j (entry u (some true)) ≡ entry u (some true)
note_all-locked [] c j u = refl
note_all-locked (write b i v ∷ xs) c j u = elim (Bool-cases (same b i c j)) [
  | inl e ↦ rw e (note_all-locked xs c j u)
  | inr e ↦ rw e (note_all-locked xs c j u)
]
note_all-locked (lock b i ∷ xs) c j u = elim (Bool-cases (same b i c j)) [
  | inl e ↦ rw e (note_all-locked xs c j u)
  | inr e ↦ rw e (note_all-locked xs c j u)
]

module _ {S : Type 0} ⦃bus : Bus S⦄ (m : Mci) where
  call-accepted : (x : Call) (s : S) → (call m x s).0 ≡ accepted x
  call-accepted (write b i v) s = elim (Bool-cases (leb 8 i)) [
    | inl out ↦ ap (λ (r : Bool × S). r.0) (call-refused m b i v s out).0 ∙ ground arith
    | inr inside ↦ ap (λ (r : Bool × S). r.0) (call-stores m b i v s inside).0 ∙ ground arith
  ]
  call-accepted (lock b i) s = elim (Bool-cases (leb 8 i)) [
    | inl out ↦ ap (λ (r : Bool × S). r.0) (call-refused m b i 0 s out).1 ∙ ground arith
    | inr inside ↦ ap (λ (r : Bool × S). r.0) (call-stores m b i 0 s inside).1 ∙ ground arith
  ]

module _ {S : Type 0} ⦃bus : Bus S⦄ (m : Mci) {cell : ℕ → S → ℕ} (d : IsLockable bus m cell) where
  set_lock-inside :
      (b : Mailbox) (i : ℕ) (s : S)
      → i < 8
      → note (lock b i) b i (entry_of m b i s) ≡ entry (user_of m b i s) (some true)
  set_lock-inside b i s h =
      let (_, l) = readers-present m b i s (ground arith) in
      rw (same_self b i) (ap (λ (o : Option Bool). set_lock (entry (user_of m b i s) o)) l)

  entry-call_all :
      (cs : List Call) (c : Mailbox) (j : ℕ) (s : S)
      → Fits cs
      → j < 8
      → entry_of m c j (call_all m cs s).1 ≡ note_all cs c j (entry_of m c j s)
  entry-call_all [] c j s fits h = refl
  entry-call_all (write b i v ∷ xs) c j s (f, fits) h =
      entry-call_all xs c j (call m (write b i v) s).1 fits h
      ∙ ap (note_all xs c j) (entry-call m d (write b i v) c j s (f, tt) h)
  entry-call_all (lock b i ∷ xs) c j s fits h =
      entry-call_all xs c j (call m (lock b i) s).1 fits h
      ∙ ap (note_all xs c j) (entry-call m d (lock b i) c j s tt h)

  answers : (cs : List Call) (s : S) → (call_all m cs s).0 ≡ map accepted cs
  answers [] s = refl
  answers (x ∷ xs) s = ap₂ (◌∷◌) (call-accepted m x s) (answers xs (call m x s).1)

  -- On a device whose registers hold the users until they are locked, and over any sequence of
  -- calls of the four methods that write or lock a user, with users of 32 bits: each call answers
  -- true exactly when its index is below 8, and for every mailbox and every index the two readers
  -- then give what the abstract table has, from what they gave at the start. In that table a write
  -- changes its own entry if that is not locked, a lock locks its own entry, and there is no entry
  -- from index 8 on.
  pub axi_users-history :
      (cs : List Call) (s : S)
      → Fits cs
      → ((call_all m cs s).0 ≡ map accepted cs)
        × ((c : Mailbox) (j : ℕ)
            → entry_of m c j (call_all m cs s).1 ≡ note_all cs c j (entry_of m c j s))
  axi_users-history cs s fits = (
    answers cs s,
    λ c j. elim (Bool-cases (leb 8 j)) [
      | inl out ↦
          entry-absent m c j (call_all m cs s).1 out
          ∙ sym (note_all-absent cs c j)
          ∙ ap (note_all cs c j) (sym (entry-absent m c j s out))
      | inr inside ↦ entry-call_all cs c j s fits (ground arith)
    ],
  )

  -- On a device whose registers hold the users until they are locked, once a user is locked with an
  -- index below 8: whatever calls of the four methods that write or lock a user follow, with users
  -- of 32 bits, the readers give the user that stood there and that it is locked.
  pub lock-stays :
      (b : Mailbox) (i : ℕ) (cs : List Call) (s : S)
      → i < 8
      → Fits cs
      → entry_of m b i (call_all m (lock b i ∷ cs) s).1 ≡ entry (user_of m b i s) (some true)
  lock-stays b i cs s h fits =
      entry-call_all (lock b i ∷ cs) b i s fits h
      ∙ ap (note_all cs b i) (set_lock-inside b i s h)
      ∙ note_all-locked cs b i (user_of m b i s)
