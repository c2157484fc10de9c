-- ===== src/Mci/AxiUsers/Steps.antt =====
-- One call on the mailbox users and their locks, against the abstract table.
use mcu_fw_cpp.Prelude.{
  ℕ, ◌^◌, ◌<◌, ◌≡◌, ◌≢◌, refl, ap, ap₂, sym, ◌∙◌, u32, arith, Bool, true, false, leb, Bool-cases,
  inl, inr, some, [], ◌∷◌, if◌then◌else◌,
}
use mcu_fw_cpp.Bus.{Bus, write_reg}
use mcu_fw_cpp.Mci.{Mci}
use mcu_fw_cpp.Mci.AxiUsers.{
  write_mbox0_valid_axi_user, write_mbox1_valid_axi_user, lock_mbox0_axi_user, lock_mbox1_axi_user,
}
use mcu_fw_cpp.Mci.AxiUsers.Locks.{
  Mailbox, mbox0, mbox1, user_addr, lock_addr, lock_bit, IsLockable, Call, write, lock, call, Entry,
  same, overwrite, set_lock, note, Fits, entry_of, reader, lock_reader,
}
use mcu_fw_cpp.Mci.AxiUsers.Apart.{
  same-apart, same-elim, Apart-same, user-lock-apart, user-TableReg, lock-TableReg,
}
use mcu_fw_cpp.Mci.AxiUsers.Readers.{
  entry, absent, entry-absent, readers-present, reader-state, reader-untouched,
}

pub note-absent : (x : Call) (c : Mailbox) (j : ℕ) → note x c j absent ≡ absent
note-absent (write b i v) c j = elim (Bool-cases (same b i c j)) [
  | inl e ↦ rw e refl
  | inr e ↦ rw e refl
]
note-absent (lock b i) c j = elim (Bool-cases (same b i c j)) [
  | inl e ↦ rw e refl
  | inr e ↦ rw e refl
]

module _ {S : Type 0} ⦃bus : Bus S⦄ (m : Mci) where
  -- A call that is refused touches nothing.
  pub call-refused :
      (b : Mailbox) (i v : ℕ) (s : S)
      → leb 8 i ≡ true
      → (call m (write b i v) s ≡ (false, s)) × (call m (lock b i) s ≡ (false, s))
  unfolding write_mbox0_valid_axi_user write_mbox1_valid_axi_user lock_mbox0_axi_user
      lock_mbox1_axi_user
  call-refused mbox0 i v s h = (rw h refl, rw h refl)
  call-refused mbox1 i v s h = (rw h refl, rw h refl)

  pub call-stores :
      (b : Mailbox) (i v : ℕ) (s : S)
      → leb 8 i ≡ false
      → (call m (write b i v) s ≡ (true, bus.store (user_addr m b i) (u32 v) s))
        × (call m (lock b i) s ≡ (true, bus.store (lock_addr m b i) 1 s))
  unfolding write_mbox0_valid_axi_user write_mbox1_valid_axi_user lock_mbox0_axi_user
      lock_mbox1_axi_user write_reg
  call-stores mbox0 i v s h = (rw h refl, rw h refl)
  call-stores mbox1 i v s h = (rw h refl, rw h refl)

abbrev present : ℕ → ℕ → Entry
present u l = record { user = some (u32 u); locked = some (lock_bit l) }

overwrite-present :
    (v u l : ℕ)
    → v < 2 ^ 32
    → present (if lock_bit l then u else u32 v) l ≡ overwrite v (present u l)
overwrite-present v u l h = elim (Bool-cases (lock_bit l)) [
  | inl e ↦ rw e refl
  | inr e ↦ let fits : u32 (u32 v) ≡ v = omega arith in rw (e, fits) refl
]

module _ {S : Type 0} ⦃bus : Bus S⦄ (m : Mci) {cell : ℕ → S → ℕ} (d : IsLockable bus m cell) where
  entry-present :
      (c : Mailbox) (j : ℕ) (s : S)
      → j < 8
      → entry_of m c j s ≡ present (cell (user_addr m c j) s) (cell (lock_addr m c j) s)
  entry-present c j s h =
      let (u, l) = readers-present m c j s (ground arith) in
      ap₂ entry u l
      ∙ ap₂ present (d.load_cell _ s (user-TableReg m c j h))
          (d.load_cell _ s (lock-TableReg m c j h))

  -- A store elsewhere leaves an entry.
  entry-kept :
      (c : Mailbox) (j a v : ℕ) (s : S)
      → j < 8
      → a ≢ user_addr m c j
      → a ≢ lock_addr m c j
      → entry_of m c j (bus.store a v s) ≡ entry_of m c j s
  entry-kept c j a v s h nu nl =
      entry-present c j (bus.store a v s) h
      ∙ ap₂ present (d.store_keeps a _ v s (user-TableReg m c j h) nu)
          (d.store_keeps a _ v s (lock-TableReg m c j h) nl)
      ∙ sym (entry-present c j s h)

  entry-written :
      (b : Mailbox) (i v : ℕ) (s : S)
      → i < 8
      → v < 2 ^ 32
      → entry_of m b i (bus.store (user_addr m b i) (u32 v) s) ≡ overwrite v (entry_of m b i s)
  entry-written b i v s h fits =
      let s' = bus.store (user_addr m b i) (u32 v) s in
      entry-present b i s' h
      ∙ ap₂ present (d.store_user b i (u32 v) s h) (
          d.store_keeps (user_addr m b i) _ (u32 v) s (lock-TableReg m b i h)
            (user-lock-apart m b i b i h h))
      ∙ overwrite-present v (cell (user_addr m b i) s) (cell (lock_addr m b i) s) fits
      ∙ ap (overwrite v) (sym (entry-present b i s h))

  entry-locked :
      (b : Mailbox) (i : ℕ) (s : S)
      → i < 8
      → entry_of m b i (bus.store (lock_addr m b i) 1 s) ≡ set_lock (entry_of m b i s)
  entry-locked b i s h =
      let s' = bus.store (lock_addr m b i) 1 s in
      let apart = user-lock-apart m b i b i h h in
      let kept =
        d.store_keeps (lock_addr m b i) _ 1 s (user-TableReg m b i h) (λ e. apart (sym e)) in
      entry-present b i s' h
      ∙ ap₂ (λ (u : ℕ) (l : Bool). record { user = some (u32 u); locked = some l }) kept
          (d.store_lock b i s h)
      ∙ ap set_lock (sym (entry-present b i s h))

  -- What one call does to one entry: it is noted in the abstract table.
  pub entry-call :
      (x : Call) (c : Mailbox) (j : ℕ) (s : S)
      → Fits (x ∷ [])
      → j < 8
      → entry_of m c j (call m x s).1 ≡ note x c j (entry_of m c j s)
  entry-call (write b i v) c j s (fits, _) hj = elim (Bool-cases (leb 8 i)) [
    | inl out ↦
        let (refused, _) = call-refused m b i v s out in
        rw (refused, same-apart b i c j (ground arith)) refl
    | inr inside ↦
        let hi : i < 8 = ground arith in
        let (stores, _) = call-stores m b i v s inside in
        rw stores (elim (Bool-cases (same b i c j)) [
          | inl e ↦ rw e (
              same-elim
                (λ (c : Mailbox) (j : ℕ).
                  entry_of m c j (bus.store (user_addr m b i) (u32 v) s)
                  ≡ overwrite v (entry_of m c j s))
                b i c j e (entry-written b i v s hi fits))
          | inr e ↦ rw e (
              entry-kept c j (user_addr m b i) (u32 v) s hj (Apart-same m b i c j hi hj e).0
                (user-lock-apart m b i c j hi hj))
        ])
  ]
  entry-call (lock b i) c j s fits hj = elim (Bool-cases (leb 8 i)) [
    | inl out ↦
        let (_, refused) = call-refused m b i 0 s out in
        rw (refused, same-apart b i c j (ground arith)) refl
    | inr inside ↦
        let hi : i < 8 = ground arith in
        let (_, stores) = call-stores m b i 0 s inside in
        rw stores (elim (Bool-cases (same b i c j)) [
          | inl e ↦ rw e (
              same-elim
                (λ (c : Mailbox) (j : ℕ).
                  entry_of m c j (bus.store (lock_addr m b i) 1 s) ≡ set_lock (entry_of m c j s))
                b i c j e (entry-locked b i s hi))
          | inr e ↦ rw e (
              entry-kept c j (lock_addr m b i) 1 s hj (λ p. user-lock-apart m c j b i hj hi (sym p))
                (Apart-same m b i c j hi hj e).1)
        ])
  ]

  load-entry :
      (a : ℕ) (c : Mailbox) (j : ℕ) (s : S) → entry_of m c j (bus.load a s).1 ≡ entry_of m c j s
  load-entry a c j s = elim (Bool-cases (leb 8 j)) [
    | inl out ↦ entry-absent m c j (bus.load a s).1 out ∙ sym (entry-absent m c j s out)
    | inr inside ↦
        let h : j < 8 = ground arith in
        entry-present c j (bus.load a s).1 h
        ∙ ap₂ present (d.load_keeps a _ s (user-TableReg m c j h))
            (d.load_keeps a _ s (lock-TableReg m c j h))
        ∙ sym (entry-present c j s h)
  ]

  -- Reading changes no entry.
  pub reader-entry :
      (b : Mailbox) (i : ℕ) (c : Mailbox) (j : ℕ) (s : S)
      → (entry_of m c j (reader m b i s).1 ≡ entry_of m c j s)
        × (entry_of m c j (lock_reader m b i s).1 ≡ entry_of m c j s)
  reader-entry b i c j s = elim (Bool-cases (leb 8 i)) [
    | inl out ↦
        let (u, l) = reader-untouched m b i s out in (ap (entry_of m c j) u, ap (entry_of m c j) l)
    | inr inside ↦
        let (u, l) = reader-state m b i s inside in
        (
          ap (entry_of m c j) u ∙ load-entry (user_addr m b i) c j s,
          ap (entry_of m c j) l ∙ load-entry (lock_addr m b i) c j s,
        )
  ]
