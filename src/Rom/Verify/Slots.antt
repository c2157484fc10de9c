-- ===== src/Rom/Verify/Slots.antt =====
-- One mailbox's user and lock registers as plain storage: what the configuration leaves there and
-- what the verification finds.
use mcu_fw_cpp.Prelude.{
  ℕ, suc, ◌+◌, ◌*◌, ◌^◌, ◌≤◌, ◌<◌, ◌≡◌, ◌≢◌, refl, ap, ◌∙◌, u32, arith, Bool-cases, false, any_set,
  inl, inr, ◌==◌, leb, List, [], ◌∷◌, length, Option, none, some, if◌then◌else◌,
}
use mcu_fw_cpp.Bus.{Bus, reg, write_reg}
use mcu_fw_cpp.Bus.Storage.{IsStorage, write_reg-cell, write_reg-keeps}
use mcu_fw_cpp.Mci.{Mci}
use mcu_fw_cpp.Mci.AxiUsers.{write_user, lock_user}
use mcu_fw_cpp.Rom.Verify.{UserSlot, unused, in_use, configure_mbox}

-- The registers of the mailbox users and their locks.
abbrev pub UserReg : ℕ → ℕ → Type 0
UserReg base a = (o : ℕ) × (0x80 ≤ o) × (o < 0x100) × (a ≡ reg base o)

-- The user and the lock register of index `i`, for the mailbox whose user registers start at `ub`.
abbrev pub user_reg : Mci → ℕ → ℕ → ℕ
user_reg m ub i = reg m.base_addr (ub + i * 4)

abbrev pub lock_reg : Mci → ℕ → ℕ → ℕ
lock_reg m ub i = reg m.base_addr (ub + 0x20 + i * 4)

abbrev pub AllFit : List ℕ → Type 0
AllFit [] = Unit
AllFit (user ∷ rest) = (user < 2 ^ 32) × AllFit rest

module _ {S : Type 0} ⦃bus : Bus S⦄ (m : Mci) {cell : ℕ → S → ℕ}
    (d : IsStorage bus (UserReg m.base_addr) cell) (ub : ℕ) (low : 0x80 ≤ ub)
    (high : ub + 0x40 ≤ 0x100) where
  pub user-UserReg : (i : ℕ) → i < 8 → UserReg m.base_addr (user_reg m ub i)
  user-UserReg i h = (ub + i * 4, omega arith, omega arith, refl)

  pub lock-UserReg : (i : ℕ) → i < 8 → UserReg m.base_addr (lock_reg m ub i)
  lock-UserReg i h = (ub + 0x20 + i * 4, omega arith, omega arith, refl)

  -- The same values in all these registers.
  abbrev pub Same : S → S → Type 0
  Same s s' = (b : ℕ) → UserReg m.base_addr b → cell b s' ≡ cell b s

  -- The state after one user is configured.
  abbrev configured : ℕ → ℕ → S → S
  configured i user s =
      if user == 0 then s else (lock_user m (ub + 0x20) i (write_user m ub i user s).1).1

  abbrev stored : ℕ → ℕ → S → S
  stored i user s =
      (write_reg m.base_addr (ub + 0x20 + i * 4) 1 (write_reg m.base_addr (ub + i * 4) user s).1).1

  configured-stored :
      (i user : ℕ) (s : S)
      → i < 8
      → (lock_user m (ub + 0x20) i (write_user m ub i user s).1).1 ≡ stored i user s
  unfolding lock_user write_user
  configured-stored i user s h = let in_range : leb 8 i ≡ false = ground arith in rw in_range refl

  -- Away from the registers of that index nothing changes.
  configured-keeps :
      (i user b : ℕ) (s : S)
      → i < 8
      → UserReg m.base_addr b
      → user_reg m ub i ≢ b
      → lock_reg m ub i ≢ b
      → cell b (configured i user s) ≡ cell b s
  configured-keeps i user b s h r nu nl = elim (Bool-cases (user == 0)) [
    | inl e ↦ rw e refl
    | inr e ↦ rw e (
        ap (cell b) (configured-stored i user s h)
        ∙ write_reg-keeps d m.base_addr (ub + 0x20 + i * 4) 1 b _ r nl
        ∙ write_reg-keeps d m.base_addr (ub + i * 4) user b s r nu)
  ]

  -- What the verification expects of a slot: the user, if one is given, and the lock.
  abbrev pub UserOk : ℕ → Option ℕ → S → Type 0
  UserOk i none s = Unit
  UserOk i (some user) s = u32 (cell (user_reg m ub i) s) ≡ user

  abbrev pub SlotOk : ℕ → UserSlot → S → Type 0
  SlotOk i slot s =
      UserOk i slot.user s × (any_set (u32 (cell (lock_reg m ub i) s)) 1 ≡ slot.locked)

  abbrev pub Configured : ℕ → List UserSlot → S → Type 0
  Configured i [] s = Unit
  Configured i (slot ∷ rest) s = SlotOk i slot s × Configured (i + 1) rest s

  -- No lock from index `i` on.
  abbrev pub Clear : ℕ → S → Type 0
  Clear i s = (j : ℕ) → i ≤ j → j < 8 → any_set (u32 (cell (lock_reg m ub j) s)) 1 ≡ false

  abbrev slot_of : ℕ → UserSlot
  slot_of user = if user == 0 then unused else in_use user

  configured-SlotOk :
      (i user : ℕ) (s : S)
      → i < 8
      → user < 2 ^ 32
      → Clear i s
      → SlotOk i (slot_of user) (configured i user s)
  configured-SlotOk i user s h fits clear = elim (Bool-cases (user == 0)) [
    | inl e ↦ rw e (tt, clear i (omega arith) h)
    | inr e ↦
        let s₁ = (write_reg m.base_addr (ub + i * 4) user s).1 in
        rw e (
          rw (configured-stored i user s h) (
            ap u32 (
                  write_reg-keeps d m.base_addr (ub + 0x20 + i * 4) 1 (user_reg m ub i) s₁
                    (user-UserReg i h) (omega arith)
                  ∙ write_reg-cell d m.base_addr (ub + i * 4) user s (user-UserReg i h))
                ∙ omega arith,
            ap (λ (v : ℕ). any_set (u32 v) 1)
                (write_reg-cell d m.base_addr (ub + 0x20 + i * 4) 1 s₁ (lock-UserReg i h)),
          ))
  ]

  -- The loop leaves what lies before its first index as it is.
  pub configure_mbox-keeps :
      (i b : ℕ) (users : List ℕ) (s : S)
      → i + length users ≤ 8
      → UserReg m.base_addr b
      → ((j : ℕ) → i ≤ j → j < 8 → (user_reg m ub j ≢ b) × (lock_reg m ub j ≢ b))
      → cell b (configure_mbox (write_user m ub) (lock_user m (ub + 0x20)) i users s).1 ≡ cell b s
  unfolding configure_mbox
  configure_mbox-keeps i b [] s h r away = refl
  configure_mbox-keeps i b (user ∷ rest) s h r away =
      let (nu, nl) = away i (omega arith) (omega arith) in
      configure_mbox-keeps (i + 1) b rest (configured i user s) (omega arith) r
        (λ j le lt. away j (omega arith) lt)
      ∙ configured-keeps i user b s (omega arith) r nu nl

  SlotOk-kept :
      (i : ℕ) (slot : UserSlot) (s s' : S)
      → cell (user_reg m ub i) s' ≡ cell (user_reg m ub i) s
      → cell (lock_reg m ub i) s' ≡ cell (lock_reg m ub i) s
      → SlotOk i slot s
      → SlotOk i slot s'
  SlotOk-kept i slot s s' eu el (u, l) =
      (user_kept slot.user u, ap (λ (v : ℕ). any_set (u32 v) 1) el ∙ l)
    where
      user_kept : (o : Option ℕ) → UserOk i o s → UserOk i o s'
      user_kept none u = tt
      user_kept (some user) u = ap u32 eu ∙ u

  -- What is configured stays so while these registers keep their values.
  pub Configured-kept :
      (i : ℕ) (slots : List UserSlot) (s s' : S)
      → i + length slots ≤ 8
      → ((j : ℕ)
          → j < 8
          → (cell (user_reg m ub j) s' ≡ cell (user_reg m ub j) s)
            × (cell (lock_reg m ub j) s' ≡ cell (lock_reg m ub j) s))
      → Configured i slots s
      → Configured i slots s'
  Configured-kept i [] s s' h same c = tt
  Configured-kept i (slot ∷ rest) s s' h same (here, c) =
      let (eu, el) = same i (omega arith) in
      (SlotOk-kept i slot s s' eu el here, Configured-kept (i + 1) rest s s' (omega arith) same c)

  Clear-configured : (i user : ℕ) (s : S) → i < 8 → Clear i s → Clear (i + 1) (configured i user s)
  Clear-configured i user s h clear j le lt =
      ap (λ (v : ℕ). any_set (u32 v) 1)
        (configured-keeps i user (lock_reg m ub j) s h (lock-UserReg j lt) (omega arith)
          (omega arith))
      ∙ clear j (omega arith) lt

  pub configure_mbox-Configured :
      (i : ℕ) (users : List ℕ) (s : S)
      → i + length users ≤ 8
      → AllFit users
      → Clear i s
      → Configured i
          (configure_mbox (write_user m ub) (lock_user m (ub + 0x20)) i users s).0
          (configure_mbox (write_user m ub) (lock_user m (ub + 0x20)) i users s).1
  unfolding configure_mbox
  configure_mbox-Configured i [] s h fit clear = tt
  configure_mbox-Configured i (user ∷ rest) s h (fits, fit) clear =
      let s₁ = configured i user s in
      let s₂ = (configure_mbox (write_user m ub) (lock_user m (ub + 0x20)) (i + 1) rest s₁).1 in
      (
        SlotOk-kept i (slot_of user) s₁ s₂
            (configure_mbox-keeps (i + 1) (user_reg m ub i) rest s₁ (omega arith)
              (user-UserReg i (omega arith)) (λ j le lt. (omega arith, omega arith)))
            (configure_mbox-keeps (i + 1) (lock_reg m ub i) rest s₁ (omega arith)
              (lock-UserReg i (omega arith)) (λ j le lt. (omega arith, omega arith)))
            (configured-SlotOk i user s (omega arith) fits clear),
        configure_mbox-Configured (i + 1) rest s₁ (omega arith) fit
            (Clear-configured i user s (omega arith) clear),
      )

  pub length-configure_mbox :
      (i : ℕ) (users : List ℕ) (s : S)
      → length (configure_mbox (write_user m ub) (lock_user m (ub + 0x20)) i users s).0
        ≡ length users
  unfolding configure_mbox
  length-configure_mbox i [] s = refl
  length-configure_mbox i (user ∷ rest) s =
      ap suc (length-configure_mbox (i + 1) rest (configured i user s))
