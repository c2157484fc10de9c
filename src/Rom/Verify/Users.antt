-- ===== src/Rom/Verify/Users.antt =====
-- The mailbox user configuration and its verification together, where the registers are plain
-- storage.
use mcu_fw_cpp.Prelude.{
  ℕ, ◌+◌, ◌*◌, ◌≤◌, ◌<◌, ◌≡◌, refl, ap, ◌∙◌, u32, arith, Bool, true, false, any_set, ◌==◌, ==_iff,
  leb, List, [], ◌∷◌, length, Option, none, some, if◌then◌else◌,
}
use mcu_fw_cpp.Bus.{Bus, reg}
use mcu_fw_cpp.Bus.Storage.{IsStorage, read_reg-cell, read_reg-keeps}
use mcu_fw_cpp.Error.{Try, ◌>>=◌, ◌>>◌, lift, pure, fail, mbox_invalid_response}
use mcu_fw_cpp.Error.Returns.{Returns, bind-Returns, lift-Returns, pure-Returns, weaken-Returns}
use mcu_fw_cpp.Mci.{Mci}
use mcu_fw_cpp.Mci.AxiUsers.{
  read_user, read_lock, write_user, lock_user, read_mbox0_valid_axi_user, read_mbox0_axi_user_lock,
  read_mbox1_valid_axi_user, read_mbox1_axi_user_lock, write_mbox0_valid_axi_user,
  lock_mbox0_axi_user, write_mbox1_valid_axi_user, lock_mbox1_axi_user,
}
use mcu_fw_cpp.Rom.Verify.{
  UserSlot, value_or, same_flag, configure_mbox, verify_user, verify_mbox,
  configure_mcu_mbox_axi_users, verify_mcu_mbox_axi_users,
}
use mcu_fw_cpp.Rom.Verify.Slots.{
  UserReg, user_reg, lock_reg, AllFit, user-UserReg, lock-UserReg, Same, UserOk, Configured, Clear,
  Configured-kept, configure_mbox-keeps, configure_mbox-Configured, length-configure_mbox,
}

pub same_flag_refl : (b : Bool) → same_flag b b ≡ true
same_flag_refl true = refl
same_flag_refl false = refl

module _ {S : Type 0} ⦃bus : Bus S⦄ (m : Mci) {cell : ℕ → S → ℕ}
    (d : IsStorage bus (UserReg m.base_addr) cell) (ub : ℕ) (low : 0x80 ≤ ub)
    (high : ub + 0x40 ≤ 0x100) where
  abbrev Kept : S → S → Type 0
  Kept s s' = Same m d ub low high s s'

  read_user-value :
      (i : ℕ) (s : S)
      → i < 8
      → ((read_user m ub i s).0 ≡ some (u32 (cell (user_reg m ub i) s)))
        × Kept s (read_user m ub i s).1
  unfolding read_user
  read_user-value i s h =
      let in_range : leb 8 i ≡ false = ground arith in
      rw in_range (
        ap some (read_reg-cell d m.base_addr (ub + i * 4) s (user-UserReg m d ub low high i h)),
        λ b r. read_reg-keeps d m.base_addr (ub + i * 4) b s r,
      )

  read_lock-value :
      (i : ℕ) (s : S)
      → i < 8
      → ((read_lock m (ub + 0x20) i s).0 ≡ some (any_set (u32 (cell (lock_reg m ub i) s)) 1))
        × Kept s (read_lock m (ub + 0x20) i s).1
  unfolding read_lock
  read_lock-value i s h =
      let in_range : leb 8 i ≡ false = ground arith in
      rw in_range (
        ap (λ (v : ℕ). some (any_set v 1))
            (read_reg-cell d m.base_addr (ub + 0x20 + i * 4) s (lock-UserReg m d ub low high i h)),
        λ b r. read_reg-keeps d m.base_addr (ub + 0x20 + i * 4) b s r,
      )

  verify_user-ok :
      (i : ℕ) (user : Option ℕ) (s : S)
      → i < 8
      → UserOk m d ub low high i user s
      → Returns (verify_user (read_user m ub) i user) s tt (Kept s)
  unfolding verify_user
  verify_user-ok i none s h u = pure-Returns s tt (λ b r. refl)
  verify_user-ok i (some user) s h u =
      let (v, kept) = read_user-value i s h in
      bind-Returns (lift (read_user m ub i))
        (λ actual. if value_or 0 actual == user then pure tt else fail mbox_invalid_response) s
        (some (u32 (cell (user_reg m ub i) s))) tt
        (lift-Returns (read_user m ub i) s (some (u32 (cell (user_reg m ub i) s))) v kept)
        (λ s' kept'.
          let same : (u32 (cell (user_reg m ub i) s) == user) ≡ true = (==_iff _ _).1 u in
          rw same (pure-Returns s' tt kept'))

  verify_mbox-ok :
      (i : ℕ) (slots : List UserSlot) (s : S)
      → i + length slots ≤ 8
      → Configured m d ub low high i slots s
      → Returns (verify_mbox (read_user m ub) (read_lock m (ub + 0x20)) i slots) s tt (Kept s)
  unfolding verify_mbox
  verify_mbox-ok i [] s h c = pure-Returns s tt (λ b r. refl)
  verify_mbox-ok i (slot ∷ rest) s h ((u, l), c) =
      let after_lock : Bool → Try S (Unit {0}) =
        λ locked. if same_flag slot.locked locked then pure tt else fail mbox_invalid_response in
      let onward = verify_mbox (read_user m ub) (read_lock m (ub + 0x20)) (i + 1) rest in
      bind-Returns (verify_user (read_user m ub) i slot.user)
        (λ done. lift (read_lock m (ub + 0x20) i) >>= λ locked.
          after_lock (value_or false locked) >> onward)
        s tt tt (verify_user-ok i slot.user s (omega arith) u)
        (λ s₁ kept₁.
          let (v, kept₂) = read_lock-value i s₁ (omega arith) in
          let l₁ : any_set (u32 (cell (lock_reg m ub i) s₁)) 1 ≡ slot.locked =
            ap (λ (w : ℕ). any_set (u32 w) 1)
              (kept₁ (lock_reg m ub i) (lock-UserReg m d ub low high i (omega arith)))
            ∙ l in
          bind-Returns (lift (read_lock m (ub + 0x20) i))
            (λ locked. after_lock (value_or false locked) >> onward) s₁ (some slot.locked) tt
            (lift-Returns (read_lock m (ub + 0x20) i) s₁ (some slot.locked) (v ∙ ap some l₁)
              (λ b r. kept₂ b r ∙ kept₁ b r))
            (λ s₂ kept. rw (same_flag_refl slot.locked) (
              weaken-Returns onward (λ s₃ kept₃ b r. kept₃ b r ∙ kept b r)
                (verify_mbox-ok (i + 1) rest s₂ (omega arith) (still s₂ kept)))))
    where
      still : (s₂ : S) → Kept s s₂ → Configured m d ub low high (i + 1) rest s₂
      still s₂ kept =
          Configured-kept m d ub low high (i + 1) rest s s₂ (omega arith)
            (λ j lt. (
              kept _ (user-UserReg m d ub low high j lt),
              kept _ (lock-UserReg m d ub low high j lt),
            ))
            c

module _ {S : Type 0} ⦃bus : Bus S⦄ (m : Mci) {cell : ℕ → S → ℕ}
    (d : IsStorage bus (UserReg m.base_addr) cell) where
  -- Both mailboxes, from a device where both are configured.
  verify_both :
      (slots0 slots1 : List UserSlot) (s : S)
      → length slots0 ≤ 8
      → length slots1 ≤ 8
      → Configured m d 0x80 (omega arith) (omega arith) 0 slots0 s
      → Configured m d 0xc0 (omega arith) (omega arith) 0 slots1 s
      → Returns
          (verify_mbox (read_user m 0x80) (read_lock m 0xa0) 0 slots0
            >> verify_mbox (read_user m 0xc0) (read_lock m 0xe0) 0 slots1)
          s
          tt
          (λ s'. (b : ℕ) → UserReg m.base_addr b → cell b s' ≡ cell b s)
  verify_both slots0 slots1 s len0 len1 c0 c1 =
      bind-Returns (verify_mbox (read_user m 0x80) (read_lock m 0xa0) 0 slots0)
        (λ done. verify_mbox (read_user m 0xc0) (read_lock m 0xe0) 0 slots1) s tt tt
        (verify_mbox-ok m d 0x80 (omega arith) (omega arith) 0 slots0 s (omega arith) c0)
        (λ s₁ kept.
          weaken-Returns (verify_mbox (read_user m 0xc0) (read_lock m 0xe0) 0 slots1)
            (λ s₂ kept' b r. kept' b r ∙ kept b r)
            (verify_mbox-ok m d 0xc0 (omega arith) (omega arith) 0 slots1 s₁ (omega arith) (
              Configured-kept m d 0xc0 (omega arith) (omega arith) 0 slots1 s s₁ (omega arith)
                (λ j lt. (
                  kept _ (user-UserReg m d 0xc0 (omega arith) (omega arith) j lt),
                  kept _ (lock-UserReg m d 0xc0 (omega arith) (omega arith) j lt),
                ))
                c1)))

  -- The configuration of one mailbox leaves the other's registers.
  ahead :
      (users : List ℕ) (s : S)
      → length users ≤ 8
      → (o j : ℕ) → j < 8
      → 0x80 ≤ o
      → o ≤ 0xa0
      → cell
          (reg m.base_addr (o + j * 4))
          (configure_mbox (write_user m 0xc0) (lock_user m 0xe0) 0 users s).1
        ≡ cell (reg m.base_addr (o + j * 4)) s
  ahead users s len o j lt low high =
      configure_mbox-keeps m d 0xc0 (omega arith) (omega arith) 0 (reg m.base_addr (o + j * 4))
        users s (omega arith) (o + j * 4, omega arith, omega arith, refl)
        (λ k le kt. (omega arith, omega arith))

  behind :
      (users : List ℕ) (s : S)
      → length users ≤ 8
      → (j : ℕ) → j < 8
      → cell (lock_reg m 0xc0 j) (configure_mbox (write_user m 0x80) (lock_user m 0xa0) 0 users s).1
        ≡ cell (lock_reg m 0xc0 j) s
  behind users s len j lt =
      configure_mbox-keeps m d 0x80 (omega arith) (omega arith) 0 (lock_reg m 0xc0 j) users s
        (omega arith) (lock-UserReg m d 0xc0 (omega arith) (omega arith) j lt)
        (λ k le kt. (omega arith, omega arith))

  -- No mailbox user is locked.
  abbrev pub Unlocked : S → Type 0
  Unlocked s =
      Clear m d 0x80 (omega arith) (omega arith) 0 s
      × Clear m d 0xc0 (omega arith) (omega arith) 0 s

  -- Where the user and lock registers of both mailboxes are plain storage and no lock is set, and for at most eight users
  -- of 32 bits for each mailbox (the source has five): what `configure_mcu_mbox_axi_users` returns, `verify_mcu_mbox_axi_users`
  -- accepts on the device that it leaves, and changes none of these registers.
  verify-configure_mcu_mbox_axi_users :
      (users0 users1 : List ℕ) (s : S)
      → length users0 ≤ 8
      → length users1 ≤ 8
      → AllFit users0
      → AllFit users1
      → Unlocked s
      → Returns
          (verify_mcu_mbox_axi_users m (configure_mcu_mbox_axi_users m users0 users1 s).0)
          (configure_mcu_mbox_axi_users m users0 users1 s).1
          tt
          (λ s'.
            (b : ℕ)
            → UserReg m.base_addr b
            → cell b s' ≡ cell b (configure_mcu_mbox_axi_users m users0 users1 s).1)
  unfolding configure_mcu_mbox_axi_users verify_mcu_mbox_axi_users read_mbox0_valid_axi_user
      read_mbox0_axi_user_lock read_mbox1_valid_axi_user read_mbox1_axi_user_lock
      write_mbox0_valid_axi_user lock_mbox0_axi_user write_mbox1_valid_axi_user lock_mbox1_axi_user
  verify-configure_mcu_mbox_axi_users users0 users1 s len0 len1 fit0 fit1 (clear0, clear1) =
      let conf0 = configure_mbox (write_user m 0x80) (lock_user m 0xa0) 0 users0 s in
      let conf1 = configure_mbox (write_user m 0xc0) (lock_user m 0xe0) 0 users1 conf0.1 in
      let e0 = length-configure_mbox m d 0x80 (omega arith) (omega arith) 0 users0 s in
      let e1 = length-configure_mbox m d 0xc0 (omega arith) (omega arith) 0 users1 conf0.1 in
      let c0 =
        configure_mbox-Configured m d 0x80 (omega arith) (omega arith) 0 users0 s (omega arith) fit0
          clear0 in
      let c1 =
        configure_mbox-Configured m d 0xc0 (omega arith) (omega arith) 0 users1 conf0.1
          (omega arith) fit1
          (λ j le lt.
            ap (λ (v : ℕ). any_set (u32 v) 1) (behind users0 s len0 j lt) ∙ clear1 j le lt) in
      verify_both conf0.0 conf1.0 conf1.1 (omega (arith, e0)) (omega (arith, e1))
        (Configured-kept m d 0x80 (omega arith) (omega arith) 0 conf0.0 conf0.1 conf1.1
          (omega (arith, e0))
          (λ j lt. (
            ahead users1 conf0.1 len1 0x80 j lt (omega arith) (omega arith),
            ahead users1 conf0.1 len1 0xa0 j lt (omega arith) (omega arith),
          ))
          c0)
        c1
