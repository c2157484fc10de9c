-- ===== src/Rom/Verify/Held.antt =====
-- The mailbox user configuration and its verification on a device whose locks hold.
use mcu_fw_cpp.Prelude.{
  ℕ, ◌+◌, ◌≤◌, ◌≡◌, refl, sym, ap, ◌∙◌, arith, Bool, Bool-cases, true, false, inl, inr, ◌==◌,
  ==_iff, Option, none, some, List, [], ◌∷◌, length, map, if◌then◌else◌,
}
use mathlib.Core.Path.{subst}
use mcu_fw_cpp.Bus.{Bus}
use mcu_fw_cpp.Error.{Try, ◌>>=◌, ◌>>◌, lift, pure, fail, mbox_invalid_response}
use mcu_fw_cpp.Error.Returns.{Returns, bind-Returns, lift-Returns, pure-Returns, weaken-Returns}
use mcu_fw_cpp.Mci.{Mci}
use mcu_fw_cpp.Mci.AxiUsers.Locks.{
  Mailbox, mbox0, mbox1, IsLockable, Call, write, lock, call, call_all, same, Entry, note_all, Fits,
  entry_of, reader, lock_reader,
}
use mcu_fw_cpp.Mci.AxiUsers.Steps.{reader-entry}
use mcu_fw_cpp.Mci.AxiUsers.History.{axi_users-history}
use mcu_fw_cpp.Rom.Verify.{
  UserSlot, value_or, same_flag, configure_mbox, verify_user, verify_mbox,
  configure_mcu_mbox_axi_users, verify_mcu_mbox_axi_users,
}
use mcu_fw_cpp.Rom.Verify.Slots.{AllFit}
use mcu_fw_cpp.Rom.Verify.Users.{same_flag_refl}
use mcu_fw_cpp.Rom.Verify.Expected.{
  slot_of, config_calls, config_calls-Fits, UserOf, Matches, AllMatch, config_calls-elsewhere, Open,
  config_calls-AllMatch, IsWriteOnly, writes-Matches,
}

module _ {S : Type 0} ⦃bus : Bus S⦄ (m : Mci) where
  -- The two loops, with the methods of one mailbox.
  abbrev configure : Mailbox → ℕ → List ℕ → S → List UserSlot × S
  configure b = configure_mbox (λ i v. call m (write b i v)) (λ i. call m (lock b i))

  abbrev verify : Mailbox → ℕ → List UserSlot → Try S (Unit {0})
  verify b = verify_mbox (reader m b) (lock_reader m b)

  configure-slots :
      (b : Mailbox) (i : ℕ) (users : List ℕ) (s : S) → (configure b i users s).0 ≡ map slot_of users
  unfolding configure_mbox
  configure-slots b i [] s = refl
  configure-slots b i (user ∷ rest) s =
      ap (λ (l : List UserSlot). slot_of user ∷ l) (configure-slots b (i + 1) rest _)

  -- The configuration is a sequence of calls of the driver.
  configure-calls :
      (b : Mailbox) (i : ℕ) (users : List ℕ) (s : S)
      → (configure b i users s).1 ≡ (call_all m (config_calls b i users) s).1
  unfolding configure_mbox
  configure-calls b i [] s = refl
  configure-calls b i (user ∷ rest) s = elim (Bool-cases (user == 0)) [
    | inl z ↦ rw z (configure-calls b (i + 1) rest s)
    | inr z ↦
        rw z (configure-calls b (i + 1) rest (call m (lock b i) (call m (write b i user) s).1).1)
  ]

module _ {S : Type 0} ⦃bus : Bus S⦄ (m : Mci) {cell : ℕ → S → ℕ} (d : IsLockable bus m cell) where
  -- The same users and locks.
  abbrev pub Kept : S → S → Type 0
  Kept s s' = (c : Mailbox) (j : ℕ) → entry_of m c j s' ≡ entry_of m c j s

  verify_user-ok :
      (b : Mailbox) (i : ℕ) (user : Option ℕ) (s : S)
      → UserOf user (entry_of m b i s)
      → Returns (verify_user (reader m b) i user) s tt (Kept s)
  unfolding verify_user
  verify_user-ok b i none s u = pure-Returns s tt (λ c j. refl)
  verify_user-ok b i (some user) s u =
      bind-Returns (lift (reader m b i))
        (λ actual. if value_or 0 actual == user then pure tt else fail mbox_invalid_response) s
        (some user) tt
        (lift-Returns (reader m b i) s (some user) u (λ c j. (reader-entry m d b i c j s).0))
        (λ s' kept.
          let same : (user == user) ≡ true = (==_iff _ _).1 refl in
          rw same (pure-Returns s' tt kept))

  AllMatch-kept :
      (b : Mailbox) (i : ℕ) (users : List ℕ) (s s' : S)
      → ((j : ℕ) → entry_of m b j s' ≡ entry_of m b j s)
      → AllMatch (λ j. entry_of m b j s) i users
      → AllMatch (λ j. entry_of m b j s') i users
  AllMatch-kept b i [] s s' kept a = tt
  AllMatch-kept b i (user ∷ rest) s s' kept (here, a) =
      (subst (Matches (slot_of user)) (sym (kept i)) here, AllMatch-kept b (i + 1) rest s s' kept a)

  verify_mbox-ok :
      (b : Mailbox) (i : ℕ) (users : List ℕ) (s : S)
      → AllMatch (λ j. entry_of m b j s) i users
      → Returns (verify m b i (map slot_of users)) s tt (Kept s)
  unfolding verify_mbox
  verify_mbox-ok b i [] s a = pure-Returns s tt (λ c j. refl)
  verify_mbox-ok b i (user ∷ rest) s ((u, l), a) =
      let slot = slot_of user in
      let after_lock : Bool → Try S (Unit {0}) =
        λ locked. if same_flag slot.locked locked then pure tt else fail mbox_invalid_response in
      let onward = verify m b (i + 1) (map slot_of rest) in
      bind-Returns (verify_user (reader m b) i slot.user)
        (λ done.
          lift (lock_reader m b i) >>= λ locked. after_lock (value_or false locked) >> onward)
        s tt tt (verify_user-ok b i slot.user s u)
        (λ s₁ kept₁.
          bind-Returns {P = Kept s} (lift (lock_reader m b i))
            (λ locked. after_lock (value_or false locked) >> onward) s₁ (some slot.locked) tt
            (lift-Returns (lock_reader m b i) s₁ (some slot.locked)
              (ap (λ (e : Entry). e.locked) (kept₁ b i) ∙ l)
              (λ c j. (reader-entry m d b i c j s₁).1 ∙ kept₁ c j))
            (λ s₂ kept. rw (same_flag_refl slot.locked) (
              weaken-Returns onward (λ s₃ kept₃ c j. kept₃ c j ∙ kept c j)
                (verify_mbox-ok b (i + 1) rest s₂ (AllMatch-kept b (i + 1) rest s s₂ (kept b) a)))))

  AllMatch-map :
      (f g : ℕ → Entry) (i : ℕ) (users : List ℕ)
      → ((j user : ℕ) → Matches (slot_of user) (f j) → Matches (slot_of user) (g j))
      → AllMatch f i users
      → AllMatch g i users
  AllMatch-map f g i [] step a = tt
  AllMatch-map f g i (user ∷ rest) step (here, a) =
      (step i user here, AllMatch-map f g (i + 1) rest step a)

  configure-entry :
      (b : Mailbox) (users : List ℕ) (c : Mailbox) (j : ℕ) (s : S)
      → AllFit users
      → entry_of m c j (configure m b 0 users s).1
        ≡ note_all (config_calls b 0 users) c j (entry_of m c j s)
  configure-entry b users c j s fit =
      ap (entry_of m c j) (configure-calls m b 0 users s)
      ∙ (axi_users-history m d (config_calls b 0 users) s (config_calls-Fits b 0 users fit)).1 c j

  configure-AllMatch :
      (b : Mailbox) (users : List ℕ) (s : S)
      → length users ≤ 8
      → AllFit users
      → Open (λ j. entry_of m b j s) 0
      → AllMatch (λ j. entry_of m b j (configure m b 0 users s).1) 0 users
  configure-AllMatch b users s len fit free =
      AllMatch-map (λ j. note_all (config_calls b 0 users) b j (entry_of m b j s))
        (λ j. entry_of m b j (configure m b 0 users s).1) 0 users
        (λ j user. subst (Matches (slot_of user)) (sym (configure-entry b users b j s fit)))
        (config_calls-AllMatch b 0 users (λ j. entry_of m b j s) (omega arith) free)

  -- The configuration of the other mailbox changes nothing.
  configure-other :
      (b : Mailbox) (users : List ℕ) (c : Mailbox) (j : ℕ) (s : S)
      → AllFit users
      → ((k : ℕ) → same b k c j ≡ false)
      → entry_of m c j (configure m b 0 users s).1 ≡ entry_of m c j s
  configure-other b users c j s fit apart =
      configure-entry b users c j s fit
      ∙ config_calls-elsewhere b 0 users c j (entry_of m c j s) (λ k le. apart k)

  writes-AllMatch :
      (later : List Call) (b : Mailbox) (users : List ℕ) (s : S)
      → IsWriteOnly later
      → Fits later
      → AllMatch (λ j. entry_of m b j s) 0 users
      → AllMatch (λ j. entry_of m b j (call_all m later s).1) 0 users
  writes-AllMatch later b users s writes fits =
      AllMatch-map (λ j. entry_of m b j s) (λ j. entry_of m b j (call_all m later s).1) 0 users
        (λ j user h.
          subst (Matches (slot_of user)) (sym ((axi_users-history m d later s fits).1 b j))
            (writes-Matches later b j user (entry_of m b j s) writes h))

  verify_slots-ok :
      (b : Mailbox) (users : List ℕ) (slots : List UserSlot) (s : S)
      → slots ≡ map slot_of users
      → AllMatch (λ j. entry_of m b j s) 0 users
      → Returns (verify m b 0 slots) s tt (Kept s)
  verify_slots-ok b users slots s e a =
      subst (λ (l : List UserSlot). Returns (verify m b 0 l) s tt (Kept s)) (sym e)
        (verify_mbox-ok b 0 users s a)

  -- No mailbox user is locked.
  abbrev pub Unlocked : S → Type 0
  Unlocked s = (c : Mailbox) → Open (λ j. entry_of m c j s) 0

  -- On a device whose registers hold the users until they are locked, where no lock is set, and for at most eight users
  -- of 32 bits for each mailbox (the source has five): after `configure_mcu_mbox_axi_users` and any
  -- sequence of calls that write mailbox users, whatever their mailbox, index and 32-bit value, `verify_mcu_mbox_axi_users`
  -- accepts what the configuration returned, and changes no user and no lock.
  pub verify-configure-writes :
      (users0 users1 : List ℕ) (later : List Call) (s : S)
      → length users0 ≤ 8
      → length users1 ≤ 8
      → AllFit users0
      → AllFit users1
      → IsWriteOnly later
      → Fits later
      → Unlocked s
      → let (config, configured) = configure_mcu_mbox_axi_users m users0 users1 s in
        let after = (call_all m later configured).1 in
        Returns (verify_mcu_mbox_axi_users m config) after tt (Kept after)
  unfolding configure_mcu_mbox_axi_users verify_mcu_mbox_axi_users
  verify-configure-writes users0 users1 later s len0 len1 fit0 fit1 writes fits unlocked =
      let (slots0, s₁) = configure m mbox0 0 users0 s in
      let (slots1, s₂) = configure m mbox1 0 users1 s₁ in
      let after = (call_all m later s₂).1 in
      let match0 = writes-AllMatch later mbox0 users0 s₂ writes fits (
        AllMatch-kept mbox0 0 users0 s₁ s₂
          (λ j. configure-other mbox1 users1 mbox0 j s₁ fit1 (λ k. refl))
          (configure-AllMatch mbox0 users0 s len0 fit0 (unlocked mbox0))) in
      let match1 = writes-AllMatch later mbox1 users1 s₂ writes fits (
        configure-AllMatch mbox1 users1 s₁ len1 fit1 (λ j le lt.
          ap (λ (e : Entry). e.locked) (configure-other mbox0 users0 mbox1 j s fit0 (λ k. refl))
          ∙ unlocked mbox1 j le lt)) in
      bind-Returns (verify m mbox0 0 slots0) (λ done. verify m mbox1 0 slots1) after tt tt
        (verify_slots-ok mbox0 users0 slots0 after (configure-slots m mbox0 0 users0 s) match0)
        (λ s₃ kept.
          weaken-Returns (verify m mbox1 0 slots1) (λ s₄ kept' c j. kept' c j ∙ kept c j)
            (verify_slots-ok mbox1 users1 slots1 s₃ (configure-slots m mbox1 0 users1 s₁)
              (AllMatch-kept mbox1 0 users1 after s₃ (kept mbox1) match1)))
