-- ===== src/SocManager/Request.antt =====
-- The start of a request under the mailbox lock.
use mcu_fw_cpp.Prelude.{
  ℕ, ◌<◌, ◌≤◌, ◌≡◌, ◌⊎◌, inl, inr, refl, ap, ◌∙◌, u32, arith, Bool, Bool-cases, ltb-cases, true,
  false, ltb, List, [], ◌∷◌,
}
use mcu_fw_cpp.Bus.{Bus, reg, read_reg, write_reg, stores}
use mcu_fw_cpp.Error.{McuError, ok, err, mbox_lock_failed, mbox_invalid_response, Try, ◌>>◌, lift}
use mcu_fw_cpp.Error.Ensures.{Ensures, done, failed, continue, reached}
use mcu_fw_cpp.SocManager.{
  CaliptraSoc, mailbox_size, mbox_lock, mbox_cmd, mbox_dlen, mbox_datain, mbox_execute,
  lock_mailbox, require_lock, set_command, write_all, initiate_request, start_mailbox_req,
  write_soc_mbox,
}
use mcu_fw_cpp.SocManager.Lock.{IsLock, flag}

-- The stores of the data words.
abbrev pub data_stores : CaliptraSoc → List ℕ → List (ℕ × ℕ)
data_stores c [] = []
data_stores c (word ∷ rest) = (reg c.soc_mbox_addr mbox_datain, u32 word) ∷ data_stores c rest

module _ {S : Type 0} ⦃bus : Bus S⦄ (c : CaliptraSoc) {held : S → Bool}
    (d : IsLock bus c.soc_mbox_addr held) where
  -- The state after one load of LOCK.
  abbrev polled : S → S
  polled s = (bus.load (reg c.soc_mbox_addr mbox_lock) s).1

  lock_word : (s : S) → (read_reg c.soc_mbox_addr mbox_lock s).0 ≡ flag (held s)
  unfolding read_reg
  lock_word s = elim (Bool-cases (held s)) [
    | inl h ↦ ap u32 (d.load_lock s) ∙ rw h refl
    | inr h ↦ ap u32 (d.load_lock s) ∙ rw h refl
  ]

  lock_mailbox-busy : (s : S) → held s ≡ true → lock_mailbox c s ≡ (err mbox_lock_failed, polled s)
  unfolding lock_mailbox read_reg
  lock_mailbox-busy s h = rw (lock_word s ∙ ap flag h) refl

  lock_mailbox-free : (s : S) → held s ≡ false → lock_mailbox c s ≡ (ok tt, polled s)
  unfolding lock_mailbox read_reg
  lock_mailbox-free s h = rw (lock_word s ∙ ap flag h) refl

  require_lock-held : (s : S) → held s ≡ true → require_lock c s ≡ (ok tt, polled s)
  unfolding require_lock read_reg
  require_lock-held s h = rw (lock_word s ∙ ap flag h) refl

  set_command-held :
      (cmd len : ℕ) (s : S)
      → held s ≡ true
      → set_command c cmd len s ≡ (
        ok tt,
        stores
            ((reg c.soc_mbox_addr mbox_cmd, u32 cmd)
              ∷ (reg c.soc_mbox_addr mbox_dlen, u32 len)
              ∷ [])
            (polled s),
      )
  unfolding set_command write_reg
  set_command-held cmd len s h =
      ap
        (continue λ s'. (
          ok tt,
          stores
              ((reg c.soc_mbox_addr mbox_cmd, u32 cmd)
                ∷ (reg c.soc_mbox_addr mbox_dlen, u32 len)
                ∷ [])
              s',
        ))
        (require_lock-held s h)

  write_all-stores :
      (words : List ℕ) (s : S) → (write_all c words s).1 ≡ stores (data_stores c words) s
  unfolding write_all write_reg
  write_all-stores [] s = refl
  write_all-stores (word ∷ rest) s = write_all-stores rest _

  data_stores-held : (words : List ℕ) (s : S) → held (stores (data_stores c words) s) ≡ held s
  data_stores-held [] s = refl
  data_stores-held (word ∷ rest) s =
      data_stores-held rest _ ∙ d.store_keeps _ (u32 word) s (omega arith)

  -- What a request stores before its last store.
  abbrev pub request_stores : ℕ → ℕ → List ℕ → List (ℕ × ℕ)
  request_stores cmd len words =
      (reg c.soc_mbox_addr mbox_cmd, u32 cmd)
      ∷ (reg c.soc_mbox_addr mbox_dlen, u32 len)
      ∷ data_stores c words

  request_stores-held :
      (cmd len : ℕ) (words : List ℕ) (s : S)
      → held (stores (request_stores cmd len words) s) ≡ held s
  request_stores-held cmd len words s =
      data_stores-held words _
      ∙ d.store_keeps _ (u32 len) _ (omega arith)
      ∙ d.store_keeps _ (u32 cmd) s (omega arith)

  -- The last store: 1 to EXECUTE.
  abbrev pub executed : S → S
  executed s = bus.store (reg c.soc_mbox_addr mbox_execute) 1 s

  initiate_request-free :
      (cmd len : ℕ) (s : S)
      → ltb mailbox_size len ≡ false
      → held s ≡ false
      → initiate_request c cmd len s ≡ (
        ok tt,
        stores
            ((reg c.soc_mbox_addr mbox_cmd, u32 cmd)
              ∷ (reg c.soc_mbox_addr mbox_dlen, u32 len)
              ∷ [])
            (polled (polled s)),
      )
  unfolding initiate_request
  initiate_request-free cmd len s fits h = rw fits (
      ap (continue (set_command c cmd len)) (lock_mailbox-free s h)
      ∙ set_command-held cmd len _ (d.load_takes s))

  initiate_request-busy :
      (cmd len : ℕ) (s : S)
      → ltb mailbox_size len ≡ false
      → held s ≡ true
      → initiate_request c cmd len s ≡ (err mbox_lock_failed, polled s)
  unfolding initiate_request
  initiate_request-busy cmd len s fits h =
      rw fits (ap (continue (set_command c cmd len)) (lock_mailbox-busy s h))

  initiate_request-long :
      (cmd len : ℕ) (s : S)
      → ltb mailbox_size len ≡ true
      → initiate_request c cmd len s ≡ (err mbox_invalid_response, s)
  unfolding initiate_request
  initiate_request-long cmd len s long = rw long refl

  -- A request that starts: the length fits, the lock was free and is now held, and the device has
  -- seen two loads of LOCK and then these stores.
  abbrev pub Started : ℕ → ℕ → List ℕ → S → S → Type 0
  Started cmd len words s s' =
      (len ≤ mailbox_size)
      × (held s ≡ false)
      × (held s' ≡ true)
      × (s' ≡ executed (stores (request_stores cmd len words) (polled (polled s))))

  -- A request that is refused: for its length, untouched, or for the lock, after one load of LOCK.
  abbrev pub Refused : ℕ → S → McuError → S → Type 0
  Refused len s e s' =
      ((e ≡ mbox_invalid_response) × (mailbox_size < len) × (s' ≡ s))
      ⊎ ((e ≡ mbox_lock_failed) × (len ≤ mailbox_size) × (held s ≡ true) × (s' ≡ polled s))

  -- On every device whose mailbox lock behaves as documented, `start_mailbox_req` either succeeds,
  -- and then the data fits the mailbox, the lock was free and is held from now on, and the device
  -- has seen exactly CMD, DLEN, every data word in order, and EXECUTE stored after two loads of LOCK;
  -- or it fails with MBOX_INVALID_RESPONSE without any access when the data is too long; or it
  -- fails with MBOX_LOCK_FAILED after one load of LOCK when the lock was held.
  pub start_mailbox_req-locked :
      (cmd len : ℕ) (words : List ℕ) (s : S)
      → Ensures (Started cmd len words s) (Refused len s) (start_mailbox_req c cmd len words s)
  unfolding start_mailbox_req write_reg
  start_mailbox_req-locked cmd len words s = elim (ltb-cases mailbox_size len) [
    | inl long ↦
        reached (ap (continue finish) (initiate_request-long cmd len s long.0))
          (failed (inl (refl, long.1, refl)))
    | inr fits ↦ elim (Bool-cases (held s)) [
      | inl h ↦
          reached (ap (continue finish) (initiate_request-busy cmd len s fits.0 h))
            (failed (inr (refl, fits.1, h, refl)))
      | inr h ↦
          reached (ap (continue finish) (initiate_request-free cmd len s fits.0 h))
            (done (fits.1, h, held_after, ap executed (write_all-stores words ready)))
    ]
  ]
    where
      finish : Try S (Unit {0})
      finish = lift (write_all c words) >> lift (write_soc_mbox c mbox_execute 0x01)

      ready : S
      ready =
          stores
            ((reg c.soc_mbox_addr mbox_cmd, u32 cmd)
              ∷ (reg c.soc_mbox_addr mbox_dlen, u32 len)
              ∷ [])
            (polled (polled s))

      held_after : held (executed (write_all c words ready).1) ≡ true
      held_after =
          d.execute_keeps _
          ∙ ap held (write_all-stores words ready)
          ∙ request_stores-held cmd len words (polled (polled s))
          ∙ d.load_takes (polled s)
