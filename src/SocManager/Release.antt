-- ===== src/SocManager/Release.antt =====
-- What the response iterator does to the mailbox lock.
use mcu_fw_cpp.Prelude.{
  ℕ, ◌<◌, ◌≡◌, refl, ap, ◌∙◌, u32, arith, Bool, Bool-cases, true, false, ◌==◌, leb, inl, inr, some,
}
use mcu_fw_cpp.Bus.{Bus, read_reg, write_reg}
use mcu_fw_cpp.SocManager.Lock.{IsLock, flag}
use mcu_fw_cpp.SocManager.Response.{
  MailboxResponse, word_count, remaining_bytes, valid_part, next, release, mbox_dataout,
}

module _ {S : Type 0} ⦃bus : Bus S⦄ (r : MailboxResponse) {held : S → Bool}
    (d : IsLock bus r.mbox_base held) where
  -- The destructor of a response does not free the mailbox: on every device whose lock behaves as
  -- documented the lock is held after it exactly if it was held before, since the 0 is stored to
  -- offset 0x04, the command register, and not to EXECUTE at 0x18.
  pub release-keeps_lock : (s : S) → held (release r s).1 ≡ held s
  unfolding release write_reg
  release-keeps_lock s = elim (Bool-cases r.released) [
    | inl h ↦ rw h refl
    | inr h ↦ rw h (d.store_keeps _ 0 s (omega arith))
  ]

  data_word : (s : S) → (read_reg r.mbox_base mbox_dataout s).0 ≡ flag (held s)
  unfolding read_reg
  data_word s = elim (Bool-cases (held s)) [
    | inl h ↦ ap u32 (d.load_lock s) ∙ rw h refl
    | inr h ↦ ap u32 (d.load_lock s) ∙ rw h refl
  ]

  -- From its second word on, the iterator does not read the data: on the same devices the word that
  -- it returns is the LOCK register, 1 if the mailbox was held and 0 if not, cut to the bytes that
  -- remain, since it loads offset 0x00 and not DATAOUT at 0x10; and the lock is held afterwards.
  pub next-reads_lock :
      (s : S)
      → 0 < r.idx
      → r.idx < word_count r
      → ((next r s).0.0 ≡ some (valid_part (remaining_bytes r r.idx) (flag (held s))))
        × (held (next r s).1 ≡ true)
  unfolding next read_reg
  next-reads_lock s later more =
      rw (more?, later?)
        (
          ap (λ (w : ℕ). some (valid_part (remaining_bytes r r.idx) w)) (data_word s),
          d.load_takes s,
        )
    where
      more? : leb (word_count r) r.idx ≡ false
      more? = ground arith

      later? : (r.idx == 0) ≡ false
      later? = ground arith
