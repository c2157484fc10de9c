-- ===== src/Otp/Errors.antt =====
-- Where a sequence of fuse writes stops.
use mcu_fw_cpp.Prelude.{
  ℕ, zero, suc, ◌+◌, ◌*◌, ◌≡◌, refl, ap, ◌∙◌, ◌⊎◌, inl, inr, u32, arith, List, [], ◌∷◌, ◌++◌,
  length, Bool-cases, if◌then◌else◌,
}
use mathlib.Core.Path.{subst}
use mcu_fw_cpp.Bus.{Bus, write_reg}
use mcu_fw_cpp.Error.{
  McuError, McuResult, ok, err, timeout, otp_write_error, ◌>>=◌, lift, pure, fail,
}
use mcu_fw_cpp.Error.Ensures.{Ensures, done, failed, ◌⨾◌}
use mcu_fw_cpp.Otp.{
  Otp, is_idle, has_error, poll_idle, wait_for_idle, write_word, write_words, write_words_from,
  default_timeout_cycles, reg_direct_access_addr, reg_direct_access_wdata_0, reg_direct_access_cmd,
  cmd_write,
}

abbrev pub WriteError : McuError → Type 0
WriteError e = (e ≡ timeout) ⊎ (e ≡ otp_write_error)

outcome :
    {S : Type 0} (x : McuResult (Unit {0}) × S)
    → ((s : S) × (x ≡ (ok tt, s))) ⊎ ((e : McuError) × (s : S) × (x ≡ (err e, s)))
outcome (ok a, s) = inl (s, refl)
outcome (err e, s) = inr (e, s, refl)

module _ {S : Type 0} where
  -- Whatever happens, an error is one of these two.
  abbrev Fails : McuResult (Unit {0}) × S → Type 0
  Fails = Ensures (λ s. Unit {0}) (λ e s. WriteError e)

  Fails-error :
      {x : McuResult (Unit {0}) × S} (e : McuError) (s : S)
      → Fails x
      → x ≡ (err e, s)
      → WriteError e
  Fails-error e s (done q) p = absurd (cc)
  Fails-error e s (failed {e = e'} w) p = let same : e' ≡ e = cc in subst WriteError same w

module _ {S : Type 0} ⦃bus : Bus S⦄ (o : Otp) where
  poll_idle-Fails : (n : ℕ) (s : S) → Fails (poll_idle o n s)
  unfolding poll_idle
  poll_idle-Fails zero s = failed (inl refl)
  poll_idle-Fails (suc n) s = elim (Bool-cases (is_idle o s).0) [
    | inl idle ↦ rw idle (done tt)
    | inr busy ↦ rw busy (poll_idle-Fails n (is_idle o s).1)
  ]

  check-Fails :
      (s : S)
      → Fails
          ((lift (has_error o) >>= λ failed. if failed then fail otp_write_error else pure tt) s)
  check-Fails s = elim (Bool-cases (has_error o s).0) [
    | inl bad ↦ rw bad (failed (inr refl))
    | inr good ↦ rw good (done tt)
  ]

  waits : (s : S) → Unit {0} → Fails (wait_for_idle o default_timeout_cycles s)
  unfolding wait_for_idle
  waits s _ = poll_idle-Fails default_timeout_cycles s

  sets : (offset v : ℕ) (s : S) → Unit {0} → Fails (lift (write_reg o.base_addr offset v) s)
  sets offset v s _ = done tt

  write_word-Fails : (addr v : ℕ) (s : S) → Fails (write_word o addr v s)
  unfolding write_word
  write_word-Fails addr v s =
      (waits
          ⨾ sets reg_direct_access_addr addr
          ⨾ sets reg_direct_access_wdata_0 v
          ⨾ sets reg_direct_access_cmd cmd_write
          ⨾ waits
          ⨾ (λ s _. check-Fails s))
        s tt

  -- The words are written one after the other, from index `i` on, and each write succeeds.
  abbrev pub Written : ℕ → ℕ → List ℕ → S → S → Type 0
  Written addr i [] s t = s ≡ t
  Written addr i (w ∷ rest) s t =
      (s' : S) × (write_word o (u32 (addr + i * 4)) w s ≡ (ok tt, s'))
      × Written addr (i + 1) rest s' t

  -- The sequence stops at the word `w`, after those before it.
  abbrev pub StopsAt : ℕ → ℕ → List ℕ → S → McuResult (Unit {0}) × S → Type 0
  StopsAt addr i words s out =
      (before rest : List ℕ) × (w : ℕ) × (t t' : S) × (e : McuError) × (words ≡ before ++ w ∷ rest)
      × Written addr i before s t
      × (write_word o (u32 (addr + (i + length before) * 4)) w t ≡ (err e, t'))
      × (out ≡ (err e, t'))
      × WriteError e

  -- From index `i` on: all words are written, or the sequence stops at one.
  write_words_from-stops :
      (addr i : ℕ) (words : List ℕ) (s : S)
      → ((t : S) × (write_words_from o addr i words s ≡ (ok tt, t)) × Written addr i words s t)
        ⊎ StopsAt addr i words s (write_words_from o addr i words s)
  unfolding write_words_from
  write_words_from-stops addr i [] s = inl (s, refl, refl)
  write_words_from-stops addr i (w ∷ rest) s =
      let first = write_word o (u32 (addr + i * 4)) w s in
      let onward : McuResult (Unit {0}) × S → McuResult (Unit {0}) × S =
        λ x. elim x.0 [ ok a ↦ write_words_from o addr (i + 1) rest x.1 | err e ↦ (err e, x.1) ] in
      elim (outcome first) [
        | inl (s', p) ↦ elim (write_words_from-stops addr (i + 1) rest s') [
          | inl (t, q, all) ↦ inl (t, ap onward p ∙ q, (s', p, all))
          | inr (before, later, v, t, t', e, split, some_written, stop, q, error) ↦ inr (
            w ∷ before,
            later,
            v,
            t,
            t',
            e,
            ap (λ (l : List ℕ). w ∷ l) split,
            (s', p, some_written),
            ap (λ (k : ℕ). write_word o (u32 (addr + k * 4)) v t) (omega arith) ∙ stop,
            ap onward p ∙ q,
            error,
          )
        ]
        | inr (e, s', p) ↦ inr (
          [],
          rest,
          w,
          s,
          s',
          e,
          refl,
          refl,
          ap (λ (k : ℕ). write_word o (u32 (addr + k * 4)) w s) (omega arith) ∙ p,
          ap onward p,
          Fails-error e s' (write_word-Fails (u32 (addr + i * 4)) w s) p,
        )
      ]

  -- On every device, whatever it does: `write_words` writes all the words, one after the other with
  -- `write_word` at addresses four apart on 32 bits, and succeeds; or there is a first word whose
  -- `write_word` fails, at its address and after all the words before it were written, and then
  -- `write_words` answers with the error of that call, which is TIMEOUT or OTP_WRITE_ERROR, and
  -- touches the device no more.
  pub write_words-stops :
      (addr : ℕ) (words : List ℕ) (s : S)
      → ((t : S) × (write_words o addr words s ≡ (ok tt, t)) × Written addr 0 words s t)
        ⊎ StopsAt addr 0 words s (write_words o addr words s)
  unfolding write_words
  write_words-stops addr words s = write_words_from-stops addr 0 words s
