-- ===== src/SocManager/Holding.antt =====
-- The mailbox lock through an exchange: what the steps after the request do to it.
use mcu_fw_cpp.Prelude.{
  ℕ, zero, suc, ◌+◌, ◌≡◌, sym, ◌∙◌, arith, Bool, Bool-cases, true, inl, inr, any_set, bit_and, leb,
  ltb, ◌==◌, List, Option, none, some, length, set, if◌then◌else◌,
}
use mathlib.Core.Path.{subst}
use mcu_fw_cpp.Bus.{Bus, reg, read_reg}
use mcu_fw_cpp.Error.{McuError, McuResult, ok, err, Try, ◌>>=◌, lift, fail, pure, mbox_cmd_failed}
use mcu_fw_cpp.SocManager.{
  Session, on_soc, delay, is_mailbox_busy, poll_complete, finish_by_status, finish_mailbox_resp,
  mbox_status, max_wait_cycles, mbox_status_cmd_failure, mbox_status_cmd_complete,
  mbox_status_data_ready, resp_header_size, read_soc_mbox, read_soc_ifc, write_soc_mbox,
  mbox_execute, soc_ifc_cptra_fw_error_fatal, soc_ifc_cptra_fw_error_non_fatal,
}
use mcu_fw_cpp.SocManager.Response.{MailboxResponse, respond, next, word_count}
use mcu_fw_cpp.SocManager.Exec.{drain, collect}
use mcu_fw_cpp.SocManager.Lock.{IsLock}
use mcu_fw_cpp.SocManager.Release.{release-keeps_lock}

-- What a success leaves; a failure leaves anything.
abbrev pub OnOk : {A S : Type 0} → (A → S → Type 0) → McuResult A × S → Type 0
OnOk Q (ok a, s) = Q a s
OnOk Q (err e, s) = Unit {0}

pub bind-OnOk :
    {A B S : Type 0} (Q : A → S → Type 0) (Q' : B → S → Type 0) (m : Try S A) (f : A → Try S B)
    (s : S)
    → OnOk Q (m s)
    → ((a : A) (s' : S) → Q a s' → OnOk Q' (f a s'))
    → OnOk Q' ((m >>= f) s)
bind-OnOk {A} {B} {S} Q Q' m f s q rest = pass (m s) q
  where
    pass :
        (out : McuResult A × S)
        → OnOk Q out
        → OnOk Q' (elim out.0 [ ok a ↦ f a out.1 | err e ↦ (err e, out.1) ])
    pass (ok a, s') q = rest a s' q
    pass (err e, s') q = tt

-- What ends in a failure.
fail-OnOk :
    {A B S : Type 0} (Q : B → S → Type 0) (m : Try S A) (e : McuError) (s : S)
    → OnOk Q ((m >>= λ a. fail e) s)
fail-OnOk {A} {B} {S} Q m e s = pass (m s)
  where
    pass :
        (out : McuResult A × S)
        → OnOk Q (elim out.0 [ ok a ↦ fail e out.1 | err e' ↦ (err e', out.1) ])
    pass (ok a, s') = tt
    pass (err e', s') = tt

module _ {S : Type 0} ⦃bus : Bus S⦄ {base : ℕ} {held : S → Bool} (d : IsLock bus base held) where
  -- The mailbox of the session is this one, and its lock is held.
  abbrev pub Holding : Session S → Type 0
  Holding t = (t.soc.soc_mbox_addr ≡ base) × (held t.device ≡ true)

  -- A load of the mailbox, of whatever register, keeps it so.
  load-held : (a : ℕ) (s : S) → held s ≡ true → held (bus.load a s).1 ≡ true
  load-held a s h = elim (Bool-cases (a == reg base 0)) [
    | inl e ↦ let at_lock : a ≡ reg base 0 = ground arith in rw at_lock (d.load_takes s)
    | inr ne ↦ d.load_keeps a s (ground arith) ∙ h
  ]

  abbrev pub Kept : {A : Type 0} → A → Session S → Type 0
  Kept a t = Holding t

  poll_complete-Holding : (n : ℕ) (t : Session S) → Holding t → OnOk Kept (poll_complete n t)
  unfolding poll_complete is_mailbox_busy delay read_reg
  poll_complete-Holding zero t h = tt
  poll_complete-Holding (suc n) t (at, h) = elim (Bool-cases ((is_mailbox_busy t.soc t.device).0)) [
    | inl busy ↦ rw busy (poll_complete-Holding n _ (at, load-held _ _ h))
    | inr idle ↦ rw idle (at, load-held _ _ h)
  ]

  -- A response over this mailbox, which is still held.
  abbrev pub Responding : Option MailboxResponse → Session S → Type 0
  Responding none t = Unit {0}
  Responding (some r) t = (r.mbox_base ≡ base) × Holding t

  finish_by_status-Responding :
      (status : ℕ) (t : Session S) → Holding t → OnOk Responding (finish_by_status status t)
  unfolding finish_by_status read_reg respond
  finish_by_status-Responding status t (at, h) =
      elim (Bool-cases (any_set status mbox_status_cmd_failure)) [
        | inl fails ↦ rw fails (
            fail-OnOk Responding
              (if (read_reg t.soc.soc_ifc_addr soc_ifc_cptra_fw_error_fatal
                    (write_soc_mbox t.soc mbox_execute 0 t.device).1).0
                  == 0
                then (on_soc (λ c. lift (read_soc_ifc c soc_ifc_cptra_fw_error_non_fatal)) >>= λ _.
                    pure tt)
                else pure tt)
              mbox_cmd_failed _)
        | inr on ↦ elim (Bool-cases (any_set status mbox_status_cmd_complete)) [
          | inl complete ↦ rw (on, complete) tt
          | inr more ↦ elim (Bool-cases (bit_and status mbox_status_data_ready == 0)) [
            | inl empty ↦ rw (on, more, empty) tt
            | inr ready ↦ rw (on, more, ready) (at, (at, load-held _ _ (load-held _ _ h)))
          ]
        ]
      ]

  pub finish_mailbox_resp-Responding :
      (least size : ℕ) (t : Session S)
      → Holding t
      → OnOk Responding (finish_mailbox_resp least size t)
  unfolding finish_mailbox_resp read_reg
  finish_mailbox_resp-Responding least size t h = elim (Bool-cases (ltb size resp_header_size)) [
    | inl short ↦ rw short tt
    | inr fits ↦ elim (Bool-cases (ltb least resp_header_size)) [
      | inl short ↦ rw (fits, short) tt
      | inr fits' ↦
          rw (fits, fits')
            (bind-OnOk Kept Responding (poll_complete max_wait_cycles)
              (λ a. on_soc (λ c. lift (read_soc_mbox c mbox_status)) >>= finish_by_status) t
              (poll_complete-Holding max_wait_cycles t h)
              (λ a t' kept.
                let (status, s') = read_soc_mbox t'.soc mbox_status t'.device in
                finish_by_status-Responding status (record { device = s'; soc = t'.soc })
                  (kept.0, load-held (reg t'.soc.soc_mbox_addr mbox_status) t'.device kept.1)))
    ]
  ]

  next-held :
      (r : MailboxResponse) (s : S)
      → r.mbox_base ≡ base
      → held s ≡ true
      → ((next r s).0.1.mbox_base ≡ base) × (held (next r s).1 ≡ true)
  unfolding next read_reg
  next-held r s at h = elim (Bool-cases (leb (word_count r) r.idx)) [
    | inl over ↦ rw over (at, h)
    | inr more ↦ elim (Bool-cases (r.idx == 0)) [
      | inl first ↦ rw (more, first) (at, h)
      | inr later ↦ rw (more, later) (at, load-held _ s h)
    ]
  ]

  abbrev Drained : (List ℕ × MailboxResponse) × S → Type 0
  Drained ((resp, r), s) = (r.mbox_base ≡ base) × (held s ≡ true)

  abbrev onward : ℕ → ℕ → List ℕ → MailboxResponse → S → Option ℕ → (List ℕ × MailboxResponse) × S
  onward fuel i resp r s o = elim o [
    | none ↦ ((resp, r), s)
    | some w ↦ drain fuel (i + 1) (if ltb i (length resp) then set resp i w else resp) r s
  ]

  drain-held :
      (fuel i : ℕ) (resp : List ℕ) (r : MailboxResponse) (s : S)
      → r.mbox_base ≡ base
      → held s ≡ true
      → Drained (drain fuel i resp r s)
  unfolding drain
  drain-held zero i resp r s at h = (at, h)
  drain-held (suc fuel) i resp r s at h =
      let (at', h') = next-held r s at h in
      elim (next r s).0.0 as (λ o. Drained (onward fuel i resp (next r s).0.1 (next r s).1 o)) [
        | none ↦ (at', h')
        | some w ↦
            drain-held fuel (i + 1) (if ltb i (length resp) then set resp i w else resp)
              (next r s).0.1 (next r s).1 at' h'
      ]

  pub collect-Holding :
      (resp : List ℕ) (response : Option MailboxResponse) (t : Session S)
      → Responding response t
      → OnOk Kept (collect resp response t)
  unfolding collect
  collect-Holding resp none t h = tt
  collect-Holding resp (some r) t (at, (here, h)) =
      let (at', h') = drain-held (word_count r + 1) 0 resp r t.device at h in
      let (resp', r') = (drain (word_count r + 1) 0 resp r t.device).0 in
      (here, release-keeps_lock r' (subst (λ b. IsLock bus b held) (sym at') d) _ ∙ h')
