-- ===== src/SocManager/Finish.antt =====
-- The end of a request, `finish_mailbox_resp`, on a mailbox that answers.
use mcu_fw_cpp.Prelude.{
  ℕ, ◌≤◌, ◌<◌, ◌≡◌, refl, sym, ap, ap₂, ◌∙◌, u32, arith, Bool, Bool-cases, false, inl, inr, ltb,
  ltb-cases, ◌==◌, Option, none, some, if◌then◌else◌,
}
use mcu_fw_cpp.Bus.{Bus, reg, read_reg, write_reg}
use mcu_fw_cpp.Error.{
  McuResult, ok, err, Try, ◌>>=◌, fail, lift, mbox_cmd_failed, mbox_timeout, mbox_invalid_response,
}
use mcu_fw_cpp.SocManager.{
  Session, on_soc, poll_complete, finish_by_status, finish_mailbox_resp, mbox_status, mbox_dlen,
  mbox_dataout, mbox_execute, max_wait_cycles, resp_header_size, read_soc_mbox,
}
use mcu_fw_cpp.SocManager.Response.{MailboxResponse, respond}
use mcu_fw_cpp.SocManager.Phases.{
  Phase, failed, complete, silent, responding, status_of, View, IsMailbox, Sees, loaded, polled,
  polled-Sees, status_load, poll_complete-Returns, poll_complete-timeout,
}

-- What `finish_mailbox_resp` promises: the answer to the phase, and whether the mailbox is given back.
abbrev pub answer : ℕ → (ℕ → ℕ) → Phase → McuResult (Option MailboxResponse)
answer base ws failed = err mbox_cmd_failed
answer base ws complete = ok none
answer base ws silent = err mbox_invalid_response
answer base ws (responding dlen) = ok (some (respond base (u32 dlen) (u32 (ws 0))))

abbrev pub executing_after : Phase → Bool → Bool
executing_after failed b = false
executing_after complete b = false
executing_after silent b = b
executing_after (responding dlen) b = b

module _ {S : Type 0} ⦃bus : Bus S⦄ {base : ℕ} {view : S → View} (d : IsMailbox bus base view) where
  -- The session after a store of 0 to EXECUTE.
  abbrev freed : Session S → Session S
  freed t = record {
    device = bus.store (reg t.soc.soc_mbox_addr mbox_execute) 0 t.device;
    soc = t.soc;
  }

  freed-executing :
      (t : Session S) → t.soc.soc_mbox_addr ≡ base → (view (freed t).device).executing ≡ false
  freed-executing t at =
      ap (λ (a : ℕ). (view (bus.store (reg a mbox_execute) 0 t.device)).executing) at
      ∙ d.store_execute t.device

  -- What follows the wait, phase by phase.
  finish_by_status-answers :
      (p : Phase) (ws : ℕ → ℕ) (b : Bool) (t : Session S)
      → Sees d p ws b t
      → (t' : Session S) × (finish_by_status (u32 (status_of p)) t ≡ (answer base ws p, t'))
        × ((view t'.device).executing ≡ executing_after p b)
  unfolding finish_by_status read_reg write_reg respond
  finish_by_status-answers failed ws b t (at, ep, ew, eb) =
      let t₁ = loaded d (reg t.soc.soc_ifc_addr 0) (freed t) in
      let t₂ = loaded d (reg t.soc.soc_ifc_addr 4) t₁ in
      let e₁ =
        d.load_executing (reg t.soc.soc_ifc_addr 0) (freed t).device ∙ freed-executing t at in
      let code = u32 (bus.load (reg t.soc.soc_ifc_addr 0) (freed t).device).0 in
      elim (Bool-cases (code == 0)) [
        | inl h ↦ (t₂, rw h refl, d.load_executing (reg t.soc.soc_ifc_addr 4) t₁.device ∙ e₁)
        | inr h ↦ (t₁, rw h refl, e₁)
      ]
  finish_by_status-answers complete ws b t (at, ep, ew, eb) = (freed t, refl, freed-executing t at)
  finish_by_status-answers silent ws b t (at, ep, ew, eb) = (t, refl, eb)
  finish_by_status-answers (responding dlen) ws b t (at, ep, ew, eb) =
      let t₁ = loaded d (reg t.soc.soc_mbox_addr mbox_dlen) t in
      let t₂ = loaded d (reg t.soc.soc_mbox_addr mbox_dataout) t₁ in
      let length_word : (bus.load (reg t.soc.soc_mbox_addr mbox_dlen) t.device).0 ≡ dlen =
        ap (λ (a : ℕ). (bus.load (reg a mbox_dlen) t.device).0) at ∙ d.load_dlen dlen t.device ep in
      let to_come : (view t₁.device).words ≡ ws =
        ap (λ (a : ℕ). (view (bus.load (reg a mbox_dlen) t.device).1).words) at
        ∙ (d.dlen_keeps t.device).1
        ∙ ew in
      let first_word : (bus.load (reg t.soc.soc_mbox_addr mbox_dataout) t₁.device).0 ≡ ws 0 =
        ap (λ (a : ℕ). (bus.load (reg a mbox_dataout) t₁.device).0) at
        ∙ (d.load_dataout t₁.device).0
        ∙ ap (λ (f : ℕ → ℕ). f 0) to_come in
      let executing =
        d.load_executing (reg t.soc.soc_mbox_addr mbox_dataout) t₁.device
        ∙ d.load_executing (reg t.soc.soc_mbox_addr mbox_dlen) t.device
        ∙ eb in
      (
        t₂,
        λ i. (ok (some (respond (at i) (u32 (length_word i)) (u32 (first_word i)))), t₂),
        executing,
      )

  -- What follows the wait.
  abbrev after_wait :
      McuResult (Unit {0}) × Session S → McuResult (Option MailboxResponse) × Session S
  after_wait (r, t) = elim r [
    | ok a ↦ finish_by_status (read_soc_mbox t.soc mbox_status t.device).0 (polled d t)
    | err e ↦ (err e, t)
  ]

  abbrev choose :
      Bool
      → Try (Session S) (Option MailboxResponse)
      → Try (Session S) (Option MailboxResponse)
      → Try (Session S) (Option MailboxResponse)
  choose c m k = if c then m else k

  abbrev and_then : Unit {0} → Try (Session S) (Option MailboxResponse)
  and_then done = on_soc (λ c. lift (read_soc_mbox c mbox_status)) >>= finish_by_status

  finish_mailbox_resp-waits :
      (least size : ℕ) (t : Session S)
      → resp_header_size ≤ size
      → resp_header_size ≤ least
      → finish_mailbox_resp least size t ≡ after_wait (poll_complete max_wait_cycles t)
  unfolding finish_mailbox_resp
  finish_mailbox_resp-waits least size t fits fits' =
      let long : ltb size resp_header_size ≡ false = ground arith in
      let long' : ltb least resp_header_size ≡ false = ground arith in
      ap₂
        (λ (c c' : Bool).
          choose c (fail mbox_invalid_response)
            (choose c' (fail mbox_invalid_response) (poll_complete max_wait_cycles >>= and_then)) t)
        long long'

  status_known :
      (p : Phase) (ws : ℕ → ℕ) (b : Bool) (t : Session S)
      → Sees d p ws b t
      → (view t.device).wait ≡ 0
      → (read_soc_mbox t.soc mbox_status t.device).0 ≡ u32 (status_of p)
  status_known p ws b t (at, ep, ew, eb) idle =
      (status_load d t at).0 ∙ (rw idle (ap (λ (q : Phase). u32 (status_of q)) ep))

  -- A command that ends in time, and one that does not.
  finish-soon :
      (least size : ℕ) (p : Phase) (ws : ℕ → ℕ) (b : Bool) (t : Session S)
      → resp_header_size ≤ size
      → resp_header_size ≤ least
      → Sees d p ws b t
      → (view t.device).wait < max_wait_cycles
      → (t' : Session S) × (finish_mailbox_resp least size t ≡ (answer base ws p, t'))
        × ((view t'.device).executing ≡ executing_after p b)
  finish-soon least size p ws b t fits fits' h lt =
      let (t₁, e₁, (sees, idle)) = poll_complete-Returns d max_wait_cycles p ws b t h lt in
      let (t₂, e₂, kept) =
        finish_by_status-answers p ws b (polled d t₁) (polled-Sees d p ws b t₁ sees).0 in
      (
        t₂,
        finish_mailbox_resp-waits least size t fits fits'
            ∙ ap after_wait e₁
            ∙ ap (λ (w : ℕ). finish_by_status w (polled d t₁)) (status_known p ws b t₁ sees idle)
            ∙ e₂,
        kept,
      )

  finish-late :
      (least size : ℕ) (p : Phase) (ws : ℕ → ℕ) (b : Bool) (t : Session S)
      → resp_header_size ≤ size
      → resp_header_size ≤ least
      → Sees d p ws b t
      → max_wait_cycles ≤ (view t.device).wait
      → (t' : Session S) × (finish_mailbox_resp least size t ≡ (err mbox_timeout, t'))
        × ((view t'.device).executing ≡ b)
  finish-late least size p ws b t fits fits' h le =
      let (t₁, e₁, (at₁, ep₁, ew₁, eb₁)) = poll_complete-timeout d max_wait_cycles p ws b t h le in
      (t₁, finish_mailbox_resp-waits least size t fits fits' ∙ ap after_wait e₁, eb₁)

  -- On every mailbox whose STATUS and DLEN show what became of a command, whose DATAOUT gives a
  -- sequence of words, one for each load, and whose EXECUTE a store of 0 clears, and for response
  -- sizes of at least eight bytes, `finish_mailbox_resp` answers. If the mailbox is busy for fewer
  -- than 400000 polls, the answer is the one to what became of the command: MBOX_CMD_FAILED and
  -- EXECUTE cleared for a command that failed, no response and EXECUTE cleared for one that
  -- completed without data, a response over its length and the first word of DATAOUT, with EXECUTE
  -- left, for one with data, and MBOX_INVALID_RESPONSE with EXECUTE left for a status that says none
  -- of these; if it is busy for longer, MBOX_TIMEOUT with EXECUTE left.
  pub finish_mailbox_resp-answers :
      (least size : ℕ) (p : Phase) (ws : ℕ → ℕ) (b : Bool) (t : Session S)
      → resp_header_size ≤ size
      → resp_header_size ≤ least
      → Sees d p ws b t
      → (t' : Session S) × (finish_mailbox_resp least size t ≡ (
        if ltb (view t.device).wait max_wait_cycles then answer base ws p else err mbox_timeout,
        t',
      ))
        × ((view t'.device).executing
            ≡ (if ltb (view t.device).wait max_wait_cycles then executing_after p b else b))
  finish_mailbox_resp-answers least size p ws b t fits fits' h =
      elim (ltb-cases (view t.device).wait max_wait_cycles) [
        | inl (soon, lt) ↦
            let (t', e, kept) = finish-soon least size p ws b t fits fits' h lt in
            (
              t',
              e
                  ∙ ap (λ (c : Bool). (if c then answer base ws p else err mbox_timeout, t'))
                      (sym soon),
              kept ∙ ap (λ (c : Bool). if c then executing_after p b else b) (sym soon),
            )
        | inr (late, le) ↦
            let (t', e, kept) = finish-late least size p ws b t fits fits' h le in
            (
              t',
              e
                  ∙ ap (λ (c : Bool). (if c then answer base ws p else err mbox_timeout, t'))
                      (sym late),
              kept ∙ ap (λ (c : Bool). if c then executing_after p b else b) (sym late),
            )
      ]
