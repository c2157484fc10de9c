-- ===== src/SocManager/Phases.antt =====
-- A mailbox with a command in it, and the wait for the command to end (`poll_complete`, the busy
-- loop of `finish_mailbox_resp`).
use mcu_fw_cpp.Prelude.{
  ℕ, zero, suc, ◌-◌, ◌≤◌, ◌<◌, ◌≡◌, not, any_set, refl, ap, ◌∙◌, u32, arith, Bool, Bool-cases,
  false, inl, inr, ◌==◌, if◌then◌else◌,
}
use mcu_fw_cpp.Bus.{Bus, reg, read_reg}
use mcu_fw_cpp.Error.{ok, err, mbox_timeout}
use mcu_fw_cpp.Error.Returns.{Returns}
use mcu_fw_cpp.SocManager.{
  Session, delay, is_mailbox_busy, poll_complete, mbox_status, mbox_dlen, mbox_dataout,
  mbox_execute, read_soc_mbox,
}

-- What becomes of a command: it fails, it completes without data, it has a response of some bytes,
-- or its status says nothing of these.
pub data Phase : Type 0 where
  failed complete silent : Phase
  responding : (dlen : ℕ) → Phase

abbrev pub status_of : Phase → ℕ
status_of failed = 0x02
status_of complete = 0x04
status_of (responding dlen) = 0x08
status_of silent = 0

-- A mailbox with a command in it: the loads of STATUS for which it is still busy, what becomes of
-- the command, whether EXECUTE is still set, and what the loads of DATAOUT will return, in order.
pub record View : Type 0 where
  pub wait : ℕ
  pub phase : Phase
  pub executing : Bool
  pub words : ℕ → ℕ

-- A load that takes no word.
abbrev pub Keeps : View → View → Type 0
Keeps v v' = (v'.phase ≡ v.phase) × (v'.words ≡ v.words)

-- The documented behaviour of the mailbox after a request: STATUS and DLEN show what became of the
-- command, DATAOUT gives one word after the other, and a store of 0 to EXECUTE clears it.
pub record IsMailbox {S : Type 0} (bus : Bus S) (base : ℕ) (view : S → View) : Type 0 where
  pub load_status :
      (s : S)
      → (bus.load (reg base mbox_status) s).0
        ≡ (if (view s).wait == 0 then status_of (view s).phase else 0x01)
  pub status_waits : (s : S) → (view (bus.load (reg base mbox_status) s).1).wait ≡ (view s).wait - 1
  pub load_dlen :
      (dlen : ℕ) (s : S)
      → (view s).phase ≡ responding dlen
      → (bus.load (reg base mbox_dlen) s).0 ≡ dlen
  pub load_dataout :
      (s : S)
      → ((bus.load (reg base mbox_dataout) s).0 ≡ (view s).words 0)
        × ((view (bus.load (reg base mbox_dataout) s).1).words ≡ (λ n. (view s).words (suc n)))
  pub status_keeps : (s : S) → Keeps (view s) (view (bus.load (reg base mbox_status) s).1)
  pub dlen_keeps : (s : S) → Keeps (view s) (view (bus.load (reg base mbox_dlen) s).1)
  pub load_executing : (a : ℕ) (s : S) → (view (bus.load a s).1).executing ≡ (view s).executing
  pub store_execute : (s : S) → (view (bus.store (reg base mbox_execute) 0 s)).executing ≡ false

module _ {S : Type 0} ⦃bus : Bus S⦄ {base : ℕ} {view : S → View} (d : IsMailbox bus base view) where
  -- The session is over this mailbox, whose command is in the phase `p`, with the words `ws` to come.
  abbrev pub Sees : Phase → (ℕ → ℕ) → Bool → Session S → Type 0
  Sees p ws b t =
      (t.soc.soc_mbox_addr ≡ base)
      × ((view t.device).phase ≡ p)
      × ((view t.device).words ≡ ws)
      × ((view t.device).executing ≡ b)

  -- The session after one load of a register.
  abbrev pub loaded : ℕ → Session S → Session S
  loaded a t = record { device = (bus.load a t.device).1; soc = t.soc }

  pub status_load :
      (t : Session S)
      → t.soc.soc_mbox_addr ≡ base
      → ((read_soc_mbox t.soc mbox_status t.device).0
          ≡ u32 (if (view t.device).wait == 0 then status_of (view t.device).phase else 0x01))
        × ((view (read_soc_mbox t.soc mbox_status t.device).1).wait ≡ (view t.device).wait - 1)
  unfolding read_reg
  status_load t at = rw at (ap u32 (d.load_status t.device), d.status_waits t.device)

  phase_not_busy : (p : Phase) → any_set (u32 (status_of p)) 0x01 ≡ false
  phase_not_busy failed = refl
  phase_not_busy complete = refl
  phase_not_busy silent = refl
  phase_not_busy (responding dlen) = refl

  busy_bit :
      (t : Session S)
      → t.soc.soc_mbox_addr ≡ base
      → (is_mailbox_busy t.soc t.device).0 ≡ not ((view t.device).wait == 0)
  unfolding is_mailbox_busy
  busy_bit t at = elim (Bool-cases ((view t.device).wait == 0)) [
    | inl h ↦
        ap (λ (w : ℕ). any_set w 0x01) ((status_load t at).0)
        ∙ rw h (phase_not_busy (view t.device).phase)
    | inr h ↦ ap (λ (w : ℕ). any_set w 0x01) ((status_load t at).0) ∙ rw h refl
  ]

  -- The session after a poll, and after a poll that was not the last.
  abbrev pub polled : Session S → Session S
  polled t = record { device = (read_soc_mbox t.soc mbox_status t.device).1; soc = t.soc }

  abbrev delayed : Session S → Session S
  delayed t = record { device = (read_soc_mbox t.soc mbox_status t.device).1; soc = delay t.soc }

  pub polled-Sees :
      (p : Phase) (ws : ℕ → ℕ) (b : Bool) (t : Session S)
      → Sees p ws b t
      → Sees p ws b (polled t) × Sees p ws b (delayed t)
  unfolding read_reg delay
  polled-Sees p ws b t (at, ep, ew, eb) =
      let load : ℕ → View = λ a. view (bus.load (reg a mbox_status) t.device).1 in
      let (kp, kw) = d.status_keeps t.device in
      let there : load t.soc.soc_mbox_addr ≡ load base = ap load at in
      let phase = ap (λ (v : View). v.phase) there ∙ kp ∙ ep in
      let words = ap (λ (v : View). v.words) there ∙ kw ∙ ew in
      let executing = d.load_executing (reg t.soc.soc_mbox_addr mbox_status) t.device ∙ eb in
      ((at, phase, words, executing), (at, phase, words, executing))

  poll_complete-poll :
      (n : ℕ) (t : Session S)
      → t.soc.soc_mbox_addr ≡ base
      → poll_complete (suc n) t ≡ (
          if not ((view t.device).wait == 0)
          then poll_complete n (delayed t)
          else (ok tt, polled t))
  unfolding poll_complete is_mailbox_busy
  poll_complete-poll n t at =
      ap (λ (busy : Bool). if busy then poll_complete n (delayed t) else (ok tt, polled t))
        (busy_bit t at)

  -- The wait ends before its bound.
  pub poll_complete-Returns :
      (n : ℕ) (p : Phase) (ws : ℕ → ℕ) (b : Bool) (t : Session S)
      → Sees p ws b t
      → (view t.device).wait < n
      → Returns (poll_complete n) t tt (λ t'. Sees p ws b t' × ((view t'.device).wait ≡ 0))
  poll_complete-Returns zero p ws b t h lt = absurd (omega arith)
  poll_complete-Returns (suc n) p ws b t h lt =
      let (here, next) = polled-Sees p ws b t h in
      let less = (status_load t h.0).1 in
      elim (Bool-cases ((view t.device).wait == 0)) [
        | inl idle ↦ (polled t, poll_complete-poll n t h.0 ∙ rw idle refl, (here, ground arith))
        | inr busy ↦
            let (t', e, seen) = poll_complete-Returns n p ws b (delayed t) next (ground arith) in
            (t', poll_complete-poll n t h.0 ∙ rw busy e, seen)
      ]

  nothing_left : (t : Session S) → poll_complete zero t ≡ (err mbox_timeout, t)
  unfolding poll_complete
  nothing_left t = refl

  -- The wait that outlasts its bound.
  pub poll_complete-timeout :
      (n : ℕ) (p : Phase) (ws : ℕ → ℕ) (b : Bool) (t : Session S)
      → Sees p ws b t
      → n ≤ (view t.device).wait
      → (t' : Session S) × (poll_complete n t ≡ (err mbox_timeout, t')) × Sees p ws b t'
  poll_complete-timeout zero p ws b t h le = (t, nothing_left t, h)
  poll_complete-timeout (suc n) p ws b t h le =
      let (here, next) = polled-Sees p ws b t h in
      let less = (status_load t h.0).1 in
      let busy : ((view t.device).wait == 0) ≡ false = ground arith in
      let (t', e, seen) = poll_complete-timeout n p ws b (delayed t) next (omega arith) in
      (t', poll_complete-poll n t h.0 ∙ rw busy e, seen)
