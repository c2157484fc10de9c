-- ===== src/Rom/Boot/Progress.antt =====
-- What the flow status register says when a boot flow ends.
use mcu_fw_cpp.Prelude.{
  ℕ, zero, suc, ◌+◌, ◌*◌, ◌/◌, ◌%◌, ◌^◌, ◌<◌, ◌≡◌, inl, inr, refl, sym, ap, ap₂, ◌∙◌, bit_or, arith,
  Bool-cases, any_set,
}
use mcu_fw_cpp.Prelude.Bits.{bit_or-lt}
use mcu_fw_cpp.Bus.{Bus, read_reg, modify_reg}
use mcu_fw_cpp.Bus.Storage.{IsStorage, read_reg-keeps, modify_reg-keeps}
use mcu_fw_cpp.Error.{McuError, McuResult, timeout}
use mcu_fw_cpp.Error.Ensures.{Ensures, done, failed}
use mcu_fw_cpp.Mci
use mcu_fw_cpp.Mci.FlowStatus.{flow_addr, set_flow_checkpoint-cell, set_flow_milestone-cell}
use mcu_fw_cpp.Otp
use mcu_fw_cpp.I3c
use mcu_fw_cpp.Rom.BootStatus.{McuRomBootStatus, status_code, BootMilestone, milestone_bit}
use mcu_fw_cpp.Rom.Env.{World, with_device, g_mcu_memory_map}
use mcu_fw_cpp.Rom.Boot.{checkpoint, milestone}

-- The flow status register, on the emulator's memory map.
abbrev pub flow_status_addr : ℕ
flow_status_addr = 0x21000008

abbrev pub IsFlowStatus : ℕ → Type 0
IsFlowStatus a = a ≡ flow_status_addr

-- The devices stand at their addresses, and the register holds these milestones and checkpoint.
pub record IsAt {S : Type 0} (cell : ℕ → S → ℕ) (ms cp : ℕ) (w : World S) : Type 0 where
  pub mci_at : w.env.mci.base_addr ≡ g_mcu_memory_map.mci_offset
  pub otp_at : w.env.otp.base_addr ≡ g_mcu_memory_map.otp_offset
  pub i3c_at : w.env.i3c.base_addr ≡ g_mcu_memory_map.i3c_offset
  pub mbox_at : w.env.soc_manager.soc_mbox_addr ≡ g_mcu_memory_map.mbox_offset
  pub ms_fits : ms < 2 ^ 16
  pub cp_fits : cp < 2 ^ 16
  pub word : cell flow_status_addr w.device ≡ ms * 2 ^ 16 + cp

code_fits : (st : McuRomBootStatus) → status_code st < 2 ^ 16
code_fits McuRomBootStatus.rom_started = omega arith
code_fits _ = omega arith

bit_fits : (m : BootMilestone) → milestone_bit m < 2 ^ 16
bit_fits BootMilestone.rom_started = omega arith
bit_fits _ = omega arith

module _ {S : Type 0} ⦃bus : Bus S⦄ {cell : ℕ → S → ℕ} (d : IsStorage bus IsFlowStatus cell) where
  checkpoint_word :
      (m : Mci.Mci) (c ms cp : ℕ) (s : S)
      → flow_addr m ≡ flow_status_addr
      → c < 2 ^ 16
      → cp < 2 ^ 16
      → ms < 2 ^ 16
      → cell flow_status_addr s ≡ ms * 2 ^ 16 + cp
      → cell flow_status_addr (Mci.set_flow_checkpoint m c s).1 ≡ ms * 2 ^ 16 + c
  checkpoint_word m c ms cp s e hc hcp hms word =
      ap (λ (a : ℕ). cell a (Mci.set_flow_checkpoint m c s).1) (sym e)
      ∙ set_flow_checkpoint-cell d m e s c hc
      ∙ omega (arith, ap (λ (a : ℕ). cell a s) e)

  milestone_word :
      (m : Mci.Mci) (n ms cp : ℕ) (s : S)
      → flow_addr m ≡ flow_status_addr
      → n < 2 ^ 16
      → cp < 2 ^ 16
      → ms < 2 ^ 16
      → cell flow_status_addr s ≡ ms * 2 ^ 16 + cp
      → cell flow_status_addr (Mci.set_flow_milestone m n s).1 ≡ bit_or n ms * 2 ^ 16 + cp
  milestone_word m n ms cp s e hn hcp hms word =
      ap (λ (a : ℕ). cell a (Mci.set_flow_milestone m n s).1) (sym e)
      ∙ set_flow_milestone-cell d m e s n hn
      ∙ ap₂ (λ (a b : ℕ). bit_or n a * 2 ^ 16 + b) ms_here cp_here
    where
      ms_here : cell (flow_addr m) s % 2 ^ 32 / 2 ^ 16 ≡ ms
      ms_here = omega (arith, ap (λ (a : ℕ). cell a s) e)

      cp_here : cell (flow_addr m) s % 2 ^ 32 % 2 ^ 16 ≡ cp
      cp_here = omega (arith, ap (λ (a : ℕ). cell a s) e)

  pub set_flow_milestone-IsAt :
      (m : BootMilestone) {ms cp : ℕ} (w : World S)
      → IsAt cell ms cp w
      → IsAt cell
          (bit_or (milestone_bit m) ms)
          cp
          (with_device w (Mci.set_flow_milestone w.env.mci (milestone_bit m) w.device).1)
  set_flow_milestone-IsAt m {ms} {cp} w h = record {
    mci_at = h.mci_at;
    otp_at = h.otp_at;
    i3c_at = h.i3c_at;
    mbox_at = h.mbox_at;
    ms_fits = bit_or-lt 16 (milestone_bit m) ms (bit_fits m) h.ms_fits;
    cp_fits = h.cp_fits;
    word =
        milestone_word w.env.mci (milestone_bit m) ms cp w.device (omega (arith, h.mci_at))
          (bit_fits m) h.cp_fits h.ms_fits h.word;
  }

  module _ {E : McuError → World S → Type 0} where
    pub checkpoint-IsAt :
        (st : McuRomBootStatus) {ms cp : ℕ} (w : World S)
        → IsAt cell ms cp w
        → Ensures (IsAt cell ms (status_code st)) E (checkpoint st w)
    unfolding checkpoint
    checkpoint-IsAt st {ms} {cp} w h = done (record {
      mci_at = h.mci_at;
      otp_at = h.otp_at;
      i3c_at = h.i3c_at;
      mbox_at = h.mbox_at;
      ms_fits = h.ms_fits;
      cp_fits = code_fits st;
      word =
          checkpoint_word w.env.mci (status_code st) ms cp w.device (omega (arith, h.mci_at))
            (code_fits st) h.cp_fits h.ms_fits h.word;
    })

    pub milestone-IsAt :
        (m : BootMilestone) {ms cp : ℕ} (w : World S)
        → IsAt cell ms cp w
        → Ensures (IsAt cell (bit_or (milestone_bit m) ms) cp) E (milestone m w)
    unfolding milestone
    milestone-IsAt m w h = done (set_flow_milestone-IsAt m w h)

  -- Work on other registers leaves the flow status alone.
  pub kept-IsAt :
      {ms cp : ℕ} (w : World S) (s' : S)
      → cell flow_status_addr s' ≡ cell flow_status_addr w.device
      → IsAt cell ms cp w
      → IsAt cell ms cp (with_device w s')
  kept-IsAt w s' e h = record {
    mci_at = h.mci_at;
    otp_at = h.otp_at;
    i3c_at = h.i3c_at;
    mbox_at = h.mbox_at;
    ms_fits = h.ms_fits;
    cp_fits = h.cp_fits;
    word = e ∙ h.word;
  }

  i3c_ctrl_keeps :
      (c : I3c.I3c) (mask value : ℕ) (s : S)
      → c.base_addr ≡ g_mcu_memory_map.i3c_offset
      → cell flow_status_addr (modify_reg c.base_addr I3c.reg_ctrl mask value s).1
        ≡ cell flow_status_addr s
  i3c_ctrl_keeps c mask value s e =
      modify_reg-keeps d c.base_addr I3c.reg_ctrl mask value flow_status_addr s refl (omega arith)

  pub i3c_init_keeps :
      (c : I3c.I3c) (s : S)
      → c.base_addr ≡ g_mcu_memory_map.i3c_offset
      → cell flow_status_addr (I3c.init c s).1 ≡ cell flow_status_addr s
  unfolding I3c.init
  i3c_init_keeps c s e =
      i3c_ctrl_keeps c _ _ _ e
      ∙ i3c_ctrl_keeps c _ _ _ e
      ∙ i3c_ctrl_keeps c _ _ _ e
      ∙ i3c_ctrl_keeps c _ _ _ e
      ∙ i3c_ctrl_keeps c _ _ _ e

  abbrev pub Held : ℕ → S → Type 0
  Held v s = cell flow_status_addr s ≡ v

  -- A wait that fails does so with `TIMEOUT`.
  abbrev pub TimedOut : ℕ → McuError → S → Type 0
  TimedOut v e s = (e ≡ timeout) × (cell flow_status_addr s ≡ v)

  poll_idle-Held :
      (o : Otp.Otp) (v n : ℕ) (s : S)
      → Held v s
      → Ensures (Held v) (TimedOut v) (Otp.poll_idle o n s)
  unfolding Otp.poll_idle
  poll_idle-Held o v zero s h = failed (refl, h)
  poll_idle-Held o v (suc n) s h =
      let s' = (read_reg o.base_addr Otp.reg_status s).1 in
      let kept : Held v s' =
        read_reg-keeps d o.base_addr Otp.reg_status flow_status_addr s refl ∙ h in
      elim (Bool-cases (any_set (read_reg o.base_addr Otp.reg_status s).0 Otp.status_idle)) [
        | inl idle ↦ rw idle (done kept)
        | inr busy ↦ rw busy (poll_idle-Held o v n s' kept)
      ]

  pub otp_init-Held :
      (o : Otp.Otp) (v : ℕ) (s : S) → Held v s → Ensures (Held v) (TimedOut v) (Otp.init o s)
  unfolding Otp.init Otp.wait_for_idle
  otp_init-Held o v s h = poll_idle-Held o v Otp.default_timeout_cycles s h

  -- A call on one part of the environment.
  pub try_env-IsAt :
      {ms cp : ℕ} {E : McuError → World S → Type 0} (w : World S) (out : McuResult (Unit {0}) × S)
      → IsAt cell ms cp w
      → ((s' : S) → IsAt cell ms cp (with_device w s') → E timeout (with_device w s'))
      → Ensures
          (Held (cell flow_status_addr w.device))
          (TimedOut (cell flow_status_addr w.device))
          out
      → Ensures (IsAt cell ms cp) E (out.0, with_device w out.1)
  try_env-IsAt w (r, s') h fails (done kept) = done (kept-IsAt w s' kept h)
  try_env-IsAt w (r, s') h fails (failed x) = rw x.0 (failed (fails s' (kept-IsAt w s' x.1 h)))
