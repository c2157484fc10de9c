-- ===== src/Mci/FlowStatus.antt =====
-- The flow status register packs the milestones above the checkpoint (`set_flow_checkpoint`,
-- `set_flow_milestone` and their readers).
pub mod History
use mcu_fw_cpp.Prelude.{
  ℕ, ◌+◌, ◌*◌, ◌/◌, ◌%◌, ◌^◌, ◌<◌, ◌≡◌, ap, ◌∙◌, bit_or, bit_and, u16, u32, arith,
}
use mcu_fw_cpp.Prelude.Bits.{bit_or-lt}
use mcu_fw_cpp.Prelude.Masks.{bit_and-low, bit_or-high_low, bit_or-shifted16}
use mcu_fw_cpp.Bus.{Bus, reg}
use mcu_fw_cpp.Bus.Storage.{IsStorage, read_reg-cell, write_reg-cell}
use mcu_fw_cpp.Mci.{Mci, flow_milestone, flow_checkpoint, set_flow_checkpoint, set_flow_milestone}
use mcu_fw_cpp.Mci.Regs.{reg_fw_flow_status}

-- The address of the flow status register, and its two parts.
abbrev pub flow_addr : Mci → ℕ
flow_addr m = reg m.base_addr reg_fw_flow_status

abbrev pub milestones : ℕ → ℕ
milestones w = u32 w / 2 ^ 16

abbrev pub checkpoint : ℕ → ℕ
checkpoint w = u32 w % 2 ^ 16

checkpoint_word :
    (w c : ℕ)
    → c < 2 ^ 16
    → bit_or (u32 (u16 (u32 w / 2 ^ 16) * 2 ^ 16)) c ≡ milestones w * 2 ^ 16 + c
checkpoint_word w c h = ap (λ (t : ℕ). bit_or t c) high ∙ bit_or-high_low 16 (milestones w) c h
  where
    high : u32 (u16 (u32 w / 2 ^ 16) * 2 ^ 16) ≡ milestones w * 2 ^ 16
    high = omega arith

milestone_word :
    (w n : ℕ)
    → n < 2 ^ 16
    → bit_or (u32 (n * 2 ^ 16)) (u32 w) ≡ bit_or n (milestones w) * 2 ^ 16 + checkpoint w
milestone_word w n h = ap (λ (t : ℕ). bit_or t (u32 w)) high ∙ bit_or-shifted16 n (u32 w)
  where
    high : u32 (n * 2 ^ 16) ≡ n * 2 ^ 16
    high = omega arith

low_half : (w : ℕ) → bit_and (u32 w) 0x0000ffff ≡ checkpoint w
low_half w =
    ap (λ (t : ℕ). bit_and t 0x0000ffff) split
    ∙ bit_and-low 16 (milestones w) (checkpoint w) (omega arith)
  where
    split : u32 w ≡ milestones w * 2 ^ 16 + checkpoint w
    split = omega arith

module _ {S : Type 0} ⦃bus : Bus S⦄ {region : ℕ → Type 0} {cell : ℕ → S → ℕ}
    (d : IsStorage bus region cell) (m : Mci) (r : region (flow_addr m)) (s : S) where
  pub flow_milestone-cell : (flow_milestone m s).0 ≡ milestones (cell (flow_addr m) s)
  unfolding flow_milestone
  flow_milestone-cell = omega (arith, read_reg-cell d m.base_addr reg_fw_flow_status s r)

  pub flow_checkpoint-cell : (flow_checkpoint m s).0 ≡ checkpoint (cell (flow_addr m) s)
  unfolding flow_checkpoint
  flow_checkpoint-cell =
      ap (λ (t : ℕ). u16 (bit_and t 0x0000ffff))
        (read_reg-cell d m.base_addr reg_fw_flow_status s r)
      ∙ omega (arith, low_half (cell (flow_addr m) s))

  pub set_flow_checkpoint-cell :
      (c : ℕ)
      → c < 2 ^ 16
      → cell (flow_addr m) (set_flow_checkpoint m c s).1
        ≡ milestones (cell (flow_addr m) s) * 2 ^ 16 + c
  unfolding set_flow_checkpoint
  set_flow_checkpoint-cell c h =
      write_reg-cell d m.base_addr reg_fw_flow_status _ _ r
      ∙ ap (λ (t : ℕ). u32 (bit_or (u32 (u16 (t / 2 ^ 16) * 2 ^ 16)) c))
          (read_reg-cell d m.base_addr reg_fw_flow_status s r)
      ∙ omega (arith, checkpoint_word (cell (flow_addr m) s) c h)

  pub set_flow_milestone-cell :
      (n : ℕ)
      → n < 2 ^ 16
      → cell (flow_addr m) (set_flow_milestone m n s).1
        ≡ bit_or n (milestones (cell (flow_addr m) s)) * 2 ^ 16 + checkpoint (cell (flow_addr m) s)
  unfolding set_flow_milestone
  set_flow_milestone-cell n h =
      write_reg-cell d m.base_addr reg_fw_flow_status _ _ r
      ∙ ap (λ (t : ℕ). u32 (bit_or (u32 (n * 2 ^ 16)) t))
          (read_reg-cell d m.base_addr reg_fw_flow_status s r)
      ∙ omega (
        arith,
        milestone_word (cell (flow_addr m) s) n h,
        bit_or-lt 16 n (milestones (cell (flow_addr m) s)) h (omega arith),
      )

module _ {S : Type 0} ⦃bus : Bus S⦄ {region : ℕ → Type 0} {cell : ℕ → S → ℕ}
    (d : IsStorage bus region cell) (m : Mci) (r : region (flow_addr m)) (s : S) where
  -- `set_flow_checkpoint` stores the checkpoint that `flow_checkpoint` then reads, and keeps every
  -- milestone, on a device whose flow status register is a plain register.
  pub set_flow_checkpoint-getters :
      (c : ℕ)
      → c < 2 ^ 16
      → let s' = (set_flow_checkpoint m c s).1 in
        ((flow_checkpoint m s').0 ≡ c) × ((flow_milestone m s').0 ≡ (flow_milestone m s).0)
  set_flow_checkpoint-getters c h =
      let s' = (set_flow_checkpoint m c s).1 in
      let e = set_flow_checkpoint-cell d m r s c h in
      (
        omega (arith, e, flow_checkpoint-cell d m r s'),
        omega (arith, e, flow_milestone-cell d m r s', flow_milestone-cell d m r s),
      )

  -- `set_flow_milestone` adds its bits to those that `flow_milestone` reads, so that no milestone
  -- is ever lost, and keeps the checkpoint, on the same devices.
  pub set_flow_milestone-getters :
      (n : ℕ)
      → n < 2 ^ 16
      → let s' = (set_flow_milestone m n s).1 in
        ((flow_milestone m s').0 ≡ bit_or n (flow_milestone m s).0)
        × ((flow_checkpoint m s').0 ≡ (flow_checkpoint m s).0)
  set_flow_milestone-getters n h =
      let s' = (set_flow_milestone m n s).1 in
      let e = set_flow_milestone-cell d m r s n h in
      (
        omega (
          arith,
          e,
          flow_milestone-cell d m r s',
          ap (bit_or n) (flow_milestone-cell d m r s),
          bit_or-lt 16 n (milestones (cell (flow_addr m) s)) h (omega arith),
        ),
        omega (
          arith,
          e,
          flow_checkpoint-cell d m r s',
          flow_checkpoint-cell d m r s,
          bit_or-lt 16 n (milestones (cell (flow_addr m) s)) h (omega arith),
        ),
      )
