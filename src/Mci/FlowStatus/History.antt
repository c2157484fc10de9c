-- ===== src/Mci/FlowStatus/History.antt =====
-- The flow status over any history of checkpoints and milestones.
use mcu_fw_cpp.Prelude.{ℕ, ◌^◌, ◌<◌, ◌≡◌, refl, ap₂, ◌∙◌, bit_or, List, [], ◌∷◌}
use mcu_fw_cpp.Bus.{Bus}
use mcu_fw_cpp.Bus.Storage.{IsStorage}
use mcu_fw_cpp.Mci.{Mci, flow_milestone, flow_checkpoint, set_flow_checkpoint, set_flow_milestone}
use mcu_fw_cpp.Mci.FlowStatus.{flow_addr, set_flow_checkpoint-getters, set_flow_milestone-getters}

-- What a flow records, and the abstract status that it leaves: the last checkpoint, and every
-- milestone that was ever set.
pub data Entry : Type 0 where
  checkpoint milestone : ℕ → Entry

pub record FlowStatus : Type 0 where
  pub last : ℕ
  pub reached : ℕ

abbrev pub record_entry : Entry → FlowStatus → FlowStatus
record_entry (checkpoint c) f = record f { last = c }
record_entry (milestone n) f = record f { reached = bit_or n f.reached }

abbrev pub record_all : List Entry → FlowStatus → FlowStatus
record_all [] f = f
record_all (e ∷ es) f = record_all es (record_entry e f)

-- Codes of 16 bits.
abbrev pub Fits : List Entry → Type 0
Fits [] = Unit {0}
Fits (checkpoint c ∷ es) = (c < 2 ^ 16) × Fits es
Fits (milestone n ∷ es) = (n < 2 ^ 16) × Fits es

module _ {S : Type 0} ⦃bus : Bus S⦄ (m : Mci) where
  abbrev pub apply : Entry → S → S
  apply (checkpoint c) s = (set_flow_checkpoint m c s).1
  apply (milestone n) s = (set_flow_milestone m n s).1

  abbrev pub apply_all : List Entry → S → S
  apply_all [] s = s
  apply_all (e ∷ es) s = apply_all es (apply e s)

  -- What the two getters read.
  abbrev pub shown : S → FlowStatus
  shown s = record { last = (flow_checkpoint m s).0; reached = (flow_milestone m s).0 }

module _ {S : Type 0} ⦃bus : Bus S⦄ {region : ℕ → Type 0} {cell : ℕ → S → ℕ}
    (d : IsStorage bus region cell) (m : Mci) (r : region (flow_addr m)) where
  -- On a device whose flow status register is plain storage, and over any sequence of calls of
  -- `set_flow_checkpoint` and `set_flow_milestone` with 16-bit codes: `flow_checkpoint` then reads
  -- the checkpoint that was set last, and `flow_milestone` every milestone that was ever set, with
  -- those that stood there at the start.
  pub flow_status-history :
      (es : List Entry) (s : S) → Fits es → shown m (apply_all m es s) ≡ record_all es (shown m s)
  flow_status-history [] s fits = refl
  flow_status-history (checkpoint c ∷ es) s (h, fits) =
      let (set, kept) = set_flow_checkpoint-getters d m r s c h in
      flow_status-history es (set_flow_checkpoint m c s).1 fits
      ∙ ap₂ (λ (a b : ℕ). record_all es (record { last = a; reached = b })) set kept
  flow_status-history (milestone n ∷ es) s (h, fits) =
      let (set, kept) = set_flow_milestone-getters d m r s n h in
      flow_status-history es (set_flow_milestone m n s).1 fits
      ∙ ap₂ (λ (a b : ℕ). record_all es (record { last = a; reached = b })) kept set
