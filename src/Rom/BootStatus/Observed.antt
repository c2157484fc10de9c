-- ===== src/Rom/BootStatus/Observed.antt =====
-- What a reader of the flow status register learns about a boot.
use mcu_fw_cpp.Prelude.{
  ℕ, ◌*◌, ◌^◌, ◌<◌, ◌≡◌, refl, sym, ap, ◌∙◌, ◌↔◌, arith, bit_and, bit_or, max, zero, suc, Bool,
  true, false, ◌||◌, ◌==◌, List, [], ◌∷◌, Option, none, some, if◌then◌else◌,
}
use native.Mathlib.Nat.{zero-mul, one-mul}
use mcu_fw_cpp.Prelude.Bits.{bit, bit-lt, bit-or}
use mcu_fw_cpp.Prelude.Masks.{bit_and-pow}
use mcu_fw_cpp.Bus.{Bus}
use mcu_fw_cpp.Bus.Storage.{IsStorage}
use mcu_fw_cpp.Mci.{Mci, flow_checkpoint, flow_milestone}
use mcu_fw_cpp.Mci.FlowStatus.{flow_addr}
use mcu_fw_cpp.Mci.FlowStatus.History.{
  Entry, FlowStatus, record_all, Fits, apply_all, shown, flow_status-history,
}
use mcu_fw_cpp.Rom.BootStatus.{
  McuRomBootStatus, status_code, BootMilestone, milestone_bit, contains,
}
use mcu_fw_cpp.Rom.BootStatus.Milestones.{
  bit_index, bit-milestone_bit, milestone_bit-pow, milestone_bit-lt, milestone_bit-pos,
}
use mcu_fw_cpp.Rom.BootStatus.Codes.{status_code-injective, status_code-lt}

-- What the flows report.
pub data Report : Type 0 where
  status : McuRomBootStatus → Report
  milestone : BootMilestone → Report

-- The calls of the driver that the reports are.
abbrev pub entries : List Report → List Entry
entries [] = []
entries (status st ∷ rs) = Entry.checkpoint (status_code st) ∷ entries rs
entries (milestone m ∷ rs) = Entry.milestone (milestone_bit m) ∷ entries rs

-- The status that was reported last, and whether a milestone was reported.
abbrev pub last_status : List Report → Option McuRomBootStatus → Option McuRomBootStatus
last_status [] st = st
last_status (status st ∷ rs) _ = last_status rs (some st)
last_status (milestone m ∷ rs) st = last_status rs st

abbrev pub is_reported : BootMilestone → List Report → Bool
is_reported m [] = false
is_reported m (status st ∷ rs) = is_reported m rs
is_reported m (milestone n ∷ rs) = (bit_index m == bit_index n) || is_reported m rs

entries-Fits : (rs : List Report) → Fits (entries rs)
entries-Fits [] = tt
entries-Fits (status st ∷ rs) = (status_code-lt st, entries-Fits rs)
entries-Fits (milestone m ∷ rs) = (milestone_bit-lt m, entries-Fits rs)

none-ne-some : {x : McuRomBootStatus} → none ≡ some x → ⊥
none-ne-some p = cc

last_code :
    (rs : List Report) (f : FlowStatus) (known : Option McuRomBootStatus) (st : McuRomBootStatus)
    → ((x : McuRomBootStatus) → known ≡ some x → f.last ≡ status_code x)
    → last_status rs known ≡ some st
    → (record_all (entries rs) f).last ≡ status_code st
last_code [] f known st h e = h st e
last_code (status x ∷ rs) f known st h e =
    last_code rs (record f { last = status_code x }) (some x) st (λ y p. ap status_code (cc)) e
last_code (milestone m ∷ rs) f known st h e =
    last_code rs (record f { reached = bit_or (milestone_bit m) f.reached }) known st h e

-- A product by 0 or 1.
mask_test : (p b : ℕ) → 0 < p → b < 2 → ((b * p) == p) ≡ (b == 1)
mask_test p zero h lt = ground (arith, zero-mul p)
mask_test p (suc zero) h lt = ground (arith, one-mul p)
mask_test p (suc (suc b)) h lt = absurd (omega (arith, lt))

contains-bit :
    (m : BootMilestone) (x : ℕ)
    → contains (record { bits = x }) (milestone_bit m) ≡ (bit (bit_index m) x == 1)
unfolding contains
contains-bit m x =
    let i = bit_index m in
    ap (λ (p : ℕ). bit_and x p == p) (milestone_bit-pow m)
    ∙ ap (λ (y : ℕ). y == 2 ^ i) (bit_and-pow i x)
    ∙ mask_test (2 ^ i) (bit i x) (omega (arith, milestone_bit-pos m, milestone_bit-pow m))
        (bit-lt i x)

join_test :
    (same : Bool) (b : ℕ) → b < 2 → (max (if same then 1 else 0) b == 1) ≡ (same || (b == 1))
join_test true b h = ground arith
join_test false b h = ground arith

regroup : (a b c : Bool) → (b || (a || c)) ≡ ((a || b) || c)
regroup true true c = refl
regroup true false c = refl
regroup false true c = refl
regroup false false c = refl

reached_bits :
    (rs : List Report) (f : FlowStatus) (m : BootMilestone)
    → (bit (bit_index m) (record_all (entries rs) f).reached == 1)
      ≡ (is_reported m rs || (bit (bit_index m) f.reached == 1))
reached_bits [] f m = refl
reached_bits (status st ∷ rs) f m = reached_bits rs (record f { last = status_code st }) m
reached_bits (milestone n ∷ rs) f m =
    let i = bit_index m in
    let same = bit_index m == bit_index n in
    reached_bits rs (record f { reached = bit_or (milestone_bit n) f.reached }) m
    ∙ ap (λ (b : ℕ). is_reported m rs || (b == 1))
        (bit-or i (milestone_bit n) f.reached
          ∙ ap (λ (b : ℕ). max b (bit i f.reached)) (bit-milestone_bit m n))
    ∙ ap (λ (t : Bool). is_reported m rs || t)
        (join_test same (bit i f.reached) (bit-lt i f.reached))
    ∙ regroup same (is_reported m rs) (bit i f.reached == 1)

module _ {S : Type 0} ⦃bus : Bus S⦄ {region : ℕ → Type 0} {cell : ℕ → S → ℕ}
    (d : IsStorage bus region cell) (m : Mci) (r : region (flow_addr m)) where
  -- On a device whose flow status register is plain storage, and after any sequence of boot statuses and
  -- milestones that are set with `set_flow_checkpoint` and `set_flow_milestone`: if `st` is the status that was set
  -- last, `flow_checkpoint` reads the code of a status exactly if that status is `st`; and `McuBootMilestones::contains` on what `flow_milestone`
  -- reads finds a milestone exactly if that milestone was set, or was found at the start.
  pub flow_status-observed :
      (rs : List Report) (s : S)
      → let after = apply_all m (entries rs) s in
        ((st other : McuRomBootStatus)
          → last_status rs none ≡ some st
          → ((flow_checkpoint m after).0 ≡ status_code other) ↔ (other ≡ st))
        × ((n : BootMilestone)
            → contains (record { bits = (flow_milestone m after).0 }) (milestone_bit n) ≡ (
                is_reported n rs
                || contains (record { bits = (flow_milestone m s).0 }) (milestone_bit n)))
  flow_status-observed rs s =
      let after = apply_all m (entries rs) s in
      let e = flow_status-history d m r (entries rs) s (entries-Fits rs) in
      (
        λ st other is_last.
            let code =
              ap (λ (f : FlowStatus). f.last) e
              ∙ last_code rs (shown m s) none st (λ x p. absurd (none-ne-some p)) is_last in
            (
              (λ p. status_code-injective other st (sym p ∙ code)),
              (λ p. code ∙ ap status_code (sym p)),
            ),
        λ n.
            contains-bit n (flow_milestone m after).0
            ∙ ap (λ (f : FlowStatus). bit (bit_index n) f.reached == 1) e
            ∙ reached_bits rs (shown m s) n
            ∙ ap (λ (t : Bool). is_reported n rs || t)
                (sym (contains-bit n (flow_milestone m s).0)),
      )
