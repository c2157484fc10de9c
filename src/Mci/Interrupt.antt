-- ===== src/Mci/Interrupt.antt =====
-- The handler of the MCI interrupt, on an event register in which a bit is cleared by storing a one.
use mcu_fw_cpp.Prelude.{
  ℕ, ◌+◌, ◌*◌, ◌/◌, ◌%◌, ◌^◌, ◌<◌, ◌≡◌, ◌≢◌, refl, ap, ap₂, ◌∙◌, bit_and, u32, not32, any_set, ◌==◌,
  if◌then◌else◌, arith, Bool, true, false,
}
use mcu_fw_cpp.Prelude.Masks.{bit_and-pow}
use mcu_fw_cpp.Bus.{Bus, reg, read_reg, modify_reg}
use mcu_fw_cpp.Bus.Storage.{IsStorage, read_reg-keeps, modify_reg-keeps}
use mcu_fw_cpp.Bus.Modify.{modified, bit_and-not32, set_low, set_second, modify_reg-cell}
use mcu_fw_cpp.Mci.{Mci, handle_interrupt, request_reset}
use mcu_fw_cpp.Mci.Regs.{reg_notif0_internal_intr_r, reg_reset_request}

-- The documented behaviour of an event register: a load shows the pending events, and a store clears
-- those whose bit is one.
pub record IsEvents {S : Type 0} (bus : Bus S) (addr : ℕ) (pending : S → ℕ) : Type 0 where
  pub pending_word : (s : S) → pending s < 2 ^ 32
  pub load_pending : (s : S) → (bus.load addr s).0 ≡ pending s
  pub load_keeps : (s : S) → pending (bus.load addr s).1 ≡ pending s
  pub store_clears : (v : ℕ) (s : S) → pending (bus.store addr v s) ≡ bit_and (pending s) (not32 v)

abbrev pub events_addr : Mci → ℕ
events_addr m = reg m.base_addr reg_notif0_internal_intr_r

abbrev pub request_addr : Mci → ℕ
request_addr m = reg m.base_addr reg_reset_request

-- The event of a reset request, the second bit.
reset_pending : (w : ℕ) → any_set w 0x02 ≡ (w / 2 % 2 == 1)
reset_pending w = ground (arith, bit_and-pow 1 w)

module _ {S : Type 0} ⦃bus : Bus S⦄ (m : Mci) {pending : S → ℕ} {cell : ℕ → S → ℕ}
    (v : IsEvents bus (events_addr m) pending) (d : IsStorage bus (λ a. a ≡ request_addr m) cell)
    (load_request : (s : S) → pending (bus.load (request_addr m) s).1 ≡ pending s)
    (store_request : (w : ℕ) (s : S) → pending (bus.store (request_addr m) w s) ≡ pending s) where
  events_read : (s : S) → (read_reg m.base_addr reg_notif0_internal_intr_r s).0 ≡ pending s
  unfolding read_reg
  events_read s = ap u32 (v.load_pending s) ∙ omega (arith, v.pending_word s)

  apart : events_addr m ≢ request_addr m
  apart = omega arith

  -- Storing the events back with the bit set clears all of them.
  events_cleared :
      (s : S)
      → pending s / 2 % 2 ≡ 1
      → pending (modify_reg m.base_addr reg_notif0_internal_intr_r 0x02 0x02 s).1 ≡ 0
  unfolding modify_reg
  events_cleared s e =
      v.store_clears _ _
      ∙ ap₂ (λ (p w : ℕ). bit_and p (not32 w)) (v.load_keeps s) stored
      ∙ bit_and-not32 (pending s) (v.pending_word s)
    where
      stored : u32 (modified (u32 (bus.load (events_addr m) s).0) 0x02 0x02) ≡ pending s
      stored =
          ap (λ (t : ℕ). u32 (modified t 0x02 0x02))
            (ap u32 (v.load_pending s) ∙ omega (arith, v.pending_word s))
          ∙ ap u32 (set_second (pending s) (v.pending_word s) e)
          ∙ omega (arith, v.pending_word s)

  -- Requesting the reset leaves the events alone.
  request_keeps :
      (s : S) → pending (modify_reg m.base_addr reg_reset_request 0x01 0x01 s).1 ≡ pending s
  unfolding modify_reg
  request_keeps s = store_request _ _ ∙ load_request s

  request_stored :
      (s : S)
      → cell (request_addr m) (modify_reg m.base_addr reg_reset_request 0x01 0x01 s).1
        ≡ u32 (cell (request_addr m) s) / 2 * 2 + 1
  request_stored s =
      modify_reg-cell d m.base_addr reg_reset_request 0x01 0x01 s refl (omega arith)
      ∙ set_low _ (omega arith)

  -- The state in which the handler has read the events.
  abbrev seen : S → S
  seen s = (read_reg m.base_addr reg_notif0_internal_intr_r s).1

  seen-pending : (s : S) → pending (seen s) ≡ pending s
  unfolding read_reg
  seen-pending s = v.load_keeps s

  seen-cell : (s : S) → cell (request_addr m) (seen s) ≡ cell (request_addr m) s
  seen-cell s = read_reg-keeps d m.base_addr reg_notif0_internal_intr_r (request_addr m) s refl

  -- The handler by the test of the event.
  handle_interrupt-test :
      (s : S) (b : Bool)
      → (pending s / 2 % 2 == 1) ≡ b
      → handle_interrupt m s ≡ request_reset m b (seen s)
  unfolding handle_interrupt
  handle_interrupt-test s b e =
      ap (λ (t : Bool). request_reset m t (seen s))
        (ap (λ (w : ℕ). any_set w 0x02) (events_read s) ∙ reset_pending (pending s) ∙ e)

  abbrev Answered : S → Bool → S → Type 0
  Answered s b s' =
      (pending s' ≡ (if b then 0 else pending s))
      × (cell (request_addr m) s'
          ≡ (if b then u32 (cell (request_addr m) s) / 2 * 2 + 1 else cell (request_addr m) s))

  request_reset-Answered :
      (s : S) (b : Bool)
      → (pending s / 2 % 2 == 1) ≡ b
      → Answered s b (request_reset m b (seen s)).1
  unfolding request_reset
  request_reset-Answered s false e = (seen-pending s, seen-cell s)
  request_reset-Answered s true e = (
    request_keeps cleared
        ∙ events_cleared (seen s) (ap (λ (p : ℕ). p / 2 % 2) (seen-pending s) ∙ ground arith),
    request_stored cleared
        ∙ ap (λ (w : ℕ). u32 w / 2 * 2 + 1)
            (modify_reg-keeps d m.base_addr reg_notif0_internal_intr_r 0x02 0x02 (request_addr m)
                (seen s) refl apart
              ∙ seen-cell s),
  )
    where
      cleared : S
      cleared = (modify_reg m.base_addr reg_notif0_internal_intr_r 0x02 0x02 (seen s)).1

  -- Where the event register clears the events whose bit is stored as one, and the reset request
  -- register is plain storage that has no part in the events: if the reset request event is
  -- pending, `handle_interrupt` clears every pending event, not this one alone, and sets the lowest
  -- bit of the reset request register and keeps its others; if not, it changes neither.
  pub handle_interrupt-clears :
      (s : S)
      → (pending (handle_interrupt m s).1 ≡ (if pending s / 2 % 2 == 1 then 0 else pending s))
        × (cell (request_addr m) (handle_interrupt m s).1 ≡ (
            if pending s / 2 % 2 == 1
            then u32 (cell (request_addr m) s) / 2 * 2 + 1
            else cell (request_addr m) s))
  handle_interrupt-clears s =
      let b = pending s / 2 % 2 == 1 in
      rw (handle_interrupt-test s b refl) (request_reset-Answered s b refl)
