-- ===== src/Lifecycle/States.antt =====
-- The lifecycle states and the predicates on them.
use mcu_fw_cpp.Prelude.{
  ℕ, ◌%◌, ◌^◌, ◌<◌, ◌≤◌, ◌≡◌, ◌↔◌, ◌⊎◌, inl, inr, ltb-cases, Bool, true, arith,
}
use mcu_fw_cpp.Prelude.Masks.{bit_and-mod}
use mcu_fw_cpp.Bus.{Bus, read_reg}
use mcu_fw_cpp.Lifecycle.{
  Lifecycle, LifecycleState, LifecycleControllerState, state_code, state_of_bits, controller_state,
  state, is_manufacturing, is_production, is_rma, is_dev, is_debug_locked, reg_state,
  in_manufacturing, in_production, in_debug_locked, same_state,
}

-- The decoder of the register and the encoder of the transition command fit together.
pub state_of_bits-code : (v : ℕ) → v < 13 → state_code (state_of_bits v) ≡ v
unfolding state_of_bits state_code
state_of_bits-code v h = ground arith

state_of_bits-invalid : (v : ℕ) → 13 ≤ v → state_of_bits v ≡ LifecycleState.invalid
unfolding state_of_bits
state_of_bits-invalid v h = ground arith

-- How the two views of one register word and the predicates must agree.
pub record Agree (s : LifecycleState) (manufacturing production rma dev locked : Bool)
    : Type 0 where
  pub manufacturing_iff : (manufacturing ≡ true) ↔ (
      (controller_state s ≡ LifecycleControllerState.raw_state)
      ⊎ ((controller_state s ≡ LifecycleControllerState.test_unlocked)
          ⊎ (controller_state s ≡ LifecycleControllerState.test_locked)))
  pub production_iff : (production ≡ true) ↔ (
      (controller_state s ≡ LifecycleControllerState.prod)
      ⊎ (controller_state s ≡ LifecycleControllerState.prod_end))
  pub rma_iff : (rma ≡ true) ↔ (controller_state s ≡ LifecycleControllerState.rma)
  pub dev_iff : (dev ≡ true) ↔ (controller_state s ≡ LifecycleControllerState.dev)
  pub locked_iff :
      (locked ≡ true)
      ↔ ((production ≡ true) ⊎ (controller_state s ≡ LifecycleControllerState.test_locked))

classify :
    (s : LifecycleState)
    → Agree s
        (in_manufacturing s)
        (in_production s)
        (same_state s LifecycleState.rma)
        (same_state s LifecycleState.dev)
        (in_debug_locked s)
unfolding in_manufacturing in_production in_debug_locked controller_state
classify LifecycleState.raw = ground arith
classify _ = ground arith

module _ {S : Type 0} ⦃bus : Bus S⦄ (lc : Lifecycle) (s : S) where
  -- On every device, and for each of the 32 register values: the five predicates classify the state
  -- as the controller's view of it does. Manufacturing is raw, test unlocked and test locked;
  -- production is `Prod` and `ProdEnd`; debug is locked in production and in test locked states.
  pub lifecycle_predicates :
      Agree
        (state lc s).0
        (is_manufacturing lc s).0
        (is_production lc s).0
        (is_rma lc s).0
        (is_dev lc s).0
        (is_debug_locked lc s).0
  unfolding state is_manufacturing is_production is_rma is_dev is_debug_locked
  lifecycle_predicates = classify (state lc s).0

  -- On every device: the state is decoded from the low five bits of the register; the thirteen codes
  -- from 0 are the states that `request_transition` would write as these numbers, all others are
  -- `Invalid`.
  pub state_decodes :
      let v = (read_reg lc.base_addr reg_state s).0 % 2 ^ 5 in
      ((v < 13) × (state_code (state lc s).0 ≡ v))
      ⊎ ((13 ≤ v) × ((state lc s).0 ≡ LifecycleState.invalid))
  unfolding state
  state_decodes =
      rw (bit_and-mod 5 (read_reg lc.base_addr reg_state s).0)
        (elim (ltb-cases ((read_reg lc.base_addr reg_state s).0 % 2 ^ 5) 13) [
          | inl low ↦ inl (low.1, state_of_bits-code _ low.1)
          | inr high ↦ inr (high.1, state_of_bits-invalid _ high.1)
        ])

  -- On every device, and for each of the 32 register values. The state is decoded from the low five
  -- bits of the register: the thirteen codes from 0 are the states that `request_transition` would
  -- write as these numbers, all others are `Invalid`. The five predicates classify that state as
  -- the controller's view of it does: manufacturing is raw, test unlocked and test locked; production
  -- is `Prod` and `ProdEnd`; RMA and development are these states; debug is locked in production and
  -- in the test locked states.
  pub state_classified :
      (let v = (read_reg lc.base_addr reg_state s).0 % 2 ^ 5 in
        ((v < 13) × (state_code (state lc s).0 ≡ v))
        ⊎ ((13 ≤ v) × ((state lc s).0 ≡ LifecycleState.invalid)))
      × Agree
          (state lc s).0
          (is_manufacturing lc s).0
          (is_production lc s).0
          (is_rma lc s).0
          (is_dev lc s).0
          (is_debug_locked lc s).0
  state_classified = (state_decodes, lifecycle_predicates)
