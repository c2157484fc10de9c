-- ===== src/Lifecycle.antt =====
-- The lifecycle controller driver (rom/src/lifecycle.cpp, rom/include/rom/lifecycle.hpp).
pub mod States
pub mod Tokens
use mcu_fw_cpp.Prelude.{
  ℕ, ◌+◌, ◌*◌, any_set, bit_and, Bool, true, false, ◌||◌, ◌==◌, leb, if◌then◌else◌,
}
use mcu_fw_cpp.Bus.{Bus, Hw, ◌>>=◌, ◌>>◌, pure, read_reg, write_reg}
use mcu_fw_cpp.Error.{McuResult, ok, err, invalid_parameter, Try, lift, fail}

pub record Lifecycle : Type 0 where
  pub base_addr : ℕ

pub data LifecycleControllerState : Type 0 where
  raw_state test_unlocked test_locked dev prod prod_end rma scrap invalid : LifecycleControllerState

pub data LifecycleState : Type 0 where
  raw test_unlocked0 test_locked0 test_unlocked1 test_locked1 : LifecycleState
  test_unlocked2 test_locked2 test_unlocked3 : LifecycleState
  dev prod prod_end rma scrap invalid : LifecycleState

abbrev pub reg_state : ℕ
reg_state = 0x00

abbrev pub reg_status : ℕ
reg_status = 0x04

abbrev pub reg_transition_cmd : ℕ
reg_transition_cmd = 0x08

abbrev pub reg_transition_token_base : ℕ
reg_transition_token_base = 0x10

abbrev pub transition_token_count : ℕ
transition_token_count = 4

-- `static_cast<std::uint32_t>(target_state)`
pub state_code : LifecycleState → ℕ
state_code raw = 0
state_code test_unlocked0 = 1
state_code test_locked0 = 2
state_code test_unlocked1 = 3
state_code test_locked1 = 4
state_code test_unlocked2 = 5
state_code test_locked2 = 6
state_code test_unlocked3 = 7
state_code LifecycleState.dev = 8
state_code LifecycleState.prod = 9
state_code LifecycleState.prod_end = 10
state_code LifecycleState.rma = 11
state_code LifecycleState.scrap = 12
state_code LifecycleState.invalid = 0xff

-- The `switch` of `state` on five bits.
pub state_of_bits : ℕ → LifecycleState
state_of_bits v =
    if v == 0
    then raw
    else if v == 1
    then test_unlocked0
    else if v == 2
    then test_locked0
    else if v == 3
    then test_unlocked1
    else if v == 4
    then test_locked1
    else if v == 5
    then test_unlocked2
    else if v == 6
    then test_locked2
    else if v == 7
    then test_unlocked3
    else if v == 8
    then LifecycleState.dev
    else if v == 9
    then LifecycleState.prod
    else if v == 10
    then LifecycleState.prod_end
    else if v == 11
    then LifecycleState.rma
    else if v == 12
    then LifecycleState.scrap
    else LifecycleState.invalid

-- The `switch` of `current_state`.
pub controller_state : LifecycleState → LifecycleControllerState
controller_state raw = raw_state
controller_state test_unlocked0 = test_unlocked
controller_state test_unlocked1 = test_unlocked
controller_state test_unlocked2 = test_unlocked
controller_state test_unlocked3 = test_unlocked
controller_state test_locked0 = test_locked
controller_state test_locked1 = test_locked
controller_state test_locked2 = test_locked
controller_state LifecycleState.dev = LifecycleControllerState.dev
controller_state LifecycleState.prod = LifecycleControllerState.prod
controller_state LifecycleState.prod_end = LifecycleControllerState.prod_end
controller_state LifecycleState.rma = LifecycleControllerState.rma
controller_state LifecycleState.scrap = LifecycleControllerState.scrap
controller_state LifecycleState.invalid = LifecycleControllerState.invalid

-- `s == LifecycleState::…`, on the codes of the enumerators.
pub same_state : LifecycleState → LifecycleState → Bool
unfolding state_code
same_state a b = state_code a == state_code b

-- What `is_manufacturing`, `is_production` and `is_debug_locked` return for a state.
pub in_manufacturing : LifecycleState → Bool
unfolding same_state
in_manufacturing s =
    same_state s raw
    || (same_state s test_unlocked0
        || (same_state s test_unlocked1
            || (same_state s test_unlocked2
                || (same_state s test_unlocked3
                    || (same_state s test_locked0
                        || (same_state s test_locked1 || same_state s test_locked2))))))

pub in_production : LifecycleState → Bool
unfolding same_state
in_production s = same_state s LifecycleState.prod || same_state s LifecycleState.prod_end

pub in_debug_locked : LifecycleState → Bool
unfolding same_state
in_debug_locked s =
    same_state s LifecycleState.prod
    || (same_state s LifecycleState.prod_end
        || (same_state s test_locked0 || (same_state s test_locked1 || same_state s test_locked2)))

module _ {S : Type 0} ⦃bus : Bus S⦄ (lc : Lifecycle) where
  unfoldable pub state : Hw S LifecycleState
  unfolding state_of_bits
  state = do v ← read_reg lc.base_addr reg_state; pure (state_of_bits (bit_and v 0x1f))

  unfoldable pub current_state : Hw S LifecycleControllerState
  unfolding state controller_state
  current_state = do s ← state; pure (controller_state s)

  unfoldable pub is_initialized : Hw S Bool
  is_initialized = do v ← read_reg lc.base_addr reg_status; pure (any_set v 0x01)

  unfoldable pub status : Hw S ℕ
  status = read_reg lc.base_addr reg_status

  unfoldable pub is_manufacturing : Hw S Bool
  unfolding state in_manufacturing
  is_manufacturing = do s ← state; pure (in_manufacturing s)

  unfoldable pub is_production : Hw S Bool
  unfolding state in_production
  is_production = do s ← state; pure (in_production s)

  unfoldable pub is_rma : Hw S Bool
  unfolding state same_state
  is_rma = do s ← state; pure (same_state s LifecycleState.rma)

  unfoldable pub is_dev : Hw S Bool
  unfolding state same_state
  is_dev = do s ← state; pure (same_state s LifecycleState.dev)

  unfoldable pub is_debug_locked : Hw S Bool
  unfolding state in_debug_locked
  is_debug_locked = do s ← state; pure (in_debug_locked s)

  unfoldable pub request_transition : LifecycleState → Try S (Unit {0})
  unfolding state_code
  request_transition target_state =
      lift (write_reg lc.base_addr reg_transition_cmd (state_code target_state))

  unfoldable pub write_transition_token : ℕ → ℕ → Try S (Unit {0})
  write_transition_token index value =
      if leb transition_token_count index
      then fail invalid_parameter
      else lift (write_reg lc.base_addr (reg_transition_token_base + index * 4) value)
