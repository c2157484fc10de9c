-- ===== src/Tests/Drivers.antt =====
-- The drivers' theorems on small devices.
use mcu_fw_cpp.Prelude.{
  ℕ, zero, suc, ◌+◌, ◌%◌, ◌^◌, ◌<◌, ◌≤◌, ◌≡◌, ◌↔◌, ◌⊎◌, refl, arith, true, false, ◌==◌, leb,
  if◌then◌else◌, [], ◌∷◌, some, ltb,
}
use mcu_fw_cpp.Bus.{Bus, read_reg}
use mcu_fw_cpp.Bus.Storage.{Memory, memory_bus}
use mcu_fw_cpp.Error.{ok, err, timeout, not_supported, flash_invalid_address}
use mcu_fw_cpp.Error.Ensures.{Ensures}
use mcu_fw_cpp.Mci.{Mci, reset_reason, reset_reason_enum}
use mcu_fw_cpp.Mci.Regs.{cold_boot, warm_reset, firmware_boot_reset, firmware_hitless_update}
use mcu_fw_cpp.Mci.ResetReason.{reset_reason_enum_iff}
use mcu_fw_cpp.Otp.{Otp, is_idle, wait_for_idle}
use mcu_fw_cpp.Otp.Poll.{after_polls, polls, IdleAt, BusyAt, wait_for_idle-answers}
use mcu_fw_cpp.Lifecycle.{
  Lifecycle, LifecycleState, state, state_code, reg_state, is_manufacturing, is_production, is_rma,
  is_dev, is_debug_locked,
}
use mcu_fw_cpp.Lifecycle.States.{Agree, state_classified}
use mcu_fw_cpp.SocManager.{CaliptraSoc, start_mailbox_req}
use mcu_fw_cpp.SocManager.Lock.{LockDevice, lock_bus, lock_bus-IsLock}
use mcu_fw_cpp.SocManager.Request.{Started, Refused, start_mailbox_req-locked}
use mcu_fw_cpp.SocManager.Response.{MailboxResponse, remaining_bytes, valid_part, next, word_count}
use mcu_fw_cpp.SocManager.Release.{next-reads_lock}
use mcu_fw_cpp.Flash.Hil.{FlashHil}
use mcu_fw_cpp.Flash.{FlashMemory, contains, read_word}
use mcu_fw_cpp.Flash.Bounds.{IsRegion, IsFlash, little_endian, read_word-content, read_word-wraps}

abbrev mci : Mci
mci = record { base_addr = 0x21000000 }

-- Milestones 5, checkpoint 0x41, and an MCU reset for a hitless update.
abbrev registers : Memory
registers a = if a == 0x21000008 then 0x00050041 else if a == 0x21000030 then 4 else 0

reset_reason_enum_iff_example :
    (((reset_reason_enum mci registers).0 ≡ cold_boot) ↔ ((reset_reason mci registers).0 % 8 ≡ 0))
    × (((reset_reason_enum mci registers).0 ≡ warm_reset)
        ↔ ((reset_reason mci registers).0 % 8 ≡ 1))
    × (((reset_reason_enum mci registers).0 ≡ firmware_boot_reset)
        ↔ ((reset_reason mci registers).0 % 8 ≡ 2))
    × (((reset_reason_enum mci registers).0 ≡ firmware_hitless_update)
        ↔ ((reset_reason mci registers).0 % 8 ≡ 4))
reset_reason_enum_iff_example = reset_reason_enum_iff mci registers

abbrev otp : Otp
otp = record { base_addr = 0x70000000 }

-- A controller that becomes idle with the third load of its status: the state counts the loads.
instance abbrev slow_bus : Bus ℕ
slow_bus = record { load = λ a n. (if leb 2 n then 1 else 0, suc n); store = λ a v n. n }

slow_busy : (j : ℕ) → j < 2 → BusyAt {S = ℕ} otp j 0
unfolding is_idle read_reg
slow_busy zero h = refl
slow_busy (suc zero) h = refl
slow_busy (suc (suc j)) h = absurd (omega arith)

slow_idle : IdleAt {S = ℕ} otp 2 0
unfolding is_idle read_reg
slow_idle = refl

wait_for_idle-answers_example : wait_for_idle {S = ℕ} otp 10000 0 ≡ (
    if ltb 2 (polls 10000)
    then (ok tt, after_polls {S = ℕ} otp 3 0)
    else (err timeout, after_polls {S = ℕ} otp (polls 10000) 0))
wait_for_idle-answers_example =
    wait_for_idle-answers {S = ℕ} otp 10000 2 0 (omega arith) slow_busy (λ h. slow_idle)

-- Two polls are too few.
two_polls : wait_for_idle {S = ℕ} otp 2 0 ≡ (err timeout, after_polls {S = ℕ} otp (polls 2) 0)
two_polls = wait_for_idle-answers {S = ℕ} otp 2 2 0 (omega arith) slow_busy (λ h. slow_idle)

abbrev lifecycle : Lifecycle
lifecycle = record { base_addr = 0x70000400 }

state_classified_example :
    (((read_reg 0x70000400 reg_state registers).0 % 2 ^ 5 < 13)
        × (state_code (state lifecycle registers).0
            ≡ (read_reg 0x70000400 reg_state registers).0 % 2 ^ 5)
      ⊎ (13 ≤ (read_reg 0x70000400 reg_state registers).0 % 2 ^ 5)
        × ((state lifecycle registers).0 ≡ LifecycleState.invalid))
    × Agree
        (state lifecycle registers).0
        (is_manufacturing lifecycle registers).0
        (is_production lifecycle registers).0
        (is_rma lifecycle registers).0
        (is_dev lifecycle registers).0
        (is_debug_locked lifecycle registers).0
state_classified_example = state_classified lifecycle registers

abbrev soc : CaliptraSoc
soc = record {
  counter = 0;
  soc_ifc_addr = 0x30030000;
  soc_ifc_trng_addr = 0x30030000;
  soc_mbox_addr = 0x30020000;
}

abbrev free_mailbox : LockDevice
free_mailbox = record { locked = false; seen = [] }

start_mailbox_req-locked_example :
    Ensures
      (Started soc lock_bus-IsLock 0x46574C44 8 (17 ∷ 34 ∷ []) free_mailbox)
      (Refused soc lock_bus-IsLock 8 free_mailbox)
      (start_mailbox_req soc 0x46574C44 8 (17 ∷ 34 ∷ []) free_mailbox)
start_mailbox_req-locked_example =
    start_mailbox_req-locked soc lock_bus-IsLock 0x46574C44 8 (17 ∷ 34 ∷ []) free_mailbox

-- A response of six bytes, of which the first word has been taken.
abbrev response : MailboxResponse
response = record {
  mbox_base = 0x30020000;
  idx = 1;
  dlen_bytes = 6;
  checksum = 0;
  expected_checksum = 99;
  released = false;
}

abbrev held_mailbox : LockDevice
held_mailbox = record { locked = true; seen = [] }

response-more : 1 < word_count response
unfolding word_count
response-more = omega arith

next-reads_lock_example :
    ((next response held_mailbox).0.0 ≡ some (valid_part (remaining_bytes response 1) 1))
    × ((next response held_mailbox).1.locked ≡ true)
next-reads_lock_example =
    next-reads_lock response lock_bus-IsLock held_mailbox (omega arith) response-more

-- A flash whose byte at address `a` is `a` itself, cut to a byte, and a window into it.
abbrev ramp : FlashHil (Unit {0})
ramp = record {
  init = λ s. (ok tt, s);
  read = λ a n s. (ok (record { count = n; bytes = λ i. a + i }), s);
  write = λ a bytes s. (err not_supported, s);
  erase = λ a n s. (err not_supported, s);
  status = λ s. (record { busy = false; write_enabled = false; error = false; error_code = 0 }, s);
  wait_idle = λ n s. (ok tt, s);
  capacity = λ s. (65536, s);
  erase_block_size = λ s. (4096, s);
  page_size = λ s. (256, s);
}

ramp-IsFlash : IsFlash ramp (λ a. a)
ramp-IsFlash = record { reads = λ a n s. refl }

abbrev window : FlashMemory
window = record { base_address = 0x1000; size = 0x100 }

window-IsRegion : IsRegion window
window-IsRegion = record { size_fits = omega arith; end_fits = omega arith }

read_word-content_example : read_word ramp window 0xfd tt ≡ (
    if leb (0xfd + 4) 0x100
    then (ok (little_endian (λ i. 0x1000 + 0xfd + i)), tt)
    else (err flash_invalid_address, tt))
read_word-content_example =
    read_word-content ramp (λ a. a) ramp-IsFlash window 0xfd tt window-IsRegion (omega arith)

read_word-wraps_example :
    (read_word ramp window 0xfffffffe tt ≡ (ok (little_endian (λ i. 0xffe + i)), tt))
    × (contains window 0xffe ≡ false)
read_word-wraps_example =
    read_word-wraps ramp (λ a. a) ramp-IsFlash window 0xfffffffe tt (omega arith) (omega arith)
      (omega arith) (omega arith) (omega arith)
