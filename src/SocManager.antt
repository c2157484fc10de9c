-- ===== src/SocManager.antt =====
-- The Caliptra SoC manager (romtime/src/soc_manager.cpp, romtime/include/romtime/soc_manager.hpp).
pub mod Response
pub mod ApiError
pub mod Checksum
pub mod Exec
pub mod WordSums
pub mod Drained
pub mod Lock
pub mod Request
pub mod Release
pub mod Holding
pub mod Phases
pub mod Finish
pub mod Lockout
use mcu_fw_cpp.Prelude.{
  ℕ, zero, suc, ◌+◌, ◌*◌, ◌/◌, ◌%◌, ◌^◌, u32, u64, bit_and, any_set, Bool, true, false, List, [],
  ◌∷◌, Option, none, some, ◌==◌, ltb, if◌then◌else◌, length, set,
}
use mcu_fw_cpp.Bus.{Bus, Hw, read_reg, write_reg}
use mcu_fw_cpp.Error.{
  McuError, McuResult, ok, err, mbox_invalid_response, mbox_lock_failed, mbox_timeout,
  mbox_cmd_failed, Try, ◌>>=◌, ◌>>◌, pure, fail, lift,
}
use Response.{MailboxResponse, respond}

-- The fields of the manager.
pub record CaliptraSoc : Type 0 where
  pub counter : ℕ
  pub soc_ifc_addr : ℕ
  pub soc_ifc_trng_addr : ℕ
  pub soc_mbox_addr : ℕ

abbrev pub mailbox_size : ℕ
mailbox_size = 256 * 1024

abbrev pub max_wait_cycles : ℕ
max_wait_cycles = 400000

abbrev pub mbox_lock : ℕ
mbox_lock = 0x00

abbrev pub mbox_cmd : ℕ
mbox_cmd = 0x04

abbrev pub mbox_dlen : ℕ
mbox_dlen = 0x08

abbrev pub mbox_datain : ℕ
mbox_datain = 0x0c

abbrev pub mbox_dataout : ℕ
mbox_dataout = 0x10

abbrev pub mbox_status : ℕ
mbox_status = 0x14

abbrev pub mbox_execute : ℕ
mbox_execute = 0x18

abbrev pub soc_ifc_cptra_fw_error_fatal : ℕ
soc_ifc_cptra_fw_error_fatal = 0x00

abbrev pub soc_ifc_cptra_fw_error_non_fatal : ℕ
soc_ifc_cptra_fw_error_non_fatal = 0x04

abbrev pub mbox_status_cmd_busy : ℕ
mbox_status_cmd_busy = 0x01

abbrev pub mbox_status_cmd_failure : ℕ
mbox_status_cmd_failure = 0x02

abbrev pub mbox_status_cmd_complete : ℕ
mbox_status_cmd_complete = 0x04

abbrev pub mbox_status_data_ready : ℕ
mbox_status_data_ready = 0x08

-- `sizeof` of the two headers.
abbrev pub req_header_size : ℕ
req_header_size = 4

abbrev pub resp_header_size : ℕ
resp_header_size = 8

-- The constructor: an address that is not given is the default one.
unfoldable pub make_soc : Option ℕ → Option ℕ → Option ℕ → CaliptraSoc
make_soc ifc trng mbox = record {
  counter = 0;
  soc_ifc_addr = elim ifc [ none ↦ 0x30030000 | some a ↦ a ];
  soc_ifc_trng_addr = elim trng [ none ↦ 0x30030000 | some a ↦ a ];
  soc_mbox_addr = elim mbox [ none ↦ 0x30020000 | some a ↦ a ];
}

unfoldable pub delay : CaliptraSoc → CaliptraSoc
delay c = record c { counter = u64 (c.counter + 1) }

-- The device and the manager, which a call may change.
pub record Session (S : Type 0) : Type 0 where
  pub device : S
  pub soc : CaliptraSoc

module _ {S : Type 0} ⦃bus : Bus S⦄ (c : CaliptraSoc) where
  abbrev pub read_soc_ifc : ℕ → Hw S ℕ
  read_soc_ifc offset = read_reg c.soc_ifc_addr offset

  abbrev pub read_soc_mbox : ℕ → Hw S ℕ
  read_soc_mbox offset = read_reg c.soc_mbox_addr offset

  abbrev pub write_soc_ifc : ℕ → ℕ → Hw S (Unit {0})
  write_soc_ifc offset value = write_reg c.soc_ifc_addr offset value

  abbrev pub write_soc_mbox : ℕ → ℕ → Hw S (Unit {0})
  write_soc_mbox offset value = write_reg c.soc_mbox_addr offset value

  unfoldable pub is_mailbox_busy : Hw S Bool
  is_mailbox_busy s =
      let (status, s') = read_soc_mbox mbox_status s in (any_set status mbox_status_cmd_busy, s')

  unfoldable pub lock_mailbox : Try S (Unit {0})
  lock_mailbox = do
    lock ← lift (read_soc_mbox mbox_lock)
    if any_set lock 0x01 then fail mbox_lock_failed else pure tt

  -- The check that the lock is held, which three methods begin with.
  unfoldable pub require_lock : Try S (Unit {0})
  require_lock = do
    lock ← lift (read_soc_mbox mbox_lock)
    if bit_and lock 0x01 == 0 then fail mbox_lock_failed else pure tt

  unfoldable pub set_command : ℕ → ℕ → Try S (Unit {0})
  unfolding require_lock
  set_command cmd payload_len_bytes = do
    require_lock
    lift (write_soc_mbox mbox_cmd cmd)
    lift (write_soc_mbox mbox_dlen payload_len_bytes)

  unfoldable pub write_data : ℕ → Try S (Unit {0})
  unfolding require_lock
  write_data word = do require_lock; lift (write_soc_mbox mbox_datain word)

  unfoldable pub execute_command : Try S (Unit {0})
  unfolding require_lock
  execute_command = do require_lock; lift (write_soc_mbox mbox_execute 0x01)

  -- The loop over the data words.
  unfoldable pub write_all : List ℕ → Hw S (Unit {0})
  write_all [] s = (tt, s)
  write_all (word ∷ rest) s = write_all rest (write_soc_mbox mbox_datain word s).1

  unfoldable pub initiate_request : ℕ → ℕ → Try S (Unit {0})
  unfolding lock_mailbox set_command
  initiate_request cmd len_bytes =
      if ltb mailbox_size len_bytes
      then fail mbox_invalid_response
      else (lock_mailbox >> set_command cmd len_bytes)

  unfoldable pub start_mailbox_req : ℕ → ℕ → List ℕ → Try S (Unit {0})
  unfolding initiate_request write_all
  start_mailbox_req cmd len_bytes words = do
    initiate_request cmd len_bytes
    lift (write_all words)
    lift (write_soc_mbox mbox_execute 0x01)

module _ {S : Type 0} ⦃bus : Bus S⦄ where
  -- A call on the manager of the session.
  abbrev pub on_soc : {A : Type 0} → (CaliptraSoc → Try S A) → Try (Session S) A
  on_soc f t = let (r, s') = f t.soc t.device in (r, record { device = s'; soc = t.soc })

  -- The busy loop, with `cycles` decrements left before `--timeout_cycles == 0` stops it.
  unfoldable pub poll_complete : ℕ → Try (Session S) (Unit {0})
  unfolding is_mailbox_busy delay
  poll_complete zero t = (err mbox_timeout, t)
  poll_complete (suc cycles) t =
      let (busy, s') = is_mailbox_busy t.soc t.device in
      let rest = poll_complete cycles (record { device = s'; soc = delay t.soc }) in
      if busy then rest else (ok tt, record { device = s'; soc = t.soc })

  -- What follows the wait, by the bits of the status word.
  unfoldable pub finish_by_status : ℕ → Try (Session S) (Option MailboxResponse)
  unfolding respond
  finish_by_status status =
      if any_set status mbox_status_cmd_failure
      then (do
        on_soc (λ c. lift (write_soc_mbox c mbox_execute 0))
        error_code ← on_soc (λ c. lift (read_soc_ifc c soc_ifc_cptra_fw_error_fatal))
        (if error_code == 0
            then (on_soc (λ c. lift (read_soc_ifc c soc_ifc_cptra_fw_error_non_fatal)) >>= λ _.
                pure tt)
            else pure tt)
        fail mbox_cmd_failed)
      else if any_set status mbox_status_cmd_complete
      then (on_soc (λ c. lift (write_soc_mbox c mbox_execute 0)) >> pure none)
      else if bit_and status mbox_status_data_ready == 0
      then fail mbox_invalid_response
      else (do
        dlen_bytes ← on_soc (λ c. lift (read_soc_mbox c mbox_dlen))
        expected_checksum ← on_soc (λ c. lift (read_soc_mbox c mbox_dataout))
        λ t. (ok (some (respond t.soc.soc_mbox_addr dlen_bytes expected_checksum)), t))

  unfoldable pub finish_mailbox_resp : ℕ → ℕ → Try (Session S) (Option MailboxResponse)
  unfolding poll_complete finish_by_status
  finish_mailbox_resp resp_min_size resp_size =
      if ltb resp_size resp_header_size
      then fail mbox_invalid_response
      else if ltb resp_min_size resp_header_size
      then fail mbox_invalid_response
      else (do
        poll_complete max_wait_cycles
        status ← on_soc (λ c. lift (read_soc_mbox c mbox_status))
        finish_by_status status)
