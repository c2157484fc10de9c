-- ===== src/Tests/Exchange.antt =====
-- The theorems on whole exchanges with a device at small inputs.
use mcu_fw_cpp.Prelude.{
  ℕ, suc, ◌+◌, ◌-◌, ◌≡◌, refl, ap, arith, Bool, true, false, ◌==◌, ◌&&◌, ◌||◌, if◌then◌else◌, [],
  ◌∷◌, some,
}
use mcu_fw_cpp.Bus.{Bus, read_reg, write_reg}
use mcu_fw_cpp.Error.{McuError, ok, err, ◌>>=◌}
use mcu_fw_cpp.SocManager.{
  Session, start_mailbox_req, finish_mailbox_resp, finish_by_status, poll_complete, is_mailbox_busy,
}
use mcu_fw_cpp.SocManager.Response.{respond}
use mcu_fw_cpp.SocManager.Phases.{Phase, responding, status_of, View, IsMailbox}
use mcu_fw_cpp.SocManager.Finish.{finish_mailbox_resp-answers}
use mcu_fw_cpp.SocManager.Exec.{exec_mailbox_req_u32}
use mcu_fw_cpp.SocManager.Lock.{IsLock, flag}
use mcu_fw_cpp.SocManager.Lockout.{exec_mailbox_req_u32-once}
use mcu_fw_cpp.I3c.{I3c, write}
use mcu_fw_cpp.I3c.Fifo.{TxDevice, fifo_bus, fifo_bus-IsTxFifo, write-sent}
use mcu_fw_cpp.Rom.Soc.{Soc, fw_ready, has_fw_fatal_error, wait_for_firmware_ready}
use mcu_fw_cpp.Rom.Soc.Ready
use mcu_fw_cpp.Rom.Soc.Ready.{ready, rounds, Quiet, ended, wait_for_firmware_ready-ends}

-- A mailbox that has a response of eight bytes ready at once, as its only state the lock.
instance abbrev reply_bus : Bus Bool
reply_bus = record {
  load = λ a locked.
      if a == 0x30020000
      then (flag locked, true)
      else if a == 0x30020014
      then (0x08, locked)
      else if a == 0x30020008
      then (8, locked)
      else (0, locked);
  store = λ a v locked. if (a == 0x30020018) && (v == 0) then false else locked;
}

reply_bus-IsLock : IsLock reply_bus 0x30020000 (λ locked. locked)
reply_bus-IsLock = record {
  load_lock = λ s. refl;
  load_takes = λ s. refl;
  load_keeps = λ a s ne. ground arith;
  store_frees = λ s. refl;
  store_keeps = λ a v s ne. ground arith;
  execute_keeps = λ s. refl;
}

abbrev session : Session Bool
session = record {
  device = false;
  soc = record {
    counter = 0;
    soc_ifc_addr = 0x30030000;
    soc_ifc_trng_addr = 0x30030000;
    soc_mbox_addr = 0x30020000;
  };
}

-- The first exchange succeeds; the second word of its response is the lock flag.
first_exchange :
    (exec_mailbox_req_u32 17 (0 ∷ 5 ∷ []) (0 ∷ 0 ∷ []) session).0
    ≡ ok (4294967274 ∷ 5 ∷ [], 0 ∷ 1 ∷ [])
unfolding exec_mailbox_req_u32 start_mailbox_req finish_mailbox_resp poll_complete finish_by_status
    is_mailbox_busy read_reg write_reg
first_exchange = refl

exec_mailbox_req_u32-once_example :
    (e : McuError) × (((exec_mailbox_req_u32 17 (0 ∷ 5 ∷ []) (0 ∷ 0 ∷ []) >>= λ first.
    exec_mailbox_req_u32 18 (0 ∷ 6 ∷ []) (0 ∷ 0 ∷ []))
        session).0
      ≡ err e)
exec_mailbox_req_u32-once_example =
    exec_mailbox_req_u32-once reply_bus-IsLock 17 18 (0 ∷ 5 ∷ []) (0 ∷ 0 ∷ []) (0 ∷ 6 ∷ [])
      (0 ∷ 0 ∷ []) session refl

abbrev i3c : I3c
i3c = record { base_addr = 0x20004000 }

-- A full FIFO, to which two bytes are written.
abbrev full_fifo : TxDevice
full_fifo = record { sent = 1 ∷ []; level = 16 }

write-sent_example :
    (s' : TxDevice) × (write i3c 2 (65 ∷ 66 ∷ []) full_fifo
      ≡ some (record { bytes_transferred = 2; success = true; error_code = 0 }, s'))
    × (s'.sent ≡ 1 ∷ 65 ∷ 66 ∷ [])
write-sent_example =
    write-sent i3c fifo_bus-IsTxFifo 2 (65 ∷ 66 ∷ []) full_fifo (omega arith) (omega arith)

-- A core whose firmware is ready after some polls.
instance abbrev countdown_bus : Bus ℕ
countdown_bus = record {
  load = λ a n. if a == 0x30030004 then (if n == 0 then 4 else 0, n - 1) else (0, n);
  store = λ a v n. n;
}

abbrev soc : Soc
soc = record { base_addr = 0x30030000 }

countdown-Quiet : Quiet {S = ℕ} soc 2 2
unfolding fw_ready has_fw_fatal_error read_reg
countdown-Quiet = (refl, refl, (refl, refl, tt))

countdown-ready :
    ready {S = ℕ} soc (rounds soc 2 2) || Ready.failed {S = ℕ} soc (rounds soc 2 2) ≡ true
unfolding fw_ready has_fw_fatal_error read_reg
countdown-ready = refl

wait_for_firmware_ready-ends_example :
    wait_for_firmware_ready {S = ℕ} soc 9 2 ≡ ended soc (rounds soc 2 2)
wait_for_firmware_ready-ends_example =
    wait_for_firmware_ready-ends {S = ℕ} soc 2 9 2 (omega arith) countdown-Quiet countdown-ready

-- A mailbox whose state is the view itself.
abbrev length_of : Phase → ℕ
length_of (responding dlen) = dlen
length_of other = 0

instance abbrev phase_bus : Bus View
phase_bus = record {
  load = λ a v.
      if a == 0x30020014
      then (if v.wait == 0 then status_of v.phase else 0x01, record v { wait = v.wait - 1 })
      else if a == 0x30020008
      then (length_of v.phase, v)
      else if a == 0x30020010
      then (v.words 0, record v { words = λ n. v.words (suc n) })
      else (0, v);
  store = λ a x v. if a == 0x30020018 then record v { executing = false } else v;
}

phase_bus-IsMailbox : IsMailbox phase_bus 0x30020000 (λ v. v)
phase_bus-IsMailbox = record {
  load_status = λ v. refl;
  status_waits = λ v. refl;
  load_dlen = λ dlen v e. ap length_of e;
  load_dataout = λ v. (refl, refl);
  status_keeps = λ v. (refl, refl);
  dlen_keeps = λ v. (refl, refl);
  load_executing = λ a v. ground arith;
  store_execute = λ v. refl;
}

abbrev answering : Session View
answering = record {
  device = record { wait = 3; phase = responding 12; executing = true; words = λ n. 77 + n };
  soc = record {
    counter = 0;
    soc_ifc_addr = 0x30030000;
    soc_ifc_trng_addr = 0x30030000;
    soc_mbox_addr = 0x30020000;
  };
}

finish_mailbox_resp-answers_example :
    (t' : Session View) × (finish_mailbox_resp 8 12 answering
      ≡ (ok (some (respond 0x30020000 12 77)), t'))
    × (t'.device.executing ≡ true)
finish_mailbox_resp-answers_example =
    finish_mailbox_resp-answers phase_bus-IsMailbox 8 12 (responding 12) (λ n. 77 + n) true
      answering (omega arith) (omega arith) (refl, refl, refl, refl)
