-- ===== src/Tests/Registers.antt =====
-- The theorems on registers and their stores at small inputs.
use mcu_fw_cpp.Prelude.{
  ℕ, ◌+◌, ◌*◌, ◌/◌, ◌%◌, ◌≡◌, ◌≢◌, refl, u32, bit_and, not32, arith, ◌==◌, ltb, leb, ◌&&◌,
  if◌then◌else◌, Bool, true, [], ◌∷◌, some, map, Bool-cases, inl, inr,
}
use mcu_fw_cpp.Prelude.Bits.{bit_and-le}
use mcu_fw_cpp.Bus.{Bus, reg}
use mcu_fw_cpp.Bus.Storage.{IsStorage, Memory, memory_bus, memory_bus-IsStorage, Holds}
use mcu_fw_cpp.Mci.{Mci, handle_interrupt}
use mcu_fw_cpp.Mci.Interrupt.{IsEvents, request_addr, events_addr, handle_interrupt-clears}
use mcu_fw_cpp.Lifecycle.{Lifecycle}
use mcu_fw_cpp.I3c.{I3c, read}
use mcu_fw_cpp.I3c.Receive.{read-received}
use mcu_fw_cpp.I3c.RxDevice.{RxDevice, rx_bus, rx_bus-IsRxFifo}
use mcu_fw_cpp.Otp.{Otp, reg_direct_access_addr, reg_direct_access_cmd}
use mcu_fw_cpp.Otp.Fuses.{View, IsController, fuse_bus}
use mcu_fw_cpp.Rom.Soc.{Soc, populate_fuses}
use mcu_fw_cpp.Rom.Soc.Programmed.{FuseReg, constants, populate_fuses-refines}

abbrev words : Memory
words a = if a == 0x20004000 then 0xa6 else a % 7

abbrev lifecycle : Lifecycle
lifecycle = record { base_addr = 0x70000400 }

abbrev i3c : I3c
i3c = record { base_addr = 0x20004000 }

-- Three bytes on their way, the first after one more load of the status.
abbrev receiving : RxDevice
receiving = record { coming = 65 ∷ 66 ∷ 67 ∷ []; stall = 1 }

read-received_example :
    (s' : RxDevice) × (read i3c 3 2 receiving
      ≡ some (
        map (λ b. b % 256) (65 ∷ 66 ∷ []),
        record { bytes_transferred = 2; success = true; error_code = 0 },
        s',
      ))
    × (s'.coming ≡ 67 ∷ [])
read-received_example =
    read-received i3c rx_bus-IsRxFifo 3 (65 ∷ 66 ∷ []) (67 ∷ []) receiving (omega arith)
      (omega arith) refl

-- An event register and a reset request register.
record Events : Type 0 where
  pending : ℕ
  request : ℕ

instance abbrev events_bus : Bus Events
events_bus = record {
  load = λ a s.
      if a == 0x21000104
      then (u32 s.pending, s)
      else if a == 0x21000034
      then (s.request, s)
      else (0, s);
  store = λ a v s.
      if a == 0x21000104
      then record s { pending = bit_and (u32 s.pending) (not32 v) }
      else if a == 0x21000034
      then record s { request = v }
      else s;
}

abbrev mci : Mci
mci = record { base_addr = 0x21000000 }

events_bus-IsEvents : IsEvents events_bus (events_addr mci) (λ s. u32 s.pending)
events_bus-IsEvents = record {
  pending_word = λ s. omega arith;
  load_pending = λ s. refl;
  load_keeps = λ s. refl;
  store_clears = λ v s. omega (arith, bit_and-le (u32 s.pending) (not32 v));
}

events_bus-IsStorage : IsStorage events_bus (λ a. a ≡ request_addr mci) (λ a s. s.request)
events_bus-IsStorage = record {
  load_cell = λ a s r. ground arith;
  load_keeps = λ a b s r. ground arith;
  store_cell = λ a v s r. ground arith;
  store_keeps = λ a b v s r ne. ground arith;
}

abbrev three_events : Events
three_events = record { pending = 7; request = 4 }

handle_interrupt-clears_example :
    (u32 (handle_interrupt mci three_events).1.pending ≡ (if 7 / 2 % 2 == 1 then 0 else 7))
    × ((handle_interrupt mci three_events).1.request
        ≡ (if 7 / 2 % 2 == 1 then u32 4 / 2 * 2 + 1 else 4))
handle_interrupt-clears_example =
    handle_interrupt-clears mci events_bus-IsEvents events_bus-IsStorage (λ s. refl) (λ w s. refl)
      three_events

-- A board with the fuse controller and, at the addresses of the SoC interface, a memory.
record Board : Type 0 where
  fuse_view : View
  memory : Memory

abbrev in_soc : ℕ → Bool
in_soc a = leb 0x30030100 a && ltb a 0x30030210

instance abbrev board_bus : Bus Board
board_bus = record {
  load = λ a s.
      if in_soc a
      then (s.memory a, s)
      else let (v, w) = fuse_bus.load a s.fuse_view in (v, record s { fuse_view = w });
  store = λ a v s.
      if in_soc a
      then record s { memory = memory_bus.store a v s.memory }
      else record s { fuse_view = fuse_bus.store a v s.fuse_view };
}

abbrev otp : Otp
otp = record { base_addr = 0x70000000 }

abbrev soc : Soc
soc = record { base_addr = 0x30030000 }

FuseReg-in_soc : (a : ℕ) → FuseReg soc a → in_soc a ≡ true
FuseReg-in_soc a (offset, low, high, e) = ground arith

board_load : (a b : ℕ) (s : Board) → (board_bus.load a s).1.memory b ≡ s.memory b
board_load a b s = elim (Bool-cases (in_soc a)) [ inl e ↦ rw e refl | inr e ↦ rw e refl ]

board_store : (a b v : ℕ) (s : Board) → a ≢ b → (board_bus.store a v s).memory b ≡ s.memory b
board_store a b v s ne = elim (Bool-cases (in_soc a)) [
  | inl e ↦ rw e (memory_bus-IsStorage.store_keeps a b v s.memory tt ne)
  | inr e ↦ rw e refl
]

soc_apart :
    (a : ℕ)
    → FuseReg soc a
    → (reg 0x70000000 reg_direct_access_addr ≢ a) × (reg 0x70000000 reg_direct_access_cmd ≢ a)
soc_apart a (offset, low, high, e) = (omega arith, omega arith)

board_bus-IsStorage : IsStorage board_bus (FuseReg soc) (λ a s. s.memory a)
board_bus-IsStorage = record {
  load_cell = λ a s r. rw (FuseReg-in_soc a r) refl;
  load_keeps = λ a b s r. board_load a b s;
  store_cell = λ a v s r. rw (FuseReg-in_soc a r) (memory_bus-IsStorage.store_cell a v s.memory tt);
  store_keeps = λ a b v s r ne. board_store a b v s ne;
}

board_bus-IsController : IsController board_bus otp (λ s. s.fuse_view) 2
board_bus-IsController = record {
  load_status = λ s. refl;
  status_waits = λ s. refl;
  load_rdata = λ s. refl;
  rdata_keeps = λ s. refl;
  store_addr = λ v s. refl;
  store_wdata = λ v s. refl;
  store_read = λ s. refl;
  store_write = λ s. refl;
}

-- Fuses whose words are 40 above their addresses, on a controller that is still busy for one poll.
abbrev board : Board
board = record {
  fuse_view = record { wait = 1; addr = 0; wdata = 0; rdata = 0; fuses = λ a. a + 40 };
  memory = λ a. 9;
}

populate_fuses-refines_example :
    Holds board_bus-IsStorage
      ((reg 0x30030000 0x144, u32 40) ∷ constants soc)
      (populate_fuses soc otp board).1
    × ((populate_fuses soc otp board).1.fuse_view.fuses ≡ board.fuse_view.fuses)
populate_fuses-refines_example =
    populate_fuses-refines soc otp board_bus-IsStorage soc_apart board_bus-IsController
      (omega arith) (λ a v s r. rw (FuseReg-in_soc a r) refl) board (omega arith)
