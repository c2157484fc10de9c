-- ===== src/I3c/RxDevice.antt =====
-- A device with a receive FIFO.
use mcu_fw_cpp.Prelude.{
  ℕ, zero, suc, ◌-◌, ◌≤◌, ◌<◌, ◌≡◌, ◌≢◌, refl, u32, bit_and, arith, ◌==◌, if◌then◌else◌, true,
  false, List, [], ◌∷◌,
}
use mcu_fw_cpp.Bus.{Bus}
use mcu_fw_cpp.I3c.Receive.{IsRxFifo}

-- A FIFO at one base address: the bytes still to come, and the status loads until the first of them
-- shows.
pub record RxDevice : Type 0 where
  pub coming : List ℕ
  pub stall : ℕ

abbrev arrived : RxDevice → ℕ
arrived s = elim s.coming [ [] ↦ 0 | byte ∷ rest ↦ if s.stall == 0 then 1 else 0 ]

abbrev pop : RxDevice → ℕ × RxDevice
pop s = elim s.coming [
  | [] ↦ (0, record s { stall = 2 })
  | byte ∷ rest ↦ (byte, record { coming = rest; stall = 2 })
]

instance abbrev pub rx_bus : Bus RxDevice
rx_bus = record {
  load = λ a s.
      if a == 0x2000401c
      then (arrived s, record s { stall = s.stall - 1 })
      else if a == 0x20004014
      then pop s
      else (0, s);
  store = λ a v s. s;
}

waits_at :
    (coming : List ℕ) (stall : ℕ)
    → coming ≢ []
    → (bit_and (u32 (arrived (record { coming = coming; stall = stall }))) 0x1f == 0) ≡ true
    → stall - 1 < stall
waits_at [] stall more missing = absurd (more refl)
waits_at (byte ∷ rest) zero more missing = cc
waits_at (byte ∷ rest) (suc stall) more missing = omega arith

pops :
    (s : RxDevice) (byte : ℕ) (rest : List ℕ)
    → s.coming ≡ byte ∷ rest
    → (bit_and (u32 (arrived s)) 0x1f == 0) ≡ false
    → ((pop (record s { stall = s.stall - 1 })).0 ≡ byte)
      × ((pop (record s { stall = s.stall - 1 })).1.coming ≡ rest)
pops s byte rest e shows = ground arith

stalls : (s : RxDevice) → (pop s).1.stall ≤ 2
stalls s = ground arith

pub rx_bus-IsRxFifo :
    IsRxFifo rx_bus (record { base_addr = 0x20004000 }) (λ s. s.coming) (λ s. s.stall) 2
rx_bus-IsRxFifo = record {
  status_keeps = λ s. refl;
  status_waits = λ s more missing. waits_at s.coming s.stall more missing;
  load_pops = pops;
  load_stalls = stalls;
}
