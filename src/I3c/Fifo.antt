-- ===== src/I3c/Fifo.antt =====
-- The transmit loop of the I3C driver on a FIFO that drains.
use mcu_fw_cpp.Prelude.{
  ℕ, zero, suc, ◌+◌, ◌≤◌, ◌<◌, ◌≡◌, refl, sym, ap, ◌∙◌, u32, bit_and, arith, leb, ltb, ltb-cases,
  ◌-◌, ◌==◌, if◌then◌else◌, Bool, Bool-cases, true, false, inl, inr, List, [], ◌∷◌, ◌++◌, map,
  length, append-nil, append-step, Option, none, some,
}
use mcu_fw_cpp.Prelude.Bits.{bit_and-le}
use mcu_fw_cpp.Bus.{Bus, reg, read_reg, write_reg}
use mcu_fw_cpp.I3c.{
  I3c, I3cTransferResult, count_byte, nothing_transferred, reg_tx_fifo, reg_tx_fifo_status,
  tx_fifo_depth, tx_fifo_level, wait_tx, write_from, write,
}

-- The documented behaviour of the transmit FIFO: a store to it sends one more byte, in order, if the
-- FIFO has room, and of a store without room nothing is known; a load of its status changes nothing
-- that was sent, and shows room only if there is some; a full FIFO has room again after `stall`
-- loads, and after a store with room those are at most `latency`.
pub record IsTxFifo {S : Type 0} (bus : Bus S) (c : I3c) (sent : S → List ℕ) (room : S → Type 0)
    (stall : S → ℕ) (latency : ℕ) : Type 0 where
  pub load_shows :
      (s : S)
      → leb tx_fifo_depth (bit_and (u32 (bus.load (reg c.base_addr reg_tx_fifo_status) s).0) 0x1f)
        ≡ false
      → room (bus.load (reg c.base_addr reg_tx_fifo_status) s).1
  pub load_drains :
      (s : S)
      → leb tx_fifo_depth (bit_and (u32 (bus.load (reg c.base_addr reg_tx_fifo_status) s).0) 0x1f)
        ≡ true
      → stall (bus.load (reg c.base_addr reg_tx_fifo_status) s).1 < stall s
  pub load_keeps : (s : S) → sent (bus.load (reg c.base_addr reg_tx_fifo_status) s).1 ≡ sent s
  pub store_sends :
      (v : ℕ) (s : S)
      → room s
      → sent (bus.store (reg c.base_addr reg_tx_fifo) v s) ≡ sent s ++ v ∷ []
  pub store_stalls :
      (v : ℕ) (s : S) → room s → stall (bus.store (reg c.base_addr reg_tx_fifo) v s) ≤ latency

-- The result after `count` more bytes.
abbrev pub advance : ℕ → I3cTransferResult → I3cTransferResult
advance count r = record r { bytes_transferred = r.bytes_transferred + count }

module _ {S : Type 0} ⦃bus : Bus S⦄ (c : I3c) {sent : S → List ℕ} {room : S → Type 0}
    {stall : S → ℕ} {latency : ℕ} (d : IsTxFifo bus c sent room stall latency) where
  -- One status load: whether the FIFO was full, and the state after it.
  abbrev full : S → Bool
  full s =
      leb tx_fifo_depth (bit_and (u32 (bus.load (reg c.base_addr reg_tx_fifo_status) s).0) 0x1f)

  abbrev polled : S → S
  polled s = (bus.load (reg c.base_addr reg_tx_fifo_status) s).1

  wait_tx-poll :
      (fuel : ℕ) (s : S) (b : Bool)
      → full s ≡ b
      → wait_tx c (suc fuel) s
        ≡ elim b [ true ↦ wait_tx c fuel (polled s) | false ↦ some (polled s) ]
  unfolding wait_tx tx_fifo_level read_reg
  wait_tx-poll fuel s b h =
      ap (λ (b : Bool). elim b [ true ↦ wait_tx c fuel (polled s) | false ↦ some (polled s) ]) h

  wait_tx-room :
      (fuel : ℕ) (s : S)
      → stall s < fuel
      → (s' : S) × (wait_tx c fuel s ≡ some s') × (sent s' ≡ sent s) × room s'
  wait_tx-room zero s h = absurd (omega arith)
  wait_tx-room (suc fuel) s h = elim (Bool-cases (full s)) [
    | inl busy ↦
        let drains = d.load_drains s busy in
        let (s', e, keeps, free) = wait_tx-room fuel (polled s) (omega arith) in
        (s', wait_tx-poll fuel s true busy ∙ e, keeps ∙ d.load_keeps s, free)
    | inr shown ↦ (polled s, wait_tx-poll fuel s false shown, d.load_keeps s, d.load_shows s shown)
  ]

  abbrev send_rest : ℕ → ℕ → List ℕ → I3cTransferResult → Option S → Option (I3cTransferResult × S)
  send_rest fuel byte rest r o = elim o [
    | none ↦ none
    | some s' ↦ write_from c fuel rest (count_byte r) (write_reg c.base_addr reg_tx_fifo byte s').1
  ]

  write_from-sent :
      (fuel : ℕ) (bytes : List ℕ) (r : I3cTransferResult) (s : S)
      → latency < fuel
      → stall s ≤ latency
      → (s' : S) × (write_from c fuel bytes r s ≡ some (advance (length bytes) r, s'))
        × (sent s' ≡ sent s ++ map u32 bytes)
  unfolding write_from write_reg
  write_from-sent fuel [] r s enough h = (
    s,
    ap (λ (n : ℕ). some (record r { bytes_transferred = n }, s)) (omega arith),
    sym (append-nil (sent s)),
  )
  write_from-sent fuel (byte ∷ rest) r s enough h =
      let (s₁, e₁, keeps, free) = wait_tx-room fuel s (omega arith) in
      let s₂ = bus.store (reg c.base_addr reg_tx_fifo) (u32 byte) s₁ in
      let (s₃, e₃, more) =
        write_from-sent fuel rest (count_byte r) s₂ enough (d.store_stalls (u32 byte) s₁ free) in
      (
        s₃,
        ap (send_rest fuel byte rest r) e₁
            ∙ e₃
            ∙ ap (λ (n : ℕ). some (record r { bytes_transferred = n }, s₃)) (omega arith),
        more
            ∙ ap (λ (l : List ℕ). l ++ map u32 rest) (d.store_sends (u32 byte) s₁ free)
            ∙ append-step (sent s₁) (u32 byte) (map u32 rest)
            ∙ ap (λ (l : List ℕ). l ++ u32 byte ∷ map u32 rest) keeps,
      )

  -- On a transmit FIFO that takes a byte only while it has room, and has room again after at most
  -- `latency` status loads, `write` with more polls than that for each byte returns: it has sent
  -- every byte of the buffer, in order and once, after what was sent before, and answers success
  -- with the number of bytes.
  pub write-sent :
      (fuel : ℕ) (bytes : List ℕ) (s : S)
      → latency < fuel
      → stall s ≤ latency
      → (s' : S) × (write c fuel bytes s
          ≡ some (record { bytes_transferred = length bytes; success = true; error_code = 0 }, s'))
        × (sent s' ≡ sent s ++ map u32 bytes)
  unfolding write
  write-sent fuel bytes s enough h =
      let (s', e, more) = write_from-sent fuel bytes nothing_transferred s enough h in
      (
        s',
        e
            ∙ ap (λ (n : ℕ). some (record nothing_transferred { bytes_transferred = n }, s'))
                (omega arith),
        more,
      )

-- A FIFO at one base address: what was sent, newest last, and the bytes that still wait in it.
pub record TxDevice : Type 0 where
  pub sent : List ℕ
  pub level : ℕ

-- Every load of the status lets one byte go; a byte stored into a full FIFO is lost.
instance abbrev pub fifo_bus : Bus TxDevice
fifo_bus = record {
  load = λ a s.
      if a == 0x20004018
      then (if ltb s.level 16 then s.level else 16, record s { level = s.level - 1 })
      else (0, s);
  store = λ a v s.
      if a == 0x20004010
      then if ltb s.level 16 then record { sent = s.sent ++ v ∷ []; level = s.level + 1 } else s
      else s;
}

shows_room :
    (level : ℕ)
    → leb tx_fifo_depth (bit_and (u32 (if ltb level 16 then level else 16)) 0x1f) ≡ false
    → level - 1 < 16
shows_room level shown = elim (ltb-cases level 16) [
  | inl (t, lt) ↦ omega arith
  | inr (t, le) ↦
      let same : (if ltb level 16 then level else 16) ≡ 16 = rw t refl in
      absurd (
        ground (arith, sym (ap (λ (n : ℕ). leb tx_fifo_depth (bit_and (u32 n) 0x1f)) same) ∙ shown))
]

is_free : (s : TxDevice) → s.level < 16 → ltb s.level 16 ≡ true
is_free s free = ground arith

pub fifo_bus-IsTxFifo :
    IsTxFifo fifo_bus
      (record { base_addr = 0x20004000 })
      (λ s. s.sent)
      (λ s. s.level < 16)
      (λ s. s.level - 15)
      1
fifo_bus-IsTxFifo = record {
  load_shows = λ s shown. shows_room s.level shown;
  load_drains = λ s full. ground (arith, bit_and-le (u32 s.level) 0x1f);
  load_keeps = λ s. refl;
  store_sends = λ v s free. rw (is_free s free) refl;
  store_stalls = λ v s free. ground arith;
}
