-- ===== src/I3c/Receive.antt =====
-- The receive loop of the I3C driver on a FIFO that fills.
use mcu_fw_cpp.Prelude.{
  ℕ, zero, suc, ◌%◌, ◌≤◌, ◌<◌, ◌≡◌, ◌≢◌, refl, ap, sym, ◌∙◌, u8, u32, bit_and, arith, ◌==◌, Bool,
  Bool-cases, true, false, inl, inr, List, [], ◌∷◌, ◌++◌, map, length, append-step, append-nil,
  Option, none, some,
}
use mcu_fw_cpp.Prelude.Masks.{bit_and-mod}
use mcu_fw_cpp.Bus.{Bus, reg, read_reg}
use mcu_fw_cpp.I3c.Fifo.{advance}
use mcu_fw_cpp.I3c.{
  I3c, I3cTransferResult, count_byte, nothing_transferred, reg_rx_fifo, reg_rx_fifo_status,
  rx_fifo_level, wait_rx, read_from, read,
}

-- The documented behaviour of the receive FIFO. `coming` are the bytes that the host has sent and
-- the driver has not read yet, in order. A load of the status takes none of them; where it shows an
-- empty FIFO and bytes are still to come, they arrive after `stall` more loads, never more than
-- `latency`. A load of the FIFO after a status that shows a byte takes the first of them.
pub record IsRxFifo {S : Type 0} (bus : Bus S) (c : I3c) (coming : S → List ℕ) (stall : S → ℕ)
    (latency : ℕ) : Type 0 where
  pub status_keeps : (s : S) → coming (bus.load (reg c.base_addr reg_rx_fifo_status) s).1 ≡ coming s
  pub status_waits :
      (s : S)
      → coming s ≢ []
      → (bit_and (u32 (bus.load (reg c.base_addr reg_rx_fifo_status) s).0) 0x1f == 0) ≡ true
      → stall (bus.load (reg c.base_addr reg_rx_fifo_status) s).1 < stall s
  pub load_pops :
      (s : S) (byte : ℕ) (rest : List ℕ)
      → coming s ≡ byte ∷ rest
      → (bit_and (u32 (bus.load (reg c.base_addr reg_rx_fifo_status) s).0) 0x1f == 0) ≡ false
      → let s' = (bus.load (reg c.base_addr reg_rx_fifo_status) s).1 in
        ((bus.load (reg c.base_addr reg_rx_fifo) s').0 ≡ byte)
        × (coming (bus.load (reg c.base_addr reg_rx_fifo) s').1 ≡ rest)
  pub load_stalls : (s : S) → stall (bus.load (reg c.base_addr reg_rx_fifo) s).1 ≤ latency

low_byte : (b : ℕ) → u8 (bit_and (u32 b) 0xff) ≡ b % 256
low_byte b = ap u8 (bit_and-mod 8 (u32 b)) ∙ omega arith

module _ {S : Type 0} ⦃bus : Bus S⦄ (c : I3c) {coming : S → List ℕ} {stall : S → ℕ} {latency : ℕ}
    (d : IsRxFifo bus c coming stall latency) where
  -- One status load: whether the FIFO was empty, and the state after it.
  abbrev shows_empty : S → Bool
  shows_empty s = bit_and (u32 (bus.load (reg c.base_addr reg_rx_fifo_status) s).0) 0x1f == 0

  abbrev polled : S → S
  polled s = (bus.load (reg c.base_addr reg_rx_fifo_status) s).1

  wait_rx-poll :
      (fuel : ℕ) (s : S) (b : Bool)
      → shows_empty s ≡ b
      → wait_rx c (suc fuel) s
        ≡ elim b [ true ↦ wait_rx c fuel (polled s) | false ↦ some (polled s) ]
  unfolding wait_rx rx_fifo_level read_reg
  wait_rx-poll fuel s b h =
      ap (λ (b : Bool). elim b [ true ↦ wait_rx c fuel (polled s) | false ↦ some (polled s) ]) h

  -- The wait ends with a status load that shows a byte.
  wait_rx-arrives :
      (fuel : ℕ) (s : S)
      → coming s ≢ []
      → stall s < fuel
      → (t : S) × (wait_rx c fuel s ≡ some (polled t))
        × (shows_empty t ≡ false)
        × (coming t ≡ coming s)
  wait_rx-arrives zero s more h = absurd (omega arith)
  wait_rx-arrives (suc fuel) s more h = elim (Bool-cases (shows_empty s)) [
    | inl waits ↦
        let sooner = d.status_waits s more waits in
        let (t, e, shows, keeps) =
          wait_rx-arrives fuel (polled s) (λ none_left. more (sym (d.status_keeps s) ∙ none_left))
            (omega arith) in
        (t, wait_rx-poll fuel s true waits ∙ e, shows, keeps ∙ d.status_keeps s)
    | inr shows ↦ (s, wait_rx-poll fuel s false shows, shows, refl)
  ]

  abbrev take_rest :
      ℕ → ℕ → List ℕ → I3cTransferResult → Option S → Option (List ℕ × I3cTransferResult × S)
  take_rest fuel count buffer r o = elim o [
    | none ↦ none
    | some s' ↦
        let (v, s'') = read_reg c.base_addr reg_rx_fifo s' in
        read_from c fuel count (buffer ++ u8 (bit_and v 0xff) ∷ []) (count_byte r) s''
  ]

  read_from-received :
      (fuel : ℕ) (bytes rest buffer : List ℕ) (r : I3cTransferResult) (s : S)
      → latency < fuel
      → stall s ≤ latency
      → coming s ≡ bytes ++ rest
      → (s' : S) × (read_from c fuel (length bytes) buffer r s
          ≡ some (buffer ++ map (λ b. b % 256) bytes, advance (length bytes) r, s'))
        × (coming s' ≡ rest)
  unfolding read_from read_reg
  read_from-received fuel [] rest buffer r s enough h e = (
    s,
    ap (λ (n : ℕ). some (buffer, record r { bytes_transferred = n }, s)) (omega arith)
        ∙ ap (λ (l : List ℕ). some (l, advance 0 r, s)) (sym (append-nil buffer)),
    e,
  )
  read_from-received fuel (byte ∷ bytes) rest buffer r s enough h e =
      let (t, e₁, shows, keeps) = wait_rx-arrives fuel s (λ none_left. cc) (omega arith) in
      let (value, left) = d.load_pops t byte (bytes ++ rest) (keeps ∙ e) shows in
      let s₂ = (bus.load (reg c.base_addr reg_rx_fifo) (polled t)).1 in
      let (s₃, e₃, last) =
        read_from-received fuel bytes rest (buffer ++ (byte % 256) ∷ []) (count_byte r) s₂ enough
          (d.load_stalls (polled t)) left in
      (
        s₃,
        ap (take_rest fuel (length bytes) buffer r) e₁
            ∙ ap (λ (b : ℕ). read_from c fuel (length bytes) (buffer ++ b ∷ []) (count_byte r) s₂)
                (ap (λ (b : ℕ). u8 (bit_and (u32 b) 0xff)) value ∙ low_byte byte)
            ∙ e₃
            ∙ ap
                (λ (n : ℕ). some (
                  (buffer ++ (byte % 256) ∷ []) ++ map (λ b. b % 256) bytes,
                  record r { bytes_transferred = n },
                  s₃,
                ))
                (omega arith)
            ∙ ap (λ (l : List ℕ). some (l, advance (length (byte ∷ bytes)) r, s₃))
                (append-step buffer (byte % 256) (map (λ b. b % 256) bytes)),
        last,
      )

  -- On a receive FIFO to which the bytes that are still to come arrive within `latency` status
  -- loads each, `read` with more polls than that for each byte returns: where the first bytes to
  -- come are as many as the buffer takes, it returns the low eight bits of exactly these, in order,
  -- answers success with their number, and leaves the bytes after them in the FIFO.
  pub read-received :
      (fuel : ℕ) (bytes rest : List ℕ) (s : S)
      → latency < fuel
      → stall s ≤ latency
      → coming s ≡ bytes ++ rest
      → (s' : S) × (read c fuel (length bytes) s
          ≡ some (
            map (λ b. b % 256) bytes,
            record { bytes_transferred = length bytes; success = true; error_code = 0 },
            s',
          ))
        × (coming s' ≡ rest)
  unfolding read
  read-received fuel bytes rest s enough h e =
      let (s', run, last) =
        read_from-received fuel bytes rest [] nothing_transferred s enough h e in
      (
        s',
        run
            ∙ ap
                (λ (n : ℕ). some (
                  map (λ b. b % 256) bytes,
                  record { bytes_transferred = n; success = true; error_code = 0 },
                  s',
                ))
                (omega arith),
        last,
      )
