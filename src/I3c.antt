-- ===== src/I3c.antt =====
-- The I3C target driver (rom/src/i3c.cpp, rom/include/rom/i3c.hpp).
pub mod Fifo
pub mod Receive
pub mod RxDevice
pub mod Control
use mcu_fw_cpp.Prelude.{
  ℕ, zero, suc, ◌+◌, u8, bit_and, any_set, Bool, true, false, List, [], ◌∷◌, ◌++◌, Option, none,
  some, ◌==◌, leb,
}
use mcu_fw_cpp.Bus.{Bus, Hw, ◌>>=◌, ◌>>◌, pure, read_reg, write_reg, modify_reg}
use mcu_fw_cpp.Error.{McuResult, ok}

pub data I3cDirection : Type 0 where
  write_direction read_direction : I3cDirection

pub record I3c : Type 0 where
  pub base_addr : ℕ

pub record I3cTransferResult : Type 0 where
  pub bytes_transferred : ℕ
  pub success : Bool
  pub error_code : ℕ

abbrev pub reg_ctrl : ℕ
reg_ctrl = 0x00

abbrev pub reg_status : ℕ
reg_status = 0x04

abbrev pub reg_dynamic_addr : ℕ
reg_dynamic_addr = 0x08

abbrev pub reg_tx_fifo : ℕ
reg_tx_fifo = 0x10

abbrev pub reg_rx_fifo : ℕ
reg_rx_fifo = 0x14

abbrev pub reg_tx_fifo_status : ℕ
reg_tx_fifo_status = 0x18

abbrev pub reg_rx_fifo_status : ℕ
reg_rx_fifo_status = 0x1c

abbrev pub reg_intr_status : ℕ
reg_intr_status = 0x20

abbrev pub ctrl_enable : ℕ
ctrl_enable = 0x01

abbrev pub ctrl_tx_fifo_rst : ℕ
ctrl_tx_fifo_rst = 0x02

abbrev pub ctrl_rx_fifo_rst : ℕ
ctrl_rx_fifo_rst = 0x04

abbrev pub status_transfer_pending : ℕ
status_transfer_pending = 0x01

abbrev pub tx_fifo_depth : ℕ
tx_fifo_depth = 16

-- `{0, true, 0}`
abbrev pub nothing_transferred : I3cTransferResult
nothing_transferred = record { bytes_transferred = 0; success = true; error_code = 0 }

-- `result.bytes_transferred++`
abbrev pub count_byte : I3cTransferResult → I3cTransferResult
count_byte r = record r { bytes_transferred = r.bytes_transferred + 1 }

module _ {S : Type 0} ⦃bus : Bus S⦄ (c : I3c) where
  unfoldable pub is_enabled : Hw S Bool
  is_enabled = do v ← read_reg c.base_addr reg_ctrl; pure (any_set v ctrl_enable)

  unfoldable pub enable : Hw S (Unit {0})
  enable = modify_reg c.base_addr reg_ctrl ctrl_enable ctrl_enable

  unfoldable pub disable : Hw S (Unit {0})
  disable = modify_reg c.base_addr reg_ctrl ctrl_enable 0

  unfoldable pub set_dynamic_address : ℕ → Hw S (Unit {0})
  set_dynamic_address addr = write_reg c.base_addr reg_dynamic_addr addr

  unfoldable pub dynamic_address : Hw S ℕ
  dynamic_address = do v ← read_reg c.base_addr reg_dynamic_addr; pure (u8 (bit_and v 0x7f))

  unfoldable pub is_transfer_pending : Hw S Bool
  is_transfer_pending = do
    v ← read_reg c.base_addr reg_status
    pure (any_set v status_transfer_pending)

  unfoldable pub tx_fifo_level : Hw S ℕ
  tx_fifo_level = do v ← read_reg c.base_addr reg_tx_fifo_status; pure (bit_and v 0x1f)

  unfoldable pub rx_fifo_level : Hw S ℕ
  rx_fifo_level = do v ← read_reg c.base_addr reg_rx_fifo_status; pure (bit_and v 0x1f)

  unfoldable pub clear_tx_fifo : Hw S (Unit {0})
  clear_tx_fifo = do
    modify_reg c.base_addr reg_ctrl ctrl_tx_fifo_rst ctrl_tx_fifo_rst
    modify_reg c.base_addr reg_ctrl ctrl_tx_fifo_rst 0

  unfoldable pub clear_rx_fifo : Hw S (Unit {0})
  clear_rx_fifo = do
    modify_reg c.base_addr reg_ctrl ctrl_rx_fifo_rst ctrl_rx_fifo_rst
    modify_reg c.base_addr reg_ctrl ctrl_rx_fifo_rst 0

  unfoldable pub init : Hw S (McuResult (Unit {0}))
  unfolding clear_tx_fifo clear_rx_fifo enable
  init = do clear_tx_fifo; clear_rx_fifo; enable; pure (ok tt)

  unfoldable pub handle_interrupt : Hw S (Unit {0})
  handle_interrupt = do
    intr_status ← read_reg c.base_addr reg_intr_status
    write_reg c.base_addr reg_intr_status intr_status

  -- The two waiting loops have no bound: `none` is a wait that outlasts the fuel.
  unfoldable pub wait_tx : ℕ → S → Option S
  unfolding tx_fifo_level
  wait_tx zero s = none
  wait_tx (suc fuel) s =
      let (level, s') = tx_fifo_level s in
      elim (leb tx_fifo_depth level) [ true ↦ wait_tx fuel s' | false ↦ some s' ]

  unfoldable pub wait_rx : ℕ → S → Option S
  unfolding rx_fifo_level
  wait_rx zero s = none
  wait_rx (suc fuel) s =
      let (level, s') = rx_fifo_level s in
      elim (level == 0) [ true ↦ wait_rx fuel s' | false ↦ some s' ]

  unfoldable pub write_from : ℕ → List ℕ → I3cTransferResult → S → Option (I3cTransferResult × S)
  write_from fuel [] result s = some (result, s)
  write_from fuel (byte ∷ rest) result s = elim (wait_tx fuel s) [
    | none ↦ none
    | some s' ↦
        write_from fuel rest (count_byte result) (write_reg c.base_addr reg_tx_fifo byte s').1
  ]

  -- With `fuel` polls for each byte.
  unfoldable pub write : ℕ → List ℕ → S → Option (I3cTransferResult × S)
  unfolding write_from
  write fuel bytes = write_from fuel bytes nothing_transferred

  -- The bytes read so far stand in `buffer`.
  unfoldable pub read_from :
      ℕ → ℕ → List ℕ → I3cTransferResult → S → Option (List ℕ × I3cTransferResult × S)
  read_from fuel zero buffer result s = some (buffer, result, s)
  read_from fuel (suc count) buffer result s = elim (wait_rx fuel s) [
    | none ↦ none
    | some s' ↦
        let (v, s'') = read_reg c.base_addr reg_rx_fifo s' in
        read_from fuel count (buffer ++ u8 (bit_and v 0xff) ∷ []) (count_byte result) s''
  ]

  unfoldable pub read : ℕ → ℕ → S → Option (List ℕ × I3cTransferResult × S)
  unfolding read_from
  read fuel size = read_from fuel size [] nothing_transferred
