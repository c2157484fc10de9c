-- ===== src/Otp/Fuses.antt =====
-- The OTP controller as the driver relies on it: an array of fuse words behind the direct access
-- registers; and a device with such a controller.
use mcu_fw_cpp.Prelude.{ℕ, ◌-◌, ◌≡◌, refl, bit_or, ◌==◌, if◌then◌else◌}
use mcu_fw_cpp.Bus.{Bus, reg}
use mcu_fw_cpp.Otp.{
  Otp, reg_status, reg_direct_access_cmd, reg_direct_access_addr, reg_direct_access_wdata_0,
  reg_direct_access_rdata_0, cmd_read, cmd_write,
}

-- The words of the fuse array by address.
abbrev pub Fuses : Type 0
Fuses = ℕ → ℕ

-- Programming a word can only set bits.
abbrev pub burn : ℕ → ℕ → Fuses → Fuses
burn a v f b = if a == b then bit_or (f b) v else f b

-- What the driver can tell of the controller: the polls until it is idle, the direct access
-- registers, and the fuses.
pub record View : Type 0 where
  pub wait : ℕ
  pub addr : ℕ
  pub wdata : ℕ
  pub rdata : ℕ
  pub fuses : Fuses

-- The documented behaviour of a controller without faults, which is idle again `latency` polls
-- after a command.
pub record IsController {S : Type 0} (bus : Bus S) (o : Otp) (view : S → View) (latency : ℕ)
    : Type 0 where
  pub load_status :
      (s : S) → (bus.load (reg o.base_addr reg_status) s).0 ≡ (if (view s).wait == 0 then 1 else 0)
  pub status_waits :
      (s : S)
      → view (bus.load (reg o.base_addr reg_status) s).1
        ≡ record (view s) { wait = (view s).wait - 1 }
  pub load_rdata :
      (s : S) → (bus.load (reg o.base_addr reg_direct_access_rdata_0) s).0 ≡ (view s).rdata
  pub rdata_keeps :
      (s : S) → view (bus.load (reg o.base_addr reg_direct_access_rdata_0) s).1 ≡ view s
  pub store_addr :
      (v : ℕ) (s : S)
      → view (bus.store (reg o.base_addr reg_direct_access_addr) v s) ≡ record (view s) { addr = v }
  pub store_wdata :
      (v : ℕ) (s : S)
      → view (bus.store (reg o.base_addr reg_direct_access_wdata_0) v s)
        ≡ record (view s) { wdata = v }
  pub store_read :
      (s : S)
      → view (bus.store (reg o.base_addr reg_direct_access_cmd) cmd_read s)
        ≡ record (view s) { rdata = (view s).fuses (view s).addr; wait = latency }
  pub store_write :
      (s : S)
      → view (bus.store (reg o.base_addr reg_direct_access_cmd) cmd_write s) ≡ record (view s) {
        fuses = burn (view s).addr (view s).wdata (view s).fuses;
        wait = latency;
      }

-- A controller at one base address, busy for two polls after a command.
abbrev pub fuse_base : ℕ
fuse_base = 0x70000000

abbrev run_command : ℕ → View → View
run_command c s =
    if c == 1
    then record s { rdata = s.fuses s.addr; wait = 2 }
    else if c == 2
    then record s { fuses = burn s.addr s.wdata s.fuses; wait = 2 }
    else s

instance abbrev pub fuse_bus : Bus View
fuse_bus = record {
  load = λ a s.
      if a == 0x70000000
      then (if s.wait == 0 then 1 else 0, record s { wait = s.wait - 1 })
      else if a == 0x70000018
      then (s.rdata, s)
      else (0, s);
  store = λ a v s.
      if a == 0x70000008
      then run_command v s
      else if a == 0x7000000c
      then record s { addr = v }
      else if a == 0x70000010
      then record s { wdata = v }
      else s;
}

pub fuse_bus-IsController : IsController fuse_bus (record { base_addr = fuse_base }) (λ s. s) 2
fuse_bus-IsController = record {
  load_status = λ s. refl;
  status_waits = λ s. refl;
  load_rdata = λ s. refl;
  rdata_keeps = λ s. refl;
  store_addr = λ v s. refl;
  store_wdata = λ v s. refl;
  store_read = λ s. refl;
  store_write = λ s. refl;
}
