-- ===== src/Rom/Env.antt =====
-- The ROM environment (rom/src/rom_env.cpp, rom/include/rom/rom_env.hpp) and the calls on its parts.
use mcu_fw_cpp.Prelude.{ℕ, some}
use mcu_fw_cpp.Error.{ok, Try}
use mcu_fw_cpp.Bus.{Hw}
use mcu_fw_cpp.Mci.{Mci}
use mcu_fw_cpp.Lifecycle.{Lifecycle}
use mcu_fw_cpp.Otp.{Otp}
use mcu_fw_cpp.I3c.{I3c}
use mcu_fw_cpp.SocManager.{CaliptraSoc, make_soc}

pub record McuMemoryMap : Type 0 where
  pub lc_offset : ℕ
  pub otp_offset : ℕ
  pub i3c_offset : ℕ
  pub soc_offset : ℕ
  pub mci_offset : ℕ
  pub mbox_offset : ℕ

abbrev pub g_mcu_memory_map : McuMemoryMap
g_mcu_memory_map = record {
  lc_offset = 0x70000400;
  otp_offset = 0x70000000;
  i3c_offset = 0x20004000;
  soc_offset = 0x30030000;
  mci_offset = 0x21000000;
  mbox_offset = 0x30020000;
}

pub record RomEnv : Type 0 where
  pub mci : Mci
  pub lc : Lifecycle
  pub otp : Otp
  pub i3c : I3c
  pub soc_manager : CaliptraSoc
  pub straps : ℕ

-- The constructor, over a memory map and the straps' value.
unfoldable pub make_env : McuMemoryMap → ℕ → RomEnv
unfolding make_soc
make_env map straps = record {
  mci = record { base_addr = map.mci_offset };
  lc = record { base_addr = map.lc_offset };
  otp = record { base_addr = map.otp_offset };
  i3c = record { base_addr = map.i3c_offset };
  soc_manager = make_soc (some map.soc_offset) (some map.soc_offset) (some map.mbox_offset);
  straps = straps;
}

-- The device and the environment that a flow works on.
pub record World (S : Type 0) : Type 0 where
  pub device : S
  pub env : RomEnv

module _ {S : Type 0} where
  abbrev pub with_device : World S → S → World S
  with_device w s = record { device = s; env = w.env }

  -- A call on a part of the environment that cannot fail, and one that can.
  abbrev pub on_env : {A : Type 0} → (RomEnv → Hw S A) → Try (World S) A
  on_env f w = let (a, s') = f w.env w.device in (ok a, with_device w s')

  abbrev pub try_env : {A : Type 0} → (RomEnv → Try S A) → Try (World S) A
  try_env f w = let (r, s') = f w.env w.device in (r, with_device w s')
