-- ===== src/Tests/Fatal.antt =====
-- The theorems on the fatal error path, the mailbox users and the bit flags at small inputs.
use mcu_fw_cpp.Prelude.{◌≡◌, [], ◌∷◌, none}
use mcu_fw_cpp.Bus.{stores}
use mcu_fw_cpp.Bus.Storage.{Memory, memory_bus, memory_bus-IsStorage, narrow}
use mcu_fw_cpp.Romtime.Console.{Console}
use mcu_fw_cpp.Rom.Fatal.Exception.{exception_text, said, exception_handler-stores}
use mcu_fw_cpp.Rom.Fatal.{
  Trap, exception_handler, fatal_error_raw, main_globals, mci_fatal, emu_exit,
}
use mcu_fw_cpp.Rom.Fatal.Reported.{spoken, fatal_error_raw-stores, fatal_error_raw-cells}

abbrev zeroed : Memory
zeroed a = 0

fatal_error_raw-stores_example :
    fatal_error_raw main_globals 0x701 zeroed
    ≡ stores ((mci_fatal, 0x701) ∷ (emu_exit, 0x701) ∷ []) (spoken 0x701 zeroed)
fatal_error_raw-stores_example = fatal_error_raw-stores 0x701 zeroed

abbrev silent : Console Memory
silent = record { g_writer = none; g_exiter = none }

fatal_error_raw-cells_example :
    (fatal_error_raw main_globals 0x701 zeroed 0x21000020 ≡ 0x701)
    × (fatal_error_raw main_globals 0x701 zeroed 0x10002000 ≡ 0x701)
    × (fatal_error_raw main_globals 0x701 zeroed 0x2100000c ≡ 0)
    × (fatal_error_raw
          (record { console = silent; g_fatal_error_handler = none })
          0x701
          zeroed
          0x21000020
        ≡ 0)
    × (fatal_error_raw
          (record { console = silent; g_fatal_error_handler = none })
          0x701
          zeroed
          0x10002000
        ≡ 0)
    × (fatal_error_raw
          (record { console = silent; g_fatal_error_handler = none })
          0x701
          zeroed
          0x2100000c
        ≡ 0x701)
fatal_error_raw-cells_example =
    fatal_error_raw-cells (narrow (λ a r. tt) memory_bus-IsStorage) 0x701 silent zeroed

-- A load from an address that is not aligned.
abbrev misaligned : Trap Memory
misaligned = record {
  read_csr_mcause = λ s. (4, s);
  read_csr_mepc = λ s. (0x40000010, s);
  read_csr_mscratch = λ s. (0x50000000, s);
  read_ra = λ s. (0x40000004, s);
}

exception_handler-stores_example :
    exception_handler misaligned main_globals zeroed
    ≡ stores
        ((mci_fatal, 1) ∷ (emu_exit, 1) ∷ [])
        (spoken 1 (said (exception_text 4 0x40000010 0x50000000 0x40000004) zeroed))
exception_handler-stores_example = exception_handler-stores misaligned zeroed
