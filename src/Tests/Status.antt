-- ===== src/Tests/Status.antt =====
-- The theorem on what the flow status register tells, at a small input.
use mcu_fw_cpp.Prelude.{◌≡◌, ◌↔◌, ◌||◌, ◌==◌, List, [], ◌∷◌, none, some, if◌then◌else◌}
use mcu_fw_cpp.Bus.Storage.{Memory, memory_bus, memory_bus-IsStorage}
use mcu_fw_cpp.Mci.{Mci, flow_checkpoint, flow_milestone}
use mcu_fw_cpp.Mci.FlowStatus.History.{apply_all}
use mcu_fw_cpp.Rom.BootStatus.{
  McuRomBootStatus, status_code, reset_reason_detected, cold_boot_flow_started, BootMilestone,
  milestone_bit, cptra_boot_go_asserted, contains,
}
use mcu_fw_cpp.Rom.BootStatus.Observed.{
  Report, status, milestone, entries, last_status, is_reported, flow_status-observed,
}

abbrev mci : Mci
mci = record { base_addr = 0x21000000 }

-- The milestone 0x20 stands in the register.
abbrev registers : Memory
registers a = if a == 0x21000008 then 0x00200041 else 0

abbrev reports : List Report
reports =
    status reset_reason_detected
    ∷ milestone BootMilestone.rom_started
    ∷ status cold_boot_flow_started
    ∷ milestone cptra_boot_go_asserted
    ∷ []

flow_status-observed_example :
    ((st other : McuRomBootStatus)
      → last_status reports none ≡ some st
      → ((flow_checkpoint mci (apply_all mci (entries reports) registers)).0 ≡ status_code other)
        ↔ (other ≡ st))
    × ((n : BootMilestone)
        → contains
            (record { bits = (flow_milestone mci (apply_all mci (entries reports) registers)).0 })
            (milestone_bit n)
          ≡ (is_reported n reports
              || contains (record { bits = (flow_milestone mci registers).0 }) (milestone_bit n)))
flow_status-observed_example = flow_status-observed memory_bus-IsStorage mci tt reports registers
