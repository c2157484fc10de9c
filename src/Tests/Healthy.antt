-- ===== src/Tests/Healthy.antt =====
-- A cold boot from `main` on hardware that answers after some polls.
use mcu_fw_cpp.Prelude.{
  ℕ, ◌-◌, ◌%◌, ◌<◌, ◌≡◌, ◌⊎◌, inl, inr, refl, u32, arith, any_set, Bool-cases, false, ◌==◌,
  if◌then◌else◌,
}
use mcu_fw_cpp.Bus.{Bus}
use mcu_fw_cpp.Bus.Storage.{IsStorage, Memory, memory_bus, memory_bus-IsStorage}
use mcu_fw_cpp.Rom.Env.{make_env, g_mcu_memory_map}
use mcu_fw_cpp.Rom.Boot.Healthy.{IsHealthy, mbox_status_addr}
use mcu_fw_cpp.Rom.Main.{main}
use mcu_fw_cpp.Rom.Main.Booted.{final_status, main-booted}
use mcu_fw_cpp.Rom.Start.{idle_loop, rom_start}
use mcu_fw_cpp.Rom.Start.Progress.{IsBootRegister}

-- A memory, a fuse controller that is always idle, and a mailbox that is busy for some polls.
record Machine : Type 0 where
  memory : Memory
  busy : ℕ

abbrev polls_left : Machine → ℕ
polls_left s = s.busy % 100

instance abbrev machine_bus : Bus Machine
machine_bus = record {
  load = λ a s.
      if a == 0x70000000
      then (1, s)
      else if a == 0x30020014
      then (if polls_left s == 0 then 0 else 1, record s { busy = polls_left s - 1 })
      else (s.memory a, s);
  store = λ a v s. record s { memory = memory_bus.store a v s.memory };
}

mailbox_falls :
    (s : Machine)
    → (any_set (u32 (machine_bus.load mbox_status_addr s).0) 1 ≡ false)
      ⊎ (polls_left (machine_bus.load mbox_status_addr s).1 < polls_left s)
mailbox_falls s = elim (Bool-cases (polls_left s == 0)) [
  | inl free ↦ inl (rw free refl)
  | inr left ↦ inr (ground arith)
]

machine_bus-IsHealthy : IsHealthy machine_bus (λ s. 0) polls_left
machine_bus-IsHealthy = record {
  otp_soon = λ s. omega arith;
  otp_falls = λ s. inl refl;
  mbox_soon = λ s. omega arith;
  mbox_falls = mailbox_falls;
}

boot_load : (a b : ℕ) (s : Machine) → (machine_bus.load a s).1.memory b ≡ s.memory b
boot_load a b s = elim (Bool-cases (a == 0x70000000)) [
  | inl e ↦ rw e refl
  | inr e ↦ elim (Bool-cases (a == 0x30020014)) [ inl f ↦ rw (e, f) refl | inr f ↦ rw (e, f) refl ]
]

boot_cell : (a : ℕ) (s : Machine) → IsBootRegister a → (machine_bus.load a s).0 ≡ s.memory a
boot_cell a s (inl e) = rw e refl
boot_cell a s (inr e) = rw e refl

machine_bus-IsStorage : IsStorage machine_bus IsBootRegister (λ a s. s.memory a)
machine_bus-IsStorage = record {
  load_cell = boot_cell;
  load_keeps = λ a b s r. boot_load a b s;
  store_cell = λ a v s r. memory_bus-IsStorage.store_cell a v s.memory tt;
  store_keeps = λ a b v s r ne. memory_bus-IsStorage.store_keeps a b v s.memory tt ne;
}

-- A cold reset after milestones 3 and checkpoint 7; the mailbox is busy for five polls.
abbrev cold_machine : Machine
cold_machine = record { memory = λ a. if a == 0x21000008 then 0x00030007 else 0; busy = 5 }

main-booted_example :
    ((rom_start (record { device = cold_machine; env = make_env g_mcu_memory_map 0 })).0
      ≡ idle_loop)
    × ((main cold_machine).memory 0x21000008 ≡ final_status 3 0)
main-booted_example =
    main-booted machine_bus-IsHealthy machine_bus-IsStorage 3 7 cold_machine (omega arith)
      (omega arith) refl (inl refl)
