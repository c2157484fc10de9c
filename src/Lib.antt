-- ===== src/Lib.antt =====
-- The MCU ROM of a Caliptra subsystem (rom/, romtime/, include/common, platforms/emulator/rom) and
-- the system calls of its runtime kernel (runtime/kernel), in C++ for a 32-bit target: what the
-- drivers and boot flows do to the hardware, and what they answer.
--
-- The parts and how they interact. `rom_start` builds a `RomEnv` with one driver object for each
-- peripheral, reads the reset reason through the MCI driver and calls one boot flow; a flow calls
-- the drivers and records its progress in the flow status register. Each driver is a base address
-- and loads and stores at offsets from it.
--
-- The hardware is a parameter: a `Bus S` gives a load and a store on any type `S` of device states,
-- and a load may change the device. Every driver method is a function of the driver object and the
-- device state. Where a theorem needs to know a register's behaviour it takes it as a hypothesis:
-- `IsStorage` (registers that keep what is stored), `IsLockable` (user registers that hold once
-- they are locked), `IsLock` (the mailbox lock), `IsMailbox` (a command and its phases),
-- `IsController` (the fuse controller), `IsTxFifo` and `IsRxFifo` (the FIFOs of the I3C target),
-- `IsEvents` (an event register), `IsHealthy` (a fuse controller and a mailbox that answer in
-- time) and `IsCounter` (the two halves of the cycle counter). For each there is a device that meets
-- it, as `memory_bus`, `lock_bus`, `fuse_bus` and `fifo_bus`, or those of the tests.
--
-- The files, with the code that each one models:
--   Bus            the register helpers of every driver (romtime/src/mci.cpp)
--   Error          include/common/error.hpp: the codes and the results; Error/Slot has the class
--                  template with its fields, Error/Ensures and Error/Returns the postconditions of
--                  fallible steps
--   Mci            romtime/src/mci.cpp, Mci/Regs and Mci/AxiUsers its registers and indexed accessors;
--                  Mci/AxiUsers/Locks is the device whose locks hold, and the table of users and
--                  locks that the accessors are compared with, in Apart, Readers, Steps and History
--   Otp            rom/src/otp.cpp; Otp/Fuses is the controller behind it, an array of fuse words
--   Lifecycle      rom/src/lifecycle.cpp
--   I3c            rom/src/i3c.cpp
--   SocManager     romtime/src/soc_manager.cpp: the manager, with Response (the response iterator),
--                  Checksum (`calc_checksum`) and Exec (`exec_mailbox_req_u32`); Lock and Phases are
--                  the mailbox behind it, WordSums the bytes of a response
--   Rom/BootStatus rom/include/rom/boot_status.hpp; Observed is what a reader of the flow status
--                  register learns of it
--   Rom/Env        rom/src/rom_env.cpp
--   Rom/Boot       the boot flows: rom/src/cold_boot.cpp, warm_boot.cpp, fw_boot.cpp,
--                  fw_hitless_update.cpp, recovery.cpp, device_ownership_transfer.cpp
--   Rom/Soc        the class `Soc` of rom/src/rom.cpp
--   Rom/Fatal      the fatal error path of rom/src/rom.cpp, and the writer and handler that
--                  platforms/emulator/rom/src/main.cpp installs
--   Rom/Verify     the mailbox user configuration and the two checks of rom/src/rom.cpp; Expected
--                  has the calls of the configuration in the table of Mci/AxiUsers/Locks, Held
--                  the two together on a device whose locks hold
--   Rom/Parameters what `rom_start` is given, and the interface of the image verifier;
--                  Rom/ResetReason the reset reasons of rom/include/rom/rom.hpp, which it does not use
--   Rom/Start      `rom_start` of rom/src/rom.cpp
--   Rom/Main       `main` of platforms/emulator/rom/src/main.cpp
--   Flash          rom/src/flash/memory.cpp; Flash/Hil and Flash/Partition are the interfaces of the
--                  controller, which is an argument, and of a partition
--   Fuses          rom/src/fuses.cpp, rom/include/rom/fuse_layout.hpp, fuses.hpp; Fuses/Raw is the
--                  interface of the raw fuses, and the class on top of them
--   Common         include/common/bitflags.hpp, types.hpp, static_ref.hpp
--   Romtime        romtime/src/romtime.cpp: the characters that the printers write, and the two
--                  versions of `platform_crc8`; Romtime/Console has the console and its globals,
--                  Romtime/Clock the cycle counters of platform_riscv32.cpp and platform_host.cpp
--   Runtime        runtime/kernel/capsules/src: a module for each capsule; Runtime/Veer is
--                  runtime/kernel/veer/src
--   Libc           platforms/emulator/rom/src/libc_stubs.cpp
--   Prelude        shared names, casts and the bit operations' laws
--   Tests          the theorems at concrete inputs
-- The children of a module that are named for what they prove hold its theorems.
--
-- A method of the source has the function of its name. A 32-bit value is a number that every load,
-- store and sum cuts to 32 bits; a result is `ok` or `err`, and the early returns on an error are the
-- sequence of a `do` block.
--
-- Bounds and fuel. The loops with a counter run on that counter: `poll_idle` (`wait_for_idle`),
-- `poll_ready` (`wait_caliptra_ready`), `poll_complete` (`finish_mailbox_resp`). The response loop runs
-- on the number of words plus one, and `next` ends it there. The loops without a bound in the source
-- (`wait_for_firmware_ready`, the I3C FIFO waits, `busy_wait`, `strlen`) take fuel and say so when it
-- runs out; how much is enough is said for `wait_for_firmware_ready`, for both directions of I3C,
-- for `strlen` and for `busy_wait`. A function of the fatal error path, and `main`, returns the
-- state in which the source loops for ever.
--
-- Not modelled: the console output between the steps of the boot flows (`romtime::print`,
-- `println`), which touches none of their registers; the start-up code, the linker scripts and the
-- host build of main.cpp; the endless loops of the libc stubs; `FwBoot::jump_to_firmware`, a call of
-- an address that no flow makes; the components and drivers of the
-- runtime kernel, which are empty classes.
pub mod Prelude
pub mod Bus
pub mod Error
pub mod Mci
pub mod Otp
pub mod Lifecycle
pub mod I3c
pub mod SocManager
pub mod Rom
pub mod Flash
pub mod Fuses
pub mod Common
pub mod Romtime
pub mod Runtime
pub mod Libc
pub mod Tests
