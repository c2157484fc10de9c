-- ===== src/Tests.antt =====
-- The theorems at concrete inputs.
mod Boot
mod Drivers
mod Exchange
mod Fatal
mod Healthy
mod Library
mod Refusal
mod Registers
mod Response
mod Locks
mod Runtime
mod Status
