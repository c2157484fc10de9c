-- ===== src/Tests/Refusal.antt =====
-- The theorem on where a sequence of fuse writes stops, on a controller that refuses.
use mcu_fw_cpp.Prelude.{◌≡◌, ◌⊎◌, [], ◌∷◌, ◌==◌, if◌then◌else◌}
use mcu_fw_cpp.Bus.Storage.{Memory, memory_bus}
use mcu_fw_cpp.Error.{ok}
use mcu_fw_cpp.Otp.{Otp, write_words}
use mcu_fw_cpp.Otp.Errors.{Written, StopsAt, write_words-stops}

abbrev otp : Otp
otp = record { base_addr = 0x70000000 }

-- Idle, with the error bit set.
abbrev refusing : Memory
refusing a = if a == 0x70000000 then 3 else 0

write_words-stops_example :
    ((t : Memory) × (write_words otp 0x40 (7 ∷ 9 ∷ []) refusing ≡ (ok tt, t))
      × Written otp 0x40 0 (7 ∷ 9 ∷ []) refusing t)
    ⊎ StopsAt otp 0x40 0 (7 ∷ 9 ∷ []) refusing (write_words otp 0x40 (7 ∷ 9 ∷ []) refusing)
write_words-stops_example = write_words-stops otp 0x40 (7 ∷ 9 ∷ []) refusing
