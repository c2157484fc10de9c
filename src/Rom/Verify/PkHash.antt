-- ===== src/Rom/Verify/PkHash.antt =====
-- The check of the debug unlock public key hashes against the fuses.
use mcu_fw_cpp.Bus.{Bus}
use mcu_fw_cpp.Mci.{Mci}
use mcu_fw_cpp.Otp.{Otp}
