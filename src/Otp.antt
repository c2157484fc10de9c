-- ===== src/Otp.antt =====
-- The OTP controller driver (rom/src/otp.cpp, rom/include/rom/otp.hpp).
pub mod Poll
pub mod Errors
pub mod Fuses
pub mod Steps
pub mod Words
pub mod Keeps
use mcu_fw_cpp.Prelude.{
  ℕ, zero, suc, ◌+◌, ◌*◌, ◌-◌, ◌^◌, u32, bit_and, any_set, Bool, true, false, List, [], ◌∷◌, ◌==◌,
  if◌then◌else◌, not,
}
use mcu_fw_cpp.Bus.{Bus, Hw, read_reg, write_reg}
use mcu_fw_cpp.Bus
use mcu_fw_cpp.Error.{
  McuError, McuResult, ok, err, timeout, otp_read_error, otp_write_error, Try, ◌>>=◌, ◌>>◌, pure,
  fail, lift,
}

pub record Otp : Type 0 where
  pub base_addr : ℕ

pub data OtpPartition : Type 0 where
  creator_sw_cfg owner_sw_cfg rot_creator_auth_codesign rot_creator_auth_state : OtpPartition
  hw_cfg0 hw_cfg1 secret0 secret1 secret2 life_cycle : OtpPartition

pub data OtpError : Type 0 where
  no_error macro_error macro_ecc_correctable macro_ecc_uncorrectable : OtpError
  macro_write_blank check_timeout check_locked access_error : OtpError

-- Register offsets, commands and status bits.
abbrev pub reg_status : ℕ
reg_status = 0x00

abbrev pub reg_err_code : ℕ
reg_err_code = 0x04

abbrev pub reg_direct_access_cmd : ℕ
reg_direct_access_cmd = 0x08

abbrev pub reg_direct_access_addr : ℕ
reg_direct_access_addr = 0x0c

abbrev pub reg_direct_access_wdata_0 : ℕ
reg_direct_access_wdata_0 = 0x10

abbrev pub reg_direct_access_rdata_0 : ℕ
reg_direct_access_rdata_0 = 0x18

abbrev pub cmd_read : ℕ
cmd_read = 0x01

abbrev pub cmd_write : ℕ
cmd_write = 0x02

abbrev pub cmd_digest : ℕ
cmd_digest = 0x04

abbrev pub status_idle : ℕ
status_idle = 0x01

abbrev pub status_error : ℕ
status_error = 0x02

-- The default argument of `wait_for_idle`.
abbrev pub default_timeout_cycles : ℕ
default_timeout_cycles = 10000

-- The `switch` of `error_status` on three bits.
pub otp_error_of_code : ℕ → OtpError
otp_error_of_code code =
    if code == 0
    then no_error
    else if code == 1
    then macro_error
    else if code == 2
    then macro_ecc_correctable
    else if code == 3
    then macro_ecc_uncorrectable
    else if code == 4
    then macro_write_blank
    else if code == 5
    then check_timeout
    else if code == 6
    then check_locked
    else if code == 7
    then access_error
    else macro_error

unfoldable pub partition_size : OtpPartition → ℕ
partition_size creator_sw_cfg = 1024
partition_size owner_sw_cfg = 1024
partition_size hw_cfg0 = 256
partition_size hw_cfg1 = 256
partition_size secret0 = 512
partition_size secret1 = 512
partition_size secret2 = 512
partition_size life_cycle = 128
partition_size _ = 0

module _ {S : Type 0} ⦃bus : Bus S⦄ (o : Otp) where
  unfoldable pub is_idle : Hw S Bool
  is_idle s =
      let (status, s') = read_reg o.base_addr reg_status s in (any_set status status_idle, s')

  unfoldable pub has_error : Hw S Bool
  has_error s =
      let (status, s') = read_reg o.base_addr reg_status s in (any_set status status_error, s')

  unfoldable pub error_status : Hw S OtpError
  unfolding has_error otp_error_of_code
  error_status s =
      let (failed, s₁) = has_error s in
      let (code, s₂) = read_reg o.base_addr reg_err_code s₁ in
      if failed then (otp_error_of_code (bit_and code 0x07), s₂) else (no_error, s₁)

  -- The loop with `polls` polls left before `--timeout_cycles == 0` stops it.
  unfoldable pub poll_idle : ℕ → Try S (Unit {0})
  unfolding is_idle
  poll_idle zero s = (err timeout, s)
  poll_idle (suc polls) s =
      let (idle, s') = is_idle s in
      let rest = poll_idle polls s' in if idle then (ok tt, s') else rest

  -- The counter is decremented before the test, so that 0 stands for 2 ^ 32 polls.
  unfoldable pub wait_for_idle : ℕ → Try S (Unit {0})
  wait_for_idle timeout_cycles = poll_idle (if timeout_cycles == 0 then 2 ^ 32 else timeout_cycles)

  unfoldable pub init : Try S (Unit {0})
  init = wait_for_idle default_timeout_cycles

  unfoldable pub read_word : ℕ → Try S ℕ
  read_word addr = do
    wait_for_idle default_timeout_cycles
    lift (write_reg o.base_addr reg_direct_access_addr addr)
    lift (write_reg o.base_addr reg_direct_access_cmd cmd_read)
    wait_for_idle default_timeout_cycles
    failed ← lift has_error
    if failed then fail otp_read_error else lift (read_reg o.base_addr reg_direct_access_rdata_0)

  unfoldable pub write_word : ℕ → ℕ → Try S (Unit {0})
  write_word addr value = do
    wait_for_idle default_timeout_cycles
    lift (write_reg o.base_addr reg_direct_access_addr addr)
    lift (write_reg o.base_addr reg_direct_access_wdata_0 value)
    lift (write_reg o.base_addr reg_direct_access_cmd cmd_write)
    wait_for_idle default_timeout_cycles
    failed ← lift has_error
    if failed then fail otp_write_error else pure tt

  -- `count` words from index `i` on, `addr + i * 4` on 32 bits. The words that were read before a
  -- failure stay in the buffer, which the caller then does not use.
  unfoldable pub read_words_from : ℕ → ℕ → ℕ → Try S (List ℕ)
  unfolding read_word
  read_words_from addr i zero = pure []
  read_words_from addr i (suc count) = do
    word ← read_word (u32 (addr + i * 4))
    rest ← read_words_from addr (i + 1) count
    pure (word ∷ rest)

  unfoldable pub read_words : ℕ → ℕ → Try S (List ℕ)
  unfolding read_words_from
  read_words addr size = read_words_from addr 0 size

  unfoldable pub write_words_from : ℕ → ℕ → List ℕ → Try S (Unit {0})
  unfolding write_word
  write_words_from addr i [] = pure tt
  write_words_from addr i (word ∷ rest) =
      write_word (u32 (addr + i * 4)) word >> write_words_from addr (i + 1) rest

  unfoldable pub write_words : ℕ → List ℕ → Try S (Unit {0})
  unfolding write_words_from
  write_words addr words = write_words_from addr 0 words

  unfoldable pub lock_partition : OtpPartition → Try S (Unit {0})
  lock_partition partition = do
    lift (write_reg o.base_addr reg_direct_access_cmd cmd_digest)
    wait_for_idle default_timeout_cycles

  unfoldable pub is_partition_locked : OtpPartition → Hw S Bool
  is_partition_locked partition = Bus.pure false

  unfoldable pub clear_error : Hw S (Unit {0})
  clear_error = write_reg o.base_addr reg_err_code 0
