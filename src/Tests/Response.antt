-- ===== src/Tests/Response.antt =====
-- The theorem on the response iterator at a small input.
use mcu_fw_cpp.Prelude.{◌+◌, ◌-◌, ◌≡◌, refl, arith, [], ◌∷◌, none, ◌==◌, if◌then◌else◌}
use mcu_fw_cpp.Bus.Storage.{Memory, memory_bus}
use mcu_fw_cpp.Error.{ok, err, mbox_invalid_response}
use mcu_fw_cpp.SocManager.Response.{respond, word_count, next, verify_checksum}
use mcu_fw_cpp.SocManager.Checksum.{calc_checksum}
use mcu_fw_cpp.SocManager.Exec.{bytes_of, drain}
use mcu_fw_cpp.SocManager.WordSums.{take}
use mcu_fw_cpp.SocManager.Drained.{loads, verify_checksum-drain}

-- Every load of the data register returns the same word.
abbrev data_port : Memory
data_port a = if a == 0x30020000 then 0x04030201 else 0

-- Ten bytes: the header, one whole word, and half of another.
verify_checksum-drain_example :
    let r = respond 0x30020000 10 0xfffffff3 in
    let r' = (drain (word_count r + 1) 0 (0 ∷ 0 ∷ 0 ∷ []) r data_port).0.1 in
    let bytes = take (10 - 4) (bytes_of (loads 0x30020000 (word_count r - 1) data_port)) in
    (verify_checksum r'
      ≡ (if calc_checksum 0 bytes == 0xfffffff3 then ok tt else err mbox_invalid_response))
    × ((t : Memory) → (next r' t).0.0 ≡ none)
verify_checksum-drain_example =
    verify_checksum-drain 0x30020000 10 0xfffffff3 (0 ∷ 0 ∷ 0 ∷ []) data_port (omega arith)
      (omega arith)

-- The sum of these bytes is 13, and the declared checksum is accepted.
accepted : calc_checksum 0 (1 ∷ 2 ∷ 3 ∷ 4 ∷ 1 ∷ 2 ∷ []) ≡ 0xfffffff3
unfolding calc_checksum
accepted = refl
