-- ===== src/SocManager/Exec.antt =====
-- A whole mailbox exchange, `exec_mailbox_req_u32`.
use mcu_fw_cpp.Prelude.{
  ℕ, zero, suc, ◌+◌, ◌*◌, u32, List, [], ◌∷◌, ◌++◌, Option, none, some, ltb, if◌then◌else◌, length,
  set,
}
use mcu_fw_cpp.Bus.{Bus}
use mcu_fw_cpp.Error.{ok, mbox_invalid_response, Try, ◌>>=◌, ◌>>◌, pure, fail}
use mcu_fw_cpp.SocManager.{Session, on_soc, start_mailbox_req, finish_mailbox_resp}
use mcu_fw_cpp.SocManager.Response.{MailboxResponse, word_count, next, release}
use mcu_fw_cpp.SocManager.Checksum.{calc_checksum, word_bytes}

-- The bytes that `payload_bytes` points to.
abbrev pub bytes_of : List ℕ → List ℕ
bytes_of [] = []
bytes_of (w ∷ rest) = word_bytes w ++ bytes_of rest

module _ {S : Type 0} ⦃bus : Bus S⦄ where
  -- `while (auto word = response.next())`, at word `i` of the caller's buffer.
  unfoldable pub drain : ℕ → ℕ → List ℕ → MailboxResponse → S → (List ℕ × MailboxResponse) × S
  unfolding next
  drain zero i resp r s = ((resp, r), s)
  drain (suc fuel) i resp r s =
      let ((word, r'), s') = next r s in
      elim word [
        | none ↦ ((resp, r'), s')
        | some w ↦ drain fuel (i + 1) (if ltb i (length resp) then set resp i w else resp) r' s'
      ]

  -- Reading the response into the caller's buffer, and the destructor at the end of the scope.
  unfoldable pub collect : List ℕ → Option MailboxResponse → Try (Session S) (List ℕ)
  unfolding drain release word_count
  collect resp none = fail mbox_invalid_response
  collect resp (some r) = on_soc λ c s.
      let ((resp', r'), s') = drain (word_count r + 1) 0 resp r s in (ok resp', (release r' s').1)

  -- The request with its checksum in the header word, and the response buffer, come back.
  unfoldable pub exec_mailbox_req_u32 : ℕ → List ℕ → List ℕ → Try (Session S) (List ℕ × List ℕ)
  unfolding collect calc_checksum
  exec_mailbox_req_u32 cmd [] resp = fail mbox_invalid_response
  exec_mailbox_req_u32 cmd (header ∷ payload) resp = do
    let checksum = calc_checksum cmd (bytes_of payload)
    let req' = checksum ∷ payload
    on_soc (λ c. start_mailbox_req c cmd (u32 (length req' * 4)) req')
    response ← finish_mailbox_resp (u32 (length resp * 4)) (u32 (length resp * 4))
    resp' ← collect resp response
    pure (req', resp')
