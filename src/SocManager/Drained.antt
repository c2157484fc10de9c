-- ===== src/SocManager/Drained.antt =====
-- The checksum that the response iterator has when it is at its end.
use mcu_fw_cpp.Prelude.{
  ℕ, zero, suc, ◌+◌, ◌*◌, ◌-◌, ◌^◌, ◌≤◌, ◌<◌, ◌≡◌, refl, ap, ap₂, ◌∙◌, u32, arith, ltb, leb, ◌==◌,
  true, false, List, [], ◌∷◌, if◌then◌else◌, length, set, Option, none, some, sub32,
}
use mcu_fw_cpp.Bus.{Bus, read_reg}
use mcu_fw_cpp.SocManager.Response.{
  MailboxResponse, word_count, remaining_bytes, valid_part, add_bytes, next, mbox_dataout, respond,
  verify_checksum,
}
use mcu_fw_cpp.Error.{ok, err, mbox_invalid_response}
use mcu_fw_cpp.SocManager.Checksum.{sum, calc_checksum}
use mcu_fw_cpp.SocManager.Exec.{bytes_of, drain}
use mcu_fw_cpp.SocManager.WordSums.{
  take, add_bytes-valid_part, sum-take-nil, sum_of_word, index_inside, same_count, checksum_of,
  leb_refl,
}

module _ {S : Type 0} ⦃bus : Bus S⦄ where
  -- What `n` loads of the data register return, one after the other.
  abbrev pub loads : ℕ → ℕ → S → List ℕ
  loads base zero s = []
  loads base (suc n) s = let (w, s') = read_reg base mbox_dataout s in w ∷ loads base n s'

  -- The response at its end, after the words that are left.
  abbrev at_end : ℕ → MailboxResponse → S → MailboxResponse
  at_end m r s = record r {
    idx = word_count r;
    checksum =
        u32 (r.checksum + sum (take (r.dlen_bytes - 4 * r.idx) (bytes_of (loads r.mbox_base m s))));
  }

  next-done :
      (r : MailboxResponse) (s : S) → leb (word_count r) r.idx ≡ true → next r s ≡ ((none, r), s)
  unfolding next
  next-done r s done = rw done refl

  -- The iterator after one more word.
  abbrev after_word : MailboxResponse → S → MailboxResponse
  after_word r s =
      let w = (read_reg r.mbox_base mbox_dataout s).0 in
      let n = remaining_bytes r r.idx in
      record r { idx = r.idx + 1; checksum = add_bytes n 0 (valid_part n w) r.checksum }

  abbrev word_of : MailboxResponse → S → ℕ
  word_of r s = valid_part (remaining_bytes r r.idx) (read_reg r.mbox_base mbox_dataout s).0

  next-word :
      (r : MailboxResponse) (s : S)
      → leb (word_count r) r.idx ≡ false
      → (r.idx == 0) ≡ false
      → next r s ≡ ((some (word_of r s), after_word r s), (read_reg r.mbox_base mbox_dataout s).1)
  unfolding next
  next-word r s more later = rw (more, later) refl

  -- The first word is the header, which is not read again.
  next-first :
      (r : MailboxResponse) (s : S)
      → leb (word_count r) r.idx ≡ false
      → (r.idx == 0) ≡ true
      → next r s ≡ ((some r.expected_checksum, record r { idx = 1 }), s)
  unfolding next
  next-first r s more first = rw (more, first) refl

  -- What the loop does with what the iterator gives.
  abbrev goes_on :
      ℕ → ℕ → List ℕ → (Option ℕ × MailboxResponse) × S → (List ℕ × MailboxResponse) × S
  goes_on f i resp ((word, r'), s') = elim word [
    | none ↦ ((resp, r'), s')
    | some w ↦ drain f (i + 1) (if ltb i (length resp) then set resp i w else resp) r' s'
  ]

  drain-next :
      (f i : ℕ) (resp : List ℕ) (r : MailboxResponse) (s : S)
      → drain (suc f) i resp r s ≡ goes_on f i resp (next r s)
  unfolding drain
  drain-next f i resp r s = refl

  after_word-small :
      (r : MailboxResponse) (s : S)
      → 4 * r.idx < r.dlen_bytes
      → r.dlen_bytes < 2 ^ 32
      → (after_word r s).checksum < 2 ^ 32
  unfolding remaining_bytes
  after_word-small r s more fits =
      let n = r.dlen_bytes - 4 * r.idx in
      let here : sub32 r.dlen_bytes (u32 (r.idx * 4)) ≡ n = omega arith in
      let k = if ltb 4 n then 4 else n in
      let low : 0 < k = ground arith in
      let high : k ≤ 4 = ground arith in
      let w = (read_reg r.mbox_base mbox_dataout s).0 in
      rw here (omega (arith, add_bytes-valid_part k w r.checksum low high))

  drain-at_end :
      (m i : ℕ) (resp : List ℕ) (r : MailboxResponse) (s : S)
      → 0 < r.idx
      → r.idx + m ≡ word_count r
      → r.dlen_bytes + 3 < 2 ^ 32
      → r.checksum < 2 ^ 32
      → (drain (suc m) i resp r s).0.1 ≡ at_end m r s
  unfolding word_count add_bytes
  drain-at_end zero i resp r s pos all fits small =
      let total : ℕ = sum (take (r.dlen_bytes - 4 * r.idx) []) in
      let same : r.checksum ≡ u32 (r.checksum + total) =
        omega (arith, sum-take-nil (r.dlen_bytes - 4 * r.idx)) in
      ap (λ (x : (List ℕ × MailboxResponse) × S). x.0.1)
        (drain-next zero i resp r s ∙ ap (goes_on zero i resp) (next-done r s (ground arith)))
      ∙ ap₂ (λ (k c : ℕ). record r { idx = k; checksum = c }) (omega (arith, all)) same
  drain-at_end (suc m) i resp r s pos all fits small =
      let more : r.idx < word_count r = omega (arith, all) in
      let inside = index_inside r more fits in
      let r' = after_word r s in
      let w = (read_reg r.mbox_base mbox_dataout s).0 in
      let s' = (read_reg r.mbox_base mbox_dataout s).1 in
      ap (λ (x : (List ℕ × MailboxResponse) × S). x.0.1)
        (drain-next (suc m) i resp r s
          ∙ ap (goes_on (suc m) i resp) (next-word r s (ground arith) (ground arith)))
      ∙ drain-at_end m (i + 1) _ r' s' (omega arith)
          (omega (arith, all) ∙ same_count r (r.idx + 1) r'.checksum) fits
          (after_word-small r s inside (omega (arith, fits)))
      ∙ ap (λ (c : ℕ). record r { idx = word_count r; checksum = c })
          (sum_of_word r w (bytes_of (loads r.mbox_base m s')) inside (omega (arith, fits)))

  -- The whole loop, from a new response that has at least its header.
  drained :
      (base dlen expected : ℕ) (resp : List ℕ) (s : S)
      → 4 ≤ dlen
      → dlen + 3 < 2 ^ 32
      → let r = respond base dlen expected in
        (drain (word_count r + 1) 0 resp r s).0.1
        ≡ at_end (word_count r - 1) (record r { idx = 1 }) s
  unfolding respond word_count
  drained base dlen expected resp s least fits =
      let r = respond base dlen expected in
      let m = word_count r - 1 in
      let fuel : word_count r + 1 ≡ suc (suc m) = omega arith in
      ap (λ (f : ℕ). (drain f 0 resp r s).0.1) fuel
      ∙ ap (λ (x : (List ℕ × MailboxResponse) × S). x.0.1)
          (drain-next (suc m) 0 resp r s
            ∙ ap (goes_on (suc m) 0 resp) (next-first r s (ground arith) refl))
      ∙ drain-at_end m 1 _ (record r { idx = 1 }) s (omega arith) (omega arith) fits (omega arith)

  -- On every device, for a new response of at least four bytes (and 2 ^ 32 - 4 at most): the loop
  -- of `exec_mailbox_req_u32` on the iterator leaves it at its end, and `verify_checksum` then
  -- accepts exactly if the checksum that the response declares is what `calc_checksum` computes
  -- for the command 0 and the bytes of the words that the iterator loaded, up to the length of the
  -- response less the four bytes of its header. It loads one word for each index after the first,
  -- all from the base address of the mailbox (offset 0x00, which is the LOCK register and not
  -- DATAOUT).
  pub verify_checksum-drain :
      (base dlen expected : ℕ) (resp : List ℕ) (s : S)
      → 4 ≤ dlen
      → dlen + 3 < 2 ^ 32
      → let r = respond base dlen expected in
        let r' = (drain (word_count r + 1) 0 resp r s).0.1 in
        let bytes = take (dlen - 4) (bytes_of (loads base (word_count r - 1) s)) in
        (verify_checksum r'
          ≡ (if calc_checksum 0 bytes == expected then ok tt else err mbox_invalid_response))
        × ((t : S) → (next r' t).0.0 ≡ none)
  unfolding respond verify_checksum word_count
  verify_checksum-drain base dlen expected resp s least fits =
      let r = respond base dlen expected in
      let bytes = take (dlen - 4) (bytes_of (loads base (word_count r - 1) s)) in
      let e = drained base dlen expected resp s least fits in
      let sums : sub32 0 (u32 (0 + sum bytes)) ≡ calc_checksum 0 bytes = checksum_of bytes in
      (
        ap verify_checksum e
            ∙ ap (λ (c : ℕ). if c == expected then ok tt else err mbox_invalid_response) sums,
        λ t.
            ap (λ (x : MailboxResponse). (next x t).0.0) e
            ∙ ap (λ (x : (Option ℕ × MailboxResponse) × S). x.0.0) (next-done _ t (leb_refl _)),
      )
