-- ===== src/Otp/Keeps.antt =====
-- What reading a fuse leaves alone: every register but the two that it stores to.
use mcu_fw_cpp.Prelude.{ℕ, zero, suc, ◌≡◌, ◌≢◌, ◌∙◌, any_set, Bool-cases, inl, inr, if◌then◌else◌}
use mcu_fw_cpp.Bus.{Bus, reg, read_reg, write_reg}
use mcu_fw_cpp.Bus.Storage.{IsStorage, read_reg-keeps, write_reg-keeps}
use mcu_fw_cpp.Error.{McuError, McuResult, lift, fail, ◌>>=◌, otp_read_error}
use mcu_fw_cpp.Error.Ensures.{Ensures, done, failed, ◌⨾◌}
use mcu_fw_cpp.Otp.{
  Otp, reg_status, reg_direct_access_addr, reg_direct_access_cmd, reg_direct_access_rdata_0,
  cmd_read, status_idle, status_error, default_timeout_cycles, poll_idle, wait_for_idle, is_idle,
  has_error, read_word,
}

module _ {S : Type 0} ⦃bus : Bus S⦄ {region : ℕ → Type 0} {cell : ℕ → S → ℕ}
    (d : IsStorage bus region cell) (o : Otp) (b v : ℕ) (r : region b) where
  abbrev Kept : S → Type 0
  Kept s = cell b s ≡ v

  abbrev Keeps : {A : Type 0} → McuResult A × S → Type 0
  Keeps out = Ensures Kept (λ (e : McuError) (s : S). Kept s) out

  load-Kept : (offset : ℕ) (s : S) → Kept s → Kept (read_reg o.base_addr offset s).1
  load-Kept offset s h = read_reg-keeps d o.base_addr offset b s r ∙ h

  poll_idle-Keeps : (n : ℕ) (s : S) → Kept s → Keeps (poll_idle o n s)
  unfolding poll_idle is_idle
  poll_idle-Keeps zero s h = failed h
  poll_idle-Keeps (suc n) s h =
      let s' = (read_reg o.base_addr reg_status s).1 in
      elim (Bool-cases (any_set (read_reg o.base_addr reg_status s).0 status_idle)) [
        | inl idle ↦ rw idle (done (load-Kept reg_status s h))
        | inr busy ↦ rw busy (poll_idle-Keeps n s' (load-Kept reg_status s h))
      ]

  wait-Keeps : (n : ℕ) (s : S) → Kept s → Keeps (wait_for_idle o n s)
  unfolding wait_for_idle
  wait-Keeps n s h = poll_idle-Keeps _ s h

  store-Keeps :
      (offset value : ℕ) (s : S)
      → reg o.base_addr offset ≢ b
      → Kept s
      → Keeps (lift (write_reg o.base_addr offset value) s)
  store-Keeps offset value s ne h = done (write_reg-keeps d o.base_addr offset value b s r ne ∙ h)

  answer-Keeps :
      (s : S)
      → Kept s
      → Keeps (
          (lift (has_error o) >>= λ failed.
          if failed
          then fail otp_read_error
          else lift (read_reg o.base_addr reg_direct_access_rdata_0))
            s)
  unfolding has_error
  answer-Keeps s h =
      let s' = (read_reg o.base_addr reg_status s).1 in
      elim (Bool-cases (any_set (read_reg o.base_addr reg_status s).0 status_error)) [
        | inl bad ↦ rw bad (failed (load-Kept reg_status s h))
        | inr good ↦
            rw good (done (load-Kept reg_direct_access_rdata_0 s' (load-Kept reg_status s h)))
      ]

  -- Reading a fuse, whatever comes of it, changes no register but the two of the command.
  pub read_word-Keeps :
      (addr : ℕ) (s : S)
      → reg o.base_addr reg_direct_access_addr ≢ b
      → reg o.base_addr reg_direct_access_cmd ≢ b
      → Kept s
      → Keeps (read_word o addr s)
  unfolding read_word
  read_word-Keeps addr s ne ne' h =
      (wait-Keeps default_timeout_cycles
          ⨾ (λ s h. store-Keeps reg_direct_access_addr addr s ne h)
          ⨾ (λ s h. store-Keeps reg_direct_access_cmd cmd_read s ne' h)
          ⨾ wait-Keeps default_timeout_cycles
          ⨾ answer-Keeps)
        s h

  -- The same of the state that it leaves.
  pub read_word-keeps :
      (addr : ℕ) (s : S)
      → reg o.base_addr reg_direct_access_addr ≢ b
      → reg o.base_addr reg_direct_access_cmd ≢ b
      → cell b s ≡ v
      → cell b (read_word o addr s).1 ≡ v
  read_word-keeps addr s ne ne' h = left (read_word-Keeps addr s ne ne' h)
    where
      left : {A : Type 0} {out : McuResult A × S} → Keeps out → cell b out.1 ≡ v
      left (done h) = h
      left (failed h) = h
