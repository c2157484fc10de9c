-- ===== src/SocManager/Lockout.antt =====
-- Two mailbox exchanges, one after the other.
use mcu_fw_cpp.Prelude.{
  ℕ, ◌*◌, ◌≤◌, ◌≡◌, refl, sym, u32, arith, Bool, true, false, List, [], ◌∷◌, length,
}
use mathlib.Core.Path.{subst}
use mcu_fw_cpp.Bus.{Bus}
use mcu_fw_cpp.Error.{McuError, McuResult, ok, err, ◌>>=◌, pure}
use mcu_fw_cpp.Error.Ensures.{Ensures, done, failed}
use mcu_fw_cpp.SocManager.{mailbox_size, Session, on_soc, finish_mailbox_resp, start_mailbox_req}
use mcu_fw_cpp.SocManager.Exec.{collect, exec_mailbox_req_u32, bytes_of}
use mcu_fw_cpp.SocManager.Checksum.{calc_checksum}
use mcu_fw_cpp.SocManager.Lock.{IsLock}
use mcu_fw_cpp.SocManager.Request.{start_mailbox_req-locked}
use mcu_fw_cpp.SocManager.Holding.{
  OnOk, bind-OnOk, Holding, Responding, finish_mailbox_resp-Responding, collect-Holding,
}

module _ {S : Type 0} ⦃bus : Bus S⦄ {base : ℕ} {held : S → Bool} (d : IsLock bus base held) where
  start-Holding :
      (cmd len : ℕ) (words : List ℕ) (t : Session S)
      → t.soc.soc_mbox_addr ≡ base
      → OnOk (λ a t'. Holding d t') (on_soc (λ c. start_mailbox_req c cmd len words) t)
  start-Holding cmd len words t at = pass (
      start_mailbox_req-locked t.soc (subst (λ b. IsLock bus b held) (sym at) d) cmd len words
        t.device)
    where
      pass :
          {Q : S → Type 0} {E : McuError → S → Type 0} {out : McuResult (Unit {0}) × S}
          → Ensures
              (λ s. (len ≤ mailbox_size) × (held t.device ≡ false) × (held s ≡ true) × Q s)
              E
              out
          → OnOk (λ a t'. Holding d t') (out.0, record { device = out.1; soc = t.soc })
      pass (done q) = (at, q.2)
      pass (failed e) = tt

  -- The lock is held after an exchange that succeeds.
  exec-Holding :
      (cmd : ℕ) (req resp : List ℕ) (t : Session S)
      → t.soc.soc_mbox_addr ≡ base
      → OnOk (λ a t'. Holding d t') (exec_mailbox_req_u32 cmd req resp t)
  unfolding exec_mailbox_req_u32
  exec-Holding cmd [] resp t at = tt
  exec-Holding cmd (header ∷ payload) resp t at =
      let req' = calc_checksum cmd (bytes_of payload) ∷ payload in
      bind-OnOk (λ a t'. Holding d t') (λ a t'. Holding d t')
        (on_soc (λ c. start_mailbox_req c cmd (u32 (length req' * 4)) req'))
        (λ a. finish_mailbox_resp (u32 (length resp * 4)) (u32 (length resp * 4)) >>= λ response.
          collect resp response >>= λ resp'. pure (req', resp'))
        t (start-Holding cmd (u32 (length req' * 4)) req' t at)
        (λ a t₁ h₁.
          bind-OnOk (Responding d) (λ a t'. Holding d t')
            (finish_mailbox_resp (u32 (length resp * 4)) (u32 (length resp * 4)))
            (λ response. collect resp response >>= λ resp'. pure (req', resp')) t₁
            (finish_mailbox_resp-Responding d (u32 (length resp * 4)) (u32 (length resp * 4)) t₁ h₁)
            (λ response t₂ h₂.
              bind-OnOk (λ a t'. Holding d t') (λ a t'. Holding d t') (collect resp response)
                (λ resp'. pure (req', resp')) t₂ (collect-Holding d resp response t₂ h₂)
                (λ resp' t₃ h₃. h₃)))

  start-locked :
      (cmd len : ℕ) (words : List ℕ) (t : Session S)
      → Holding d t
      → OnOk (λ a t'. ⊥) (on_soc (λ c. start_mailbox_req c cmd len words) t)
  start-locked cmd len words t (at, h) = pass (
      start_mailbox_req-locked t.soc (subst (λ b. IsLock bus b held) (sym at) d) cmd len words
        t.device)
    where
      pass :
          {Q : S → Type 0} {E : McuError → S → Type 0} {out : McuResult (Unit {0}) × S}
          → Ensures
              (λ s. (len ≤ mailbox_size) × (held t.device ≡ false) × (held s ≡ true) × Q s)
              E
              out
          → OnOk {S = Session S} (λ a t'. ⊥) (out.0, record { device = out.1; soc = t.soc })
      pass (done q) = ground arith
      pass (failed e) = tt

  -- While the lock is held, no exchange succeeds.
  exec-locked :
      (cmd : ℕ) (req resp : List ℕ) (t : Session S)
      → Holding d t
      → OnOk (λ a t'. ⊥) (exec_mailbox_req_u32 cmd req resp t)
  unfolding exec_mailbox_req_u32
  exec-locked cmd [] resp t h = tt
  exec-locked cmd (header ∷ payload) resp t h =
      let req' = calc_checksum cmd (bytes_of payload) ∷ payload in
      bind-OnOk (λ a t'. ⊥) (λ a t'. ⊥)
        (on_soc (λ c. start_mailbox_req c cmd (u32 (length req' * 4)) req'))
        (λ a. finish_mailbox_resp (u32 (length resp * 4)) (u32 (length resp * 4)) >>= λ response.
          collect resp response >>= λ resp'. pure (req', resp'))
        t (start-locked cmd (u32 (length req' * 4)) req' t h) (λ a t' stuck. absurd stuck)

  -- On every device whose mailbox lock behaves as documented, of two calls of
  -- `exec_mailbox_req_u32` one after the other the second fails, if the first has succeeded; for
  -- the mailbox is still locked after it. Whatever the commands, the requests and the response buffers, both together
  -- end with an error.
  pub exec_mailbox_req_u32-once :
      (cmd cmd' : ℕ) (req resp req' resp' : List ℕ) (t : Session S)
      → t.soc.soc_mbox_addr ≡ base
      → (e : McuError) × (((exec_mailbox_req_u32 cmd req resp >>= λ first.
              exec_mailbox_req_u32 cmd' req' resp')
            t).0
          ≡ err e)
  exec_mailbox_req_u32-once cmd cmd' req resp req' resp' t at = never _ (
      bind-OnOk (λ a t'. Holding d t') (λ a t'. ⊥) (exec_mailbox_req_u32 cmd req resp)
        (λ first. exec_mailbox_req_u32 cmd' req' resp') t (exec-Holding cmd req resp t at)
        (λ first t' h. exec-locked cmd' req' resp' t' h))
    where
      never :
          {A : Type 0} (out : McuResult A × Session S)
          → OnOk (λ a t'. ⊥) out
          → (e : McuError) × (out.0 ≡ err e)
      never (ok a, t) stuck = absurd stuck
      never (err e, t) h = (e, refl)
