-- ===== src/Otp/Steps.antt =====
-- One word read or written over a controller: what the direct access registers and the fuses are
-- after it.
use mcu_fw_cpp.Prelude.{
  ℕ, zero, suc, ◌-◌, ◌<◌, ◌≡◌, refl, ap, ◌∙◌, u32, arith, any_set, Bool, false, ◌==◌, if◌then◌else◌,
  inl, inr, Bool-cases,
}
use mcu_fw_cpp.Bus.{Bus, read_reg, write_reg}
use mcu_fw_cpp.Error.{Try, ◌>>=◌, ◌>>◌, lift, pure, fail, otp_read_error, otp_write_error}
use mcu_fw_cpp.Error.Returns.{Returns, bind-Returns, lift-Returns, pure-Returns, weaken-Returns}
use mcu_fw_cpp.Otp.{
  Otp, reg_status, reg_direct_access_addr, reg_direct_access_wdata_0, reg_direct_access_cmd,
  cmd_read, cmd_write, reg_direct_access_rdata_0, default_timeout_cycles, has_error, status_idle,
  poll_idle, wait_for_idle, read_word, write_word,
}
use mcu_fw_cpp.Otp.Fuses.{View, burn, IsController}

module _ {S : Type 0} ⦃bus : Bus S⦄ (o : Otp) {view : S → View} {latency : ℕ}
    (d : IsController bus o view latency) (short : latency < default_timeout_cycles) where
  status_word :
      (s : S) → (read_reg o.base_addr reg_status s).0 ≡ (if (view s).wait == 0 then 1 else 0)
  unfolding read_reg
  status_word s = elim (Bool-cases ((view s).wait == 0)) [
    | inl h ↦ ap u32 (d.load_status s) ∙ rw h refl
    | inr h ↦ ap u32 (d.load_status s) ∙ rw h refl
  ]

  status_view :
      (s : S)
      → view (read_reg o.base_addr reg_status s).1 ≡ record (view s) { wait = (view s).wait - 1 }
  unfolding read_reg
  status_view s = d.status_waits s

  idle_bit :
      (s : S) → any_set (read_reg o.base_addr reg_status s).0 status_idle ≡ ((view s).wait == 0)
  idle_bit s = elim (Bool-cases ((view s).wait == 0)) [
    | inl h ↦ rw (status_word s) (rw h refl)
    | inr h ↦ rw (status_word s) (rw h refl)
  ]

  has_error-view : (s : S) → (has_error o s).0 ≡ false
  unfolding has_error
  has_error-view s = elim (Bool-cases ((view s).wait == 0)) [
    | inl h ↦ rw (status_word s) (rw h refl)
    | inr h ↦ rw (status_word s) (rw h refl)
  ]

  -- The controller after the wait: only the wait has run down.
  abbrev Settled : S → S → Type 0
  Settled s s' = view s' ≡ record (view s) { wait = 0 }

  poll_idle-settles : (n : ℕ) (s : S) → (view s).wait < n → Returns (poll_idle o n) s tt (Settled s)
  unfolding poll_idle
  poll_idle-settles zero s h = absurd (omega arith)
  poll_idle-settles (suc n) s h =
      let s' = (read_reg o.base_addr reg_status s).1 in
      elim (Bool-cases ((view s).wait == 0)) [
        | inl idle ↦
            rw (idle_bit s ∙ idle) (
              s',
              refl,
              status_view s ∙ ap (λ (w : ℕ). record (view s) { wait = w }) (ground arith),
            )
        | inr busy ↦ rw (idle_bit s ∙ busy) (
            weaken-Returns (poll_idle o n)
              (λ s'' settled. settled ∙ ap (λ (v : View). record v { wait = 0 }) (status_view s))
              (poll_idle-settles n s' (fewer s h busy)))
      ]
    where
      fewer :
          (s : S)
          → (view s).wait < suc n
          → ((view s).wait == 0) ≡ false
          → (view (read_reg o.base_addr reg_status s).1).wait < n
      fewer s h busy =
          let e : (view (read_reg o.base_addr reg_status s).1).wait ≡ (view s).wait - 1 =
            ap (λ (v : View). v.wait) (status_view s) in
          ground arith

  -- A step from any state with the view `v` to one with the view `v'`.
  abbrev pub Step : {A : Type 0} → Try S A → A → View → View → Type 0
  Step m a v v' = (s : S) → view s ≡ v → Returns m s a (λ s'. view s' ≡ v')

  infixr 4 ◌⨾◌
  ◌⨾◌ :
      {A : Type 0} {m : Try S (Unit {0})} {k : Try S A} {a : A} {v v' v'' : View}
      → Step m tt v v'
      → Step k a v' v''
      → Step (m >> k) a v v''
  ◌⨾◌ {m = m} {k = k} {a = a} first next = λ s e. bind-Returns m (λ done. k) s tt a (first s e) next

  wait-Step :
      (v : View)
      → v.wait < default_timeout_cycles
      → Step (wait_for_idle o default_timeout_cycles) tt v (record v { wait = 0 })
  unfolding wait_for_idle
  wait-Step v h s e =
      weaken-Returns (poll_idle o default_timeout_cycles)
        (λ s' settled. settled ∙ ap (λ (w : View). record w { wait = 0 }) e)
        (poll_idle-settles default_timeout_cycles s (rw (ap (λ (w : View). w.wait) e) h))

  addr-Step :
      (a : ℕ) (v : View)
      → Step
          (lift (write_reg o.base_addr reg_direct_access_addr a))
          tt
          v
          (record v { addr = u32 a })
  unfolding write_reg
  addr-Step a v s e =
      (_, refl, d.store_addr (u32 a) s ∙ ap (λ (w : View). record w { addr = u32 a }) e)

  wdata-Step :
      (x : ℕ) (v : View)
      → Step
          (lift (write_reg o.base_addr reg_direct_access_wdata_0 x))
          tt
          v
          (record v { wdata = u32 x })
  unfolding write_reg
  wdata-Step x v s e =
      (_, refl, d.store_wdata (u32 x) s ∙ ap (λ (w : View). record w { wdata = u32 x }) e)

  read-Step :
      (v : View)
      → Step
          (lift (write_reg o.base_addr reg_direct_access_cmd cmd_read))
          tt
          v
          (record v { rdata = v.fuses v.addr; wait = latency })
  unfolding write_reg
  read-Step v s e = (
    _,
    refl,
    d.store_read s ∙ ap (λ (w : View). record w { rdata = w.fuses w.addr; wait = latency }) e,
  )

  write-Step :
      (v : View)
      → Step
          (lift (write_reg o.base_addr reg_direct_access_cmd cmd_write))
          tt
          v
          (record v { fuses = burn v.addr v.wdata v.fuses; wait = latency })
  unfolding write_reg
  write-Step v s e = (
    _,
    refl,
    d.store_write s
        ∙ ap (λ (w : View). record w { fuses = burn w.addr w.wdata w.fuses; wait = latency }) e,
  )

  -- What follows the error check, on an idle controller.
  error-Step :
      {A : Type 0} (f : Bool → Try S A) (a : A) (v v' : View)
      → v.wait ≡ 0
      → Step (f false) a v v'
      → Step (lift (has_error o) >>= f) a v v'
  unfolding has_error
  error-Step f a v v' idle next s e =
      bind-Returns (lift (has_error o)) f s false a
        (lift-Returns (has_error o) s false (has_error-view s) (
          status_view s
          ∙ ap (λ (w : View). record w { wait = w.wait - 1 }) e
          ∙ ap (λ (w : ℕ). record v { wait = w }) (omega arith)))
        next

  rdata-Step :
      (v : View) → Step (lift (read_reg o.base_addr reg_direct_access_rdata_0)) (u32 v.rdata) v v
  unfolding read_reg
  rdata-Step v s e =
      lift-Returns (read_reg o.base_addr reg_direct_access_rdata_0) s (u32 v.rdata)
        (ap u32 (d.load_rdata s ∙ ap (λ (w : View). w.rdata) e)) (d.rdata_keeps s ∙ e)

  pub read_word-Step :
      (a : ℕ) (v : View)
      → v.wait < default_timeout_cycles
      → Step
          (read_word o a)
          (u32 (v.fuses (u32 a)))
          v
          (record v { addr = u32 a; rdata = v.fuses (u32 a); wait = 0 })
  unfolding read_word
  read_word-Step a v h =
      wait-Step v h
      ⨾ addr-Step a _
      ⨾ read-Step _
      ⨾ wait-Step _ short
      ⨾ error-Step
          (λ failed.
            if failed
            then fail otp_read_error
            else lift (read_reg o.base_addr reg_direct_access_rdata_0))
          _ _ _ refl (rdata-Step _)

  pub write_word-Step :
      (a x : ℕ) (v : View)
      → v.wait < default_timeout_cycles
      → Step
          (write_word o a x)
          tt
          v
          (record v { addr = u32 a; wdata = u32 x; fuses = burn (u32 a) (u32 x) v.fuses; wait = 0 })
  unfolding write_word
  write_word-Step a x v h =
      wait-Step v h
      ⨾ addr-Step a _
      ⨾ wdata-Step x _
      ⨾ write-Step _
      ⨾ wait-Step _ short
      ⨾ error-Step (λ failed. if failed then fail otp_write_error else pure tt) _ _ _ refl
          (λ s e. pure-Returns s tt e)
