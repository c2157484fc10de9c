-- ===== src/Error/Slot.antt =====
-- The class template `McuResult<T>` with its fields: a flag, the storage and the error.
use mcu_fw_cpp.Prelude.{◌≡◌, refl, Bool, true, false, not, ◌&&◌, ◌||◌, Option, none, some}
use mcu_fw_cpp.Prelude.{Bool-cases, sym, ◌∙◌, inl, inr, ◌==◌, if◌then◌else◌, ap}
use mcu_fw_cpp.Error.{McuError, error_code}

-- `storage` is `none` before a value is constructed in it.
pub record Slot (A : Type 0) : Type 0 where
  pub has_value : Bool
  pub error : McuError
  pub storage : Option A

-- `error_ == McuError::SUCCESS`
is_success : McuError → Bool
unfolding error_code
is_success e = error_code e == 0

&&-false : (b : Bool) → (b && false) ≡ false
&&-false true = refl
&&-false false = refl

||-true : (b : Bool) → (b || true) ≡ true
||-true true = refl
||-true false = refl

module _ {A : Type 0} where
  -- The default constructor.
  unfoldable empty : Slot A
  empty = record { has_value = false; error = McuError.success; storage = none }

  unfoldable make_ok : A → Slot A
  make_ok a = record { has_value = true; error = McuError.success; storage = some a }

  unfoldable make_err : McuError → Slot A
  unfolding empty
  make_err e = record empty { error = e }

  pub is_ok : Slot A → Bool
  unfolding is_success
  is_ok r = is_success r.error && r.has_value

  pub is_err : Slot A → Bool
  unfolding is_success
  is_err r = not (is_success r.error)

  -- `none` is the endless loop of the panic; the value moves out of the slot.
  pub unwrap : Slot A → Option A × Slot A
  unfolding is_err
  unwrap r =
      if is_err r || not r.has_value then (none, r) else (r.storage, record r { has_value = false })

  unfoldable unwrap_or : A → Slot A → Option A × Slot A
  unfolding is_ok
  unwrap_or default_value r =
      if is_ok r && r.has_value
      then (r.storage, record r { has_value = false })
      else (some default_value, r)

  -- The move constructor: the new slot, and what it leaves in the old one.
  pub move : Slot A → Slot A × Slot A
  unfolding empty
  move other =
      if other.has_value
      then (
        record { has_value = true; error = other.error; storage = other.storage },
        record other { has_value = false },
      )
      else (record empty { error = other.error }, other)

  -- The move assignment to another slot than `other`: what `this` becomes, and what is left in
  -- `other`. A value that `this` holds is destroyed first, and its storage stays if none comes.
  unfoldable pub assign : Slot A → Slot A → Slot A × Slot A
  assign this other =
      if other.has_value
      then (
        record { has_value = true; error = other.error; storage = other.storage },
        record other { has_value = false },
      )
      else (record this { has_value = false; error = other.error }, other)

  -- `value()` on a slot that stays, and on one that gives its value away.
  unfoldable pub value : Slot A → Option A
  value r = r.storage

  unfoldable pub take_value : Slot A → Option A × Slot A
  take_value r = (r.storage, record r { has_value = false })

  -- A result without a value panics on `unwrap`, whatever its error.
  unwrap-gone : (r : Slot A) → r.has_value ≡ false → (unwrap r).0 ≡ none
  unfolding unwrap
  unwrap-gone r gone = rw (gone, ||-true (is_err r)) refl

  moved : Slot A → Slot A
  unfolding move
  moved r = (move r).0

  moved-unwrap : (r : Slot A) → (unwrap (moved r)).0 ≡ (unwrap r).0
  moved-unwrap r = elim (Bool-cases r.has_value) [
    | inl full ↦ ap (λ (x : Slot A). (unwrap x).0) (moved-full full)
    | inr gone ↦ unwrap-gone _ (moved-gone gone) ∙ sym (unwrap-gone r gone)
  ]
    where
      pick : Bool → Slot A
      pick b =
          let out : Slot A × Slot A =
            if b
            then (
              record { has_value = true; error = r.error; storage = r.storage },
              record r { has_value = false },
            )
            else (record empty { error = r.error }, r) in
          out.0

      moved-full : r.has_value ≡ true → moved r ≡ r
      moved-full full =
          unfold moved move in
          (ap pick full
            ∙ ap (λ (b : Bool). record { has_value = b; error = r.error; storage = r.storage })
                (sym full))

      moved-gone : r.has_value ≡ false → (moved r).has_value ≡ false
      moved-gone gone = unfold moved move empty in rw gone refl

  -- Moving a result keeps its answers: the new result answers `is_ok`, `is_err` and `unwrap` as the
  -- old one did before, and the result moved from is never ok again.
  move-answers :
      (r : Slot A)
      → (is_ok (move r).0 ≡ is_ok r)
        × (is_err (move r).0 ≡ is_err r)
        × ((unwrap (move r).0).0 ≡ (unwrap r).0)
        × (is_ok (move r).1 ≡ false)
  unfolding move is_ok is_err unwrap empty moved
  move-answers r = elim (Bool-cases r.has_value) [
    | inl full ↦ (rw full refl, rw full refl, moved-unwrap r, rw full (&&-false _))
    | inr gone ↦ (rw gone refl, rw gone refl, moved-unwrap r, rw gone (&&-false _))
  ]
