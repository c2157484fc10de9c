-- ===== src/Error/Ensures.antt =====
-- A postcondition of a step that can fail, and its rule for a sequence of steps.
use mcu_fw_cpp.Prelude.{◌≡◌}
use mcu_fw_cpp.Error.{McuError, McuResult, ok, err, Try, ◌>>◌}

-- `Q` holds of the state after a success, `E` of the error and the state after a failure.
pub data Ensures {S : Type 0} {A : Type 0} (Q : S → Type 0) (E : McuError → S → Type 0)
    : McuResult A × S → Type 0 where
  done : {a : A} {s : S} → Q s → Ensures Q E (ok a, s)
  failed : {e : McuError} {s : S} → E e s → Ensures Q E (err e, s)

module _ {S : Type 0} where
  abbrev pub continue : {B : Type 0} → Try S B → McuResult (Unit {0}) × S → McuResult B × S
  continue k (r, s') = elim r [ ok a ↦ k s' | err e ↦ (err e, s') ]

  after :
      {B : Type 0} {Q : S → Type 0} {Q' : S → Type 0} {E : McuError → S → Type 0} {k : Try S B}
      {out : McuResult (Unit {0}) × S}
      → Ensures Q E out
      → ((s' : S) → Q s' → Ensures Q' E (k s'))
      → Ensures Q' E (continue k out)
  after (done q) next = next _ q
  after (failed e) next = failed e

  -- One step, and what follows it from any state that it may leave.
  infixr 4 ◌⨾◌
  pub ◌⨾◌ :
      {B : Type 0} {P Q Q' : S → Type 0} {E : McuError → S → Type 0} {m : Try S (Unit {0})}
      {k : Try S B}
      → ((s : S) → P s → Ensures Q E (m s))
      → ((s : S) → Q s → Ensures Q' E (k s))
      → (s : S) → P s
      → Ensures Q' E ((m >> k) s)
  first ⨾ next = λ s p. after (first s p) next

  -- A computed outcome.
  pub reached :
      {A : Type 0} {Q : S → Type 0} {E : McuError → S → Type 0} {out out' : McuResult A × S}
      → out ≡ out'
      → Ensures Q E out'
      → Ensures Q E out
  reached e h = rw e h

  -- A step that is known to succeed does not fail.
  pub succeeds :
      {A : Type 0} {Q : S → Type 0} {E E' : McuError → S → Type 0} {a : A} {out : McuResult A × S}
      → Ensures Q E out
      → out.0 ≡ ok a
      → Ensures Q E' out
  succeeds (done q) e = done q
  succeeds (failed f) e = cc
