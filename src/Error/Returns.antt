-- ===== src/Error/Returns.antt =====
-- A step that returns a known value and leaves a state with a known property, and its rules.
use mcu_fw_cpp.Prelude.{◌≡◌, ap, ◌∙◌, refl}
use mcu_fw_cpp.Bus.{Hw}
use mcu_fw_cpp.Error.{McuResult, ok, err, Try, ◌>>=◌, lift, pure}

module _ {S : Type 0} where
  -- `m` succeeds from `s` with the value `a`, in a state that `P` holds of.
  abbrev pub Returns : {A : Type 0} → Try S A → S → A → (S → Type 0) → Type 0
  Returns m s a P = (s' : S) × (m s ≡ (ok a, s')) × P s'

  abbrev pass : {A B : Type 0} → (A → Try S B) → McuResult A × S → McuResult B × S
  pass f (r, s') = elim r [ ok a ↦ f a s' | err e ↦ (err e, s') ]

  pub bind-Returns :
      {A B : Type 0} {P Q : S → Type 0} (m : Try S A) (f : A → Try S B) (s : S) (a : A) (b : B)
      → Returns m s a P
      → ((s' : S) → P s' → Returns (f a) s' b Q)
      → Returns (m >>= f) s b Q
  bind-Returns m f s a b (s', e, p) next =
      let (s'', e', q) = next s' p in (s'', ap (pass f) e ∙ e', q)

  pub lift-Returns :
      {A : Type 0} {P : S → Type 0} (m : Hw S A) (s : S) (a : A)
      → (m s).0 ≡ a
      → P (m s).1
      → Returns (lift m) s a P
  lift-Returns m s a e p = ((m s).1, ap (λ x. (ok x, (m s).1)) e, p)

  pub pure-Returns : {A : Type 0} {P : S → Type 0} (s : S) (a : A) → P s → Returns (pure a) s a P
  pure-Returns s a p = (s, refl, p)

  pub weaken-Returns :
      {A : Type 0} {P Q : S → Type 0} (m : Try S A) {s : S} {a : A}
      → ((s' : S) → P s' → Q s')
      → Returns m s a P
      → Returns m s a Q
  weaken-Returns m f (s', e, p) = (s', e, f s' p)
