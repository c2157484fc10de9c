-- ===== src/Otp/Words.antt =====
-- `read_words` and `write_words` over a controller are the reading and the burning of an array.
use mcu_fw_cpp.Prelude.{
  ℕ, zero, suc, ◌+◌, ◌*◌, ◌^◌, ◌<◌, ◌≤◌, ◌≡◌, refl, ap, ap₂, ◌∙◌, u32, arith, List, [], ◌∷◌, length,
  map,
}
use mcu_fw_cpp.Prelude.Masks.{zero-bit_or}
use mathlib.Core.Path.{subst}
use mcu_fw_cpp.Bus.{Bus}
use mcu_fw_cpp.Error.{ok, ◌>>=◌, ◌>>◌, pure}
use mcu_fw_cpp.Error.Returns.{Returns, bind-Returns, pure-Returns}
use mcu_fw_cpp.Otp.{
  Otp, default_timeout_cycles, read_word, write_word, read_words_from, read_words, write_words_from,
  write_words,
}
use mcu_fw_cpp.Otp.Fuses.{View, Fuses, burn, IsController}
use mcu_fw_cpp.Otp.Steps.{read_word-Step, write_word-Step}

-- The abstract operations: `count` words from index `i` on, and the burning of some words there.
abbrev pub words_at : Fuses → ℕ → ℕ → ℕ → List ℕ
words_at f addr i zero = []
words_at f addr i (suc count) = u32 (f (u32 (addr + i * 4))) ∷ words_at f addr (i + 1) count

abbrev pub burn_all : ℕ → ℕ → List ℕ → Fuses → Fuses
burn_all addr i [] f = f
burn_all addr i (word ∷ rest) f =
    burn_all addr (i + 1) rest (burn (u32 (addr + i * 4)) (u32 word) f)

u32_idem : (a : ℕ) → u32 (u32 a) ≡ u32 a
u32_idem a = omega arith

-- Words behind the first do not touch it.
burn_all-keeps :
    (addr i b : ℕ) (words : List ℕ) (f : Fuses)
    → b < addr + i * 4
    → addr + (i + length words) * 4 ≤ 2 ^ 32
    → burn_all addr i words f b ≡ f b
burn_all-keeps addr i b [] f lt fits = refl
burn_all-keeps addr i b (word ∷ rest) f lt fits =
    burn_all-keeps addr (i + 1) b rest _ (omega arith) (omega arith) ∙ ground arith

-- The word burnt first stands there after the others.
burn_all-first :
    (addr i : ℕ) (word : ℕ) (rest : List ℕ) (f : Fuses)
    → addr + (i + suc (length rest)) * 4 ≤ 2 ^ 32
    → f (addr + i * 4) ≡ 0
    → u32 (burn_all addr i (word ∷ rest) f (u32 (addr + i * 4))) ≡ u32 word
burn_all-first addr i word rest f fits blank =
    let a : u32 (addr + i * 4) ≡ addr + i * 4 = omega arith in
    rw a (
      ap u32 (
        burn_all-keeps addr (i + 1) (addr + i * 4) rest (burn (addr + i * 4) (u32 word) f)
          (omega arith) (omega arith))
      ∙ ground (arith, zero-bit_or (u32 word), u32_idem word))

-- Burnt into blank fuses, the words stand there.
words_at-burn_all :
    (addr i : ℕ) (words : List ℕ) (f : Fuses)
    → addr + (i + length words) * 4 ≤ 2 ^ 32
    → ((b : ℕ) → addr + i * 4 ≤ b → f b ≡ 0)
    → words_at (burn_all addr i words f) addr i (length words) ≡ map u32 words
words_at-burn_all addr i [] f fits blank = refl
words_at-burn_all addr i (word ∷ rest) f fits blank =
    ap₂ ◌∷◌ (burn_all-first addr i word rest f (omega arith) (blank _ (omega arith))) (
      words_at-burn_all addr (i + 1) rest (burn (u32 (addr + i * 4)) (u32 word) f) (omega arith)
        (λ b le. ground (arith, blank b)))

module _ {S : Type 0} ⦃bus : Bus S⦄ (o : Otp) {view : S → View} {latency : ℕ}
    (d : IsController bus o view latency) (short : latency < default_timeout_cycles) where
  -- The controller holds these fuses, and is idle again before the driver gives up.
  abbrev pub Holds : Fuses → S → Type 0
  Holds f s = ((view s).fuses ≡ f) × ((view s).wait < default_timeout_cycles)

  read-Holds :
      (a : ℕ) (f : Fuses) (s : S)
      → Holds f s
      → Returns (read_word o (u32 a)) s (u32 (f (u32 a))) (Holds f)
  read-Holds a f s h =
      let (s', e, p) = read_word-Step o d short (u32 a) (view s) h.1 s refl in
      (
        s',
        e ∙ ap₂ (λ (g : Fuses) (b : ℕ). (ok (u32 (g b)), s')) h.0 (u32_idem a),
        (ap (λ (v : View). v.fuses) p ∙ h.0, rw (ap (λ (v : View). v.wait) p) (omega arith)),
      )

  write-Holds :
      (a x : ℕ) (f : Fuses) (s : S)
      → Holds f s
      → Returns (write_word o (u32 a) x) s tt (Holds (burn (u32 a) (u32 x) f))
  write-Holds a x f s h =
      let (s', e, p) = write_word-Step o d short (u32 a) x (view s) h.1 s refl in
      (
        s',
        e,
        (
          ap (λ (v : View). v.fuses) p
              ∙ ap₂ (λ (b : ℕ) (g : Fuses). burn b (u32 x) g) (u32_idem a) h.0,
          rw (ap (λ (v : View). v.wait) p) (omega arith),
        ),
      )

  read_words_from-Holds :
      (addr i count : ℕ) (f : Fuses) (s : S)
      → Holds f s
      → Returns (read_words_from o addr i count) s (words_at f addr i count) (Holds f)
  unfolding read_words_from
  read_words_from-Holds addr i zero f s h = pure-Returns s [] h
  read_words_from-Holds addr i (suc count) f s h =
      bind-Returns (read_word o (u32 (addr + i * 4)))
        (λ word. read_words_from o addr (i + 1) count >>= λ rest. pure (word ∷ rest)) s _ _
        (read-Holds (addr + i * 4) f s h)
        (λ s' h'.
          bind-Returns (read_words_from o addr (i + 1) count) (λ rest. pure (_ ∷ rest)) s' _ _
            (read_words_from-Holds addr (i + 1) count f s' h') (λ s'' h''. pure-Returns s'' _ h''))

  write_words_from-Holds :
      (addr i : ℕ) (words : List ℕ) (f : Fuses) (s : S)
      → Holds f s
      → Returns (write_words_from o addr i words) s tt (Holds (burn_all addr i words f))
  unfolding write_words_from
  write_words_from-Holds addr i [] f s h = pure-Returns s tt h
  write_words_from-Holds addr i (word ∷ rest) f s h =
      bind-Returns (write_word o (u32 (addr + i * 4)) word)
        (λ done. write_words_from o addr (i + 1) rest) s tt tt
        (write-Holds (addr + i * 4) word f s h)
        (λ s' h'. write_words_from-Holds addr (i + 1) rest _ s' h')

  -- Over a controller without faults whose fuses are `f` and which is idle again in time, `read_words` returns the words of the
  -- fuse array at the addresses `addr + 4 * i` (on 32 bits), in order, and no fuse changes.
  pub read_words-Holds :
      (addr count : ℕ) (f : Fuses) (s : S)
      → Holds f s
      → Returns (read_words o addr count) s (words_at f addr 0 count) (Holds f)
  unfolding read_words
  read_words-Holds addr count f s h = read_words_from-Holds addr 0 count f s h

  -- Over such a controller, words written with `write_words` to fuses that are all blank from
  -- `addr` on, with no address beyond 32 bits, are what `read_words` then returns there.
  pub read_words-write_words :
      (addr : ℕ) (words : List ℕ) (f : Fuses) (s : S)
      → Holds f s
      → ((b : ℕ) → addr ≤ b → f b ≡ 0)
      → addr + length words * 4 ≤ 2 ^ 32
      → Returns
          (write_words o addr words >> read_words o addr (length words))
          s
          (map u32 words)
          (Holds (burn_all addr 0 words f))
  unfolding write_words
  read_words-write_words addr words f s h blank fits =
      bind-Returns (write_words o addr words) (λ done. read_words o addr (length words)) s tt _
        (write_words_from-Holds addr 0 words f s h)
        (λ s' h'.
          subst
            (λ (ws : List ℕ).
              Returns (read_words o addr (length words)) s' ws (Holds (burn_all addr 0 words f)))
            (words_at-burn_all addr 0 words f (omega arith) (λ b le. blank b (omega arith)))
            (read_words-Holds addr (length words) (burn_all addr 0 words f) s' h'))
