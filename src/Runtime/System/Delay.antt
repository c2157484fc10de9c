-- ===== src/Runtime/System/Delay.antt =====
-- The busy wait of `SystemCapsule::syscall_delay_us`, on the target and on the host build.
use mcu_fw_cpp.Prelude.{
  ℕ, zero, suc, ◌+◌, ◌-◌, ◌*◌, ◌/◌, ◌%◌, ◌^◌, ◌<◌, ◌≤◌, ◌≡◌, refl, ap, ◌∙◌, u32, u64, arith, Option,
  none, some, ltb-cases, ◌==◌, if◌then◌else◌, inl, inr, ◌⊎◌,
}
use mcu_fw_cpp.Error.{McuResult, ok}
use mcu_fw_cpp.Romtime.Clock.{Platform, Csr, mcycle, platform_mcycle_riscv32, platform_mcycle_host}
use mcu_fw_cpp.Romtime.Clock.Torn.{IsCounter, platform_mcycle_riscv32-torn}
use mcu_fw_cpp.Runtime.System.{busy_wait, syscall_delay_us, sub64}

-- A counter that every read advances, by `step` cycles at most, and that is read right while it is
-- between `from` and `limit`.
record IsClock {S : Type 0} (platform : Platform S) (now : S → ℕ) (step from limit : ℕ)
    : Type 0 where
  reads : (s : S) → from ≤ now s → now s < limit → (platform.platform_mcycle s).0 ≡ u64 (now s)
  runs :
      (s : S)
      → (now s < now (platform.platform_mcycle s).1)
        × (now (platform.platform_mcycle s).1 ≤ now s + step)

module _ {S : Type 0} (platform : Platform S) {now : S → ℕ} {step from limit : ℕ}
    (d : IsClock platform now step from limit) where
  abbrev next : S → S
  next s = (platform.platform_mcycle s).1

  abbrev Waited : ℕ → ℕ → Option S → Type 0
  Waited start cycles o =
      (s' : S) × (o ≡ some s') × (start + cycles ≤ now s') × (now s' ≤ start + cycles + 2 * step)

  over :
      (start cycles : ℕ) (s : S) (o : Option S)
      → o ≡ some (next s)
      → now s ≤ start + cycles + step
      → start + cycles ≤ now s
      → Waited start cycles o
  over start cycles s o e soon le =
      let (runs, bound) = d.runs s in (next s, e, omega arith, omega arith)

  elapsed :
      (start : ℕ) (s : S)
      → start ≤ now s
      → now s < start + 2 ^ 64
      → from ≤ start
      → now s < limit
      → sub64 (mcycle platform s).0 (u64 start) ≡ now s - start
  unfolding mcycle
  elapsed start s le lt first last =
      ap (λ (v : ℕ). sub64 v (u64 start)) (d.reads s (omega arith) last) ∙ omega arith

  -- One round: the wait is over, or goes on from the next state.
  busy_wait-round :
      (fuel start cycles : ℕ) (s : S)
      → start ≤ now s
      → now s < start + 2 ^ 64
      → from ≤ start
      → now s < limit
      → ((start + cycles ≤ now s)
          × (busy_wait platform (suc fuel) (u64 start) cycles s ≡ some (next s)))
        ⊎ ((now s < start + cycles)
            × (busy_wait platform (suc fuel) (u64 start) cycles s
                ≡ busy_wait platform fuel (u64 start) cycles (next s)))
  unfolding busy_wait mcycle
  busy_wait-round fuel start cycles s le lt first last =
      let e = elapsed start s le lt first last in
      elim (ltb-cases (now s - start) cycles) [
        | inl (h, less) ↦ inr (omega arith, rw (e, h) refl)
        | inr (h, most) ↦ inl (omega arith, rw (e, h) refl)
      ]

  busy_wait-Waited :
      (fuel start cycles : ℕ) (s : S)
      → start ≤ now s
      → now s ≤ start + cycles + step
      → cycles + step < 2 ^ 64
      → start + cycles ≤ now s + fuel
      → from ≤ start
      → start + cycles + step < limit
      → Waited start cycles (busy_wait platform (suc fuel) (u64 start) cycles s)
  busy_wait-Waited zero start cycles s after soon fits enough first last =
      elim (busy_wait-round zero start cycles s after (omega arith) first (omega arith)) [
        | inl (le, e) ↦ over start cycles s _ e soon le
        | inr (lt, e) ↦ absurd (omega arith)
      ]
  busy_wait-Waited (suc fuel) start cycles s after soon fits enough first last =
      let (runs, bound) = d.runs s in
      elim (busy_wait-round (suc fuel) start cycles s after (omega arith) first (omega arith)) [
        | inl (le, e) ↦ over start cycles s _ e soon le
        | inr (lt, e) ↦ rw e (
            busy_wait-Waited fuel start cycles (next s) (omega arith) (omega arith) fits
              (omega arith) first last)
      ]

  abbrev finish : Option S → Option (McuResult (Unit {0}) × S)
  finish o = elim o [ none ↦ none | some s'' ↦ some (ok tt, s'') ]

  syscall_delay_us-busy_wait :
      (fuel us : ℕ) (s : S)
      → from ≤ now s
      → now s < limit
      → syscall_delay_us platform fuel us s
        ≡ finish (busy_wait platform fuel (u64 (now s)) (u32 us * 100) (next s))
  unfolding syscall_delay_us mcycle
  syscall_delay_us-busy_wait fuel us s first last =
      ap (λ (v : ℕ). finish (busy_wait platform fuel v (u32 us * 100) (next s)))
        (d.reads s first last)

  delay-Returns :
      (us : ℕ) (s : S)
      → us < 2 ^ 32
      → step ≤ 2 ^ 63
      → from ≤ now s
      → now s + us * 100 + step < limit
      → (s' : S) × (syscall_delay_us platform (suc (us * 100)) us s ≡ some (ok tt, s'))
        × (now s + us * 100 ≤ now s')
        × (now s' ≤ now s + us * 100 + 2 * step)
  delay-Returns us s fits short first last =
      let (runs, bound) = d.runs s in
      let (s', e, least, most) =
        busy_wait-Waited (us * 100) (now s) (u32 us * 100) (next s) (omega arith) (omega arith)
          (omega arith) (omega arith) first (omega arith) in
      (
        s',
        syscall_delay_us-busy_wait (suc (us * 100)) us s first (omega arith) ∙ ap finish e,
        omega arith,
        omega arith,
      )

-- The target build, whose counter is read in two halves.
abbrev pub target : {S : Type 0} → Csr S → Platform S
target csr = record { platform_mcycle = platform_mcycle_riscv32 csr }

module _ {S : Type 0} (csr : Csr S) {count : S → ℕ} {step : ℕ} (d : IsCounter csr count step) where
  target-runs :
      (s : S)
      → (count s < count (platform_mcycle_riscv32 csr s).1)
        × (count (platform_mcycle_riscv32 csr s).1 ≤ count s + 2 * step)
  unfolding platform_mcycle_riscv32
  target-runs s =
      let (low, low') = d.low_runs s in
      let (high, high') = d.high_runs (csr.csrr_mcycle s).1 in (omega arith, omega arith)

  -- The counter is read right as long as its low half does not run over.
  target-IsClock :
      (from : ℕ)
      → step ≤ 2 ^ 32
      → from < 2 ^ 64
      → IsClock (target csr) count (2 * step) from ((from / 2 ^ 32 + 1) * 2 ^ 32 - step)
  target-IsClock from short small = record {
    reads = λ s first last.
        elim (platform_mcycle_riscv32-torn csr d s short (below from (count s) small first last)) [
          | inl (same, e) ↦ let fits = below from (count s) small first last in e ∙ omega arith
          | inr (over, e) ↦
              let (runs, bound) = d.low_runs s in
              absurd (same_half from (count s) (count (csr.csrr_mcycle s).1) first last bound over)
        ];
    runs = target-runs;
  }
    where
      below :
          (f c : ℕ) → f < 2 ^ 64 → f ≤ c → c < (f / 2 ^ 32 + 1) * 2 ^ 32 - step → c + step < 2 ^ 64
      below f c small first last = omega arith

      same_half :
          (f c c' : ℕ)
          → f ≤ c
          → c < (f / 2 ^ 32 + 1) * 2 ^ 32 - step
          → c' ≤ c + step
          → c' / 2 ^ 32 ≡ c / 2 ^ 32 + 1
          → ⊥
      same_half f c c' first last near over = omega arith

  -- On the target, whose counter is read in two halves and runs on by up to `step` cycles with
  -- each of them: if the count is below 2 ^ 64 and its low half is more than `us * 100 + 3 * step`
  -- cycles from running over, then `syscall_delay_us` returns ok, after `us * 100 + 1` rounds at
  -- most; at least `us * 100` cycles have passed then, and at most those and `4 * step`.
  pub syscall_delay_us-Returns :
      (us : ℕ) (s : S)
      → count s < 2 ^ 64
      → count s % 2 ^ 32 + us * 100 + 3 * step < 2 ^ 32
      → (s' : S) × (syscall_delay_us (target csr) (suc (us * 100)) us s ≡ some (ok tt, s'))
        × (count s + us * 100 ≤ count s')
        × (count s' ≤ count s + us * 100 + 4 * step)
  syscall_delay_us-Returns us s small inside =
      let (s', e, least, most) =
        delay-Returns (target csr) (target-IsClock (count s) (omega arith) small) us s (omega arith)
          (omega arith) (omega arith) (omega arith) in
      (s', e, least, omega arith)

-- The host build, whose counter stands at 0.
abbrev pub host : Platform (Unit {0})
host = record { platform_mcycle = platform_mcycle_host }

busy_wait-host : (fuel cycles : ℕ) → 0 < cycles → busy_wait host fuel 0 cycles tt ≡ none
unfolding busy_wait mcycle platform_mcycle_host
busy_wait-host zero cycles h = refl
busy_wait-host (suc fuel) cycles h = ground (arith, busy_wait-host fuel cycles h)

-- On the host build, where the counter stands still, `syscall_delay_us` returns for the delay 0, in
-- the first round, and for no other: it is still waiting whatever the number of rounds.
pub syscall_delay_us-host :
    (us fuel : ℕ)
    → us < 2 ^ 32
    → syscall_delay_us host (suc fuel) us tt ≡ (if us == 0 then some (ok tt, tt) else none)
unfolding syscall_delay_us mcycle platform_mcycle_host
syscall_delay_us-host us fuel fits = elim (zero-or_more us) [
  | inl h ↦ rw h refl
  | inr h ↦
      ap (λ (o : Option (Unit {0})). elim o [ none ↦ none | some s'' ↦ some (ok tt, s'') ])
        (busy_wait-host (suc fuel) (u32 us * 100) (omega arith))
      ∙ ground arith
]
  where
    zero-or_more : (n : ℕ) → (n ≡ 0) ⊎ (0 < n)
    zero-or_more n = ground arith
