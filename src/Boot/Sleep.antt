-- ===== src/Boot/Sleep.antt =====
-- `sleep_ms` of kernel/kernel_main.c. The processor halts until an interrupt: `ticks n` is what the counter
-- holds when the loop reads it after `n` interrupts.
use native.Mathlib.Nat.{mul-le-mul}
use os_kernel.Base.{
  ℕ, zero, suc, ◌+◌, ◌-◌, ◌*◌, ◌/◌, ◌^◌, ◌<◌, ◌≤◌, ◌≡◌, ◌≢◌, refl, arith, ◌==◌, ltb, u64,
  if◌then◌else◌, Option, none, some, Bool-cases, inl, inr, ltb→lt, ltb→le, ne→==, ap, ==_iff, ==→ne,
}

-- The loop from reading `n` on: the reading it ends at. `none` is that `fuel` readings were not enough.
unfoldable pub sleep_loop : ℕ → (ℕ → ℕ) → ℕ → ℕ → Option ℕ
sleep_loop zero ticks n target = none
sleep_loop (suc fuel) ticks n target =
    let rest = sleep_loop fuel ticks (n + 1) target in if ltb (ticks n) target then rest else some n

-- The number of interrupts waited for. Without a frequency a loop without interrupts takes their place.
unfoldable pub sleep_ms : ℕ → (ℕ → ℕ) → ℕ → ℕ → ℕ → Option ℕ
sleep_ms fuel ticks start_ticks pit_hz ms =
    if pit_hz == 0
    then some 0
    else sleep_loop fuel ticks 0 (u64 (start_ticks + u64 (ms * pit_hz) / 1000))

-- the first reading from `n` on that is not below the target
abbrev pub IsFirst : (ℕ → ℕ) → ℕ → ℕ → ℕ → Type 0
IsFirst ticks n target k =
    (n ≤ k) × (target ≤ ticks k) × ((j : ℕ) → n ≤ j → j < k → ticks j < target)

sleep_loop_lem :
    (fuel : ℕ) (ticks : ℕ → ℕ) (n target last : ℕ)
    → n ≤ last
    → target ≤ ticks last
    → last < n + fuel
    → (k : ℕ) × (sleep_loop fuel ticks n target ≡ some k) × (k ≤ last) × IsFirst ticks n target k
unfolding sleep_loop
sleep_loop_lem zero ticks n target last le reached lt = absurd (omega arith)
sleep_loop_lem (suc fuel) ticks n target last le reached lt =
    elim (Bool-cases (ltb (ticks n) target)) [
      | inl early ↦
          let below : ticks n < target = ltb→lt (ticks n) target early in
          let later : n ≢ last = λ e. omega (arith, ap ticks e) in
          let (k, r, bound, (ge, enough, before)) =
            sleep_loop_lem fuel ticks (n + 1) target last (omega arith) reached (omega arith) in
          rw early (
            k,
            r,
            bound,
            (
              omega arith,
              enough,
              λ j a b. elim (Bool-cases (j == n)) [
                | inl here ↦ omega (arith, below, ap ticks ((==_iff j n).0 here))
                | inr other ↦ before j (omega (arith, ==→ne j n other)) b
              ],
            ),
          )
      | inr over ↦
          rw over (
            n,
            refl,
            le,
            (omega arith, ltb→le (ticks n) target over, λ j a b. absurd (omega arith)),
          )
    ]

-- With a frequency, `sleep_ms` ends at the first reading of the counter that is `ms * pit_hz / 1000` ticks or
-- more past the start, and not before, when some reading within the fuel is and the counter does not wrap round.
pub sleep_ms_lem :
    (fuel : ℕ) (ticks : ℕ → ℕ) (start_ticks pit_hz ms last : ℕ)
    → 0 < pit_hz
    → pit_hz < 2 ^ 32
    → ms < 2 ^ 32
    → start_ticks + ms * pit_hz / 1000 < 2 ^ 64
    → start_ticks + ms * pit_hz / 1000 ≤ ticks last
    → last < fuel
    → (k : ℕ) × (sleep_ms fuel ticks start_ticks pit_hz ms ≡ some k)
      × (k ≤ last)
      × IsFirst ticks 0 (start_ticks + ms * pit_hz / 1000) k
unfolding sleep_ms
sleep_ms_lem fuel ticks start_ticks pit_hz ms last pos small short fits reached lt =
    let bound : ms * pit_hz ≤ (2 ^ 32 - 1) * (2 ^ 32 - 1) =
      mul-le-mul {n₂ = 2 ^ 32 - 1} {m₂ = 2 ^ 32 - 1} (omega arith) (omega arith) in
    let product : u64 (ms * pit_hz) ≡ ms * pit_hz = omega (arith, bound) in
    let target : u64 (start_ticks + ms * pit_hz / 1000) ≡ start_ticks + ms * pit_hz / 1000 =
      omega arith in
    rw (ne→== pit_hz 0 (omega arith), product, target)
      (sleep_loop_lem fuel ticks 0 (start_ticks + ms * pit_hz / 1000) last (omega arith) reached
        (omega arith))
