-- ===== src/Boot/Main.antt =====
-- `kernel_main` of kernel/kernel_main.c up to the call of `run_all_tests`, the self tests of the kernel.
-- `clock` is as in Boot/Watch; the fuel bounds the readings of each `sleep_ms` and the blocks that each call
-- on the heap visits.
use os_kernel.Base.{
  ℕ, ◌+◌, ◌-◌, ◌*◌, ◌<◌, ◌≤◌, ◌≡◌, refl, arith, true, false, Option, some, ◌>>=◌, [], ◌∷◌, codes,
}
use os_kernel.Ports.{Ports}
use os_kernel.Kmalloc.Chain.{IsHeap}
use os_kernel.Log.Usable.{IsUsable}
use os_kernel.Boot.{Machine, Addresses, start_kernel}
use os_kernel.Boot.Start.{start_kernel_lem}
use os_kernel.Boot.Watch.{Running, say, say_text, watch_ticks, Advances, watch_ticks_lem}
use os_kernel.Boot.Trial.{Trial, heap_trial}
use os_kernel.Boot.Trial.Messages.{passes}
use os_kernel.Boot.Trial.Passes.{heap_trial_lem}

module _ {D : Type 0} (io : Ports D) (clock : ℕ → ℕ) where
  -- the part behind `sti`
  unfoldable pub run_kernel : ℕ → ℕ → Machine D → (ℕ → ℕ) → Option (Trial D)
  run_kernel fuel heap_fuel m words = do
    r1 ←
        say io clock (codes "Interrupts enabled globally. System tick counter is active.") []
          (record { vga = m.vga; readings = 0 })
    r2 ← say io clock (codes "Watching system ticks for 5 seconds...") [] r1
    r3 ← watch_ticks io clock 5 fuel m.current_pit_hz r2
    r4 ← say io clock (codes "Boot sequence complete. Entering kernel idle loop.") [] r3
    heap_trial io clock heap_fuel m.heap words r4

  unfoldable pub kernel_main :
      ℕ → ℕ → Addresses → (ℕ → ℕ) → Machine D → (ℕ → ℕ) → Option (Machine D × Trial D)
  kernel_main fuel heap_fuel a interrupts m words = do
    m' ← start_kernel io a interrupts m
    t ← run_kernel fuel heap_fuel m' words
    some (m', t)

  -- what the trial has done when 500 ticks have passed
  record Ran (t : Trial D) : Type 0 where
    before : Running D
    passed : clock 0 + 500 ≤ clock before.readings
    spoken : passes io clock 0x20000C 0x200028 before ≡ some t.running
    usable : IsUsable t.running.vga
    first : t.a ≡ some 0x20000C
    second : t.b ≡ some 0x200028
    third : t.c ≡ t.a
    heap :
        IsHeap t.heap 0x200000 0x300000
          ((16, false) ∷ (16, false) ∷ (0x100000 - 12 - 16 - 12 - 16 - 12, true) ∷ [])

  run_kernel-Ran :
      (fuel last : ℕ) (m : Machine D) (words : ℕ → ℕ)
      → last < fuel
      → Advances clock last 100 (5 * (last + 4) + 2)
      → IsUsable m.vga
      → IsHeap m.heap 0x200000 0x300000 ((0x100000 - 12, true) ∷ [])
      → m.current_pit_hz ≡ 100
      → (t : Trial D) × (run_kernel fuel 4 m words ≡ some t) × Ran t
  unfolding run_kernel
  run_kernel-Ran fuel last m words enough w u0 heap rate =
      let (r1, e1, u1, n1) =
        say_text io clock (codes "Interrupts enabled globally. System tick counter is active.")
          (record { vga = m.vga; readings = 0 }) refl u0 in
      let (r2, e2, u2, n2) =
        say_text io clock (codes "Watching system ticks for 5 seconds...") r1 refl u1 in
      let (r3, e3, u3, passed) =
        watch_ticks_lem io clock fuel last 100 (5 * (last + 4) + 2) enough (omega arith)
          (omega arith) w 5 r2 u2 (omega (arith, n1, n2)) in
      let (r4, e4, u4, n4) =
        say_text io clock (codes "Boot sequence complete. Entering kernel idle loop.") r3 refl u3 in
      let (t, e5, spoken, u5, at, bt, ct, after, _, _) =
        heap_trial_lem io clock 4 0x200000 0x300000 (0x100000 - 12) m.heap words r4 heap
          (omega arith) (omega arith) u4 in
      (
        t,
        rw (e1, ◌>>=◌, e2, ◌>>=◌, rate, e3, ◌>>=◌, e4, ◌>>=◌, e5) refl,
        record {
          before = r4;
          passed = since r2.readings r3.readings r4.readings passed (omega (arith, n4));
          spoken = spoken;
          usable = u5;
          first = at;
          second = bt;
          third = ct;
          heap = after;
        },
      )
    where
      since : (i j k : ℕ) → clock i + 5 * 100 ≤ clock j → j ≤ k → clock 0 + 500 ≤ clock k
      since i j k passed le = omega (arith, passed, w.rises 0 i (omega arith), w.rises j k le)

  -- From any memory, with timer interrupts as in `start_kernel` and then as `clock` has them, and no other
  -- interrupt, `kernel_main` reaches the self tests, once each `sleep_ms` may read the counter more than
  -- `last` times and each call on the heap may visit three blocks, when the counter never falls and, from each
  -- of the first `5 * (last + 4) + 2` readings on, does not wrap round within 100 ticks and has gone on by 100
  -- at the reading `last + 1` later. By then the rate that `pit_init` has recorded is 100 Hz and 500 ticks have passed; the
  -- screen is usable; each test of the heap has passed with the messages that say so, the third block being
  -- the first one again; and the heap holds two blocks of 16 bytes in use and a free one behind them.
  pub kernel_main_lem :
      (fuel last : ℕ) (a : Addresses) (interrupts : ℕ → ℕ) (m : Machine D) (words : ℕ → ℕ)
      → last < fuel
      → Advances clock last 100 (5 * (last + 4) + 2)
      → (m' : Machine D) × (t : Trial D) × (r : Running D) × (kernel_main fuel 4 a interrupts m
            words
          ≡ some (m', t))
        × (m'.current_pit_hz ≡ 100)
        × (clock 0 + 500 ≤ clock r.readings)
        × (passes io clock 0x20000C 0x200028 r ≡ some t.running)
        × IsUsable t.running.vga
        × (t.a ≡ some 0x20000C)
        × (t.b ≡ some 0x200028)
        × (t.c ≡ t.a)
        × IsHeap t.heap 0x200000 0x300000
            ((16, false) ∷ (16, false) ∷ (0x100000 - 12 - 16 - 12 - 16 - 12, true) ∷ [])
  unfolding kernel_main
  kernel_main_lem fuel last a interrupts m words enough w =
      let (m', e0, u0, heap, _, _, rate, _) = start_kernel_lem io a interrupts m in
      let (t, e, ran) = run_kernel-Ran fuel last m' words enough w u0 heap rate in
      (
        m',
        t,
        ran.before,
        rw (e0, ◌>>=◌, e) refl,
        rate,
        ran.passed,
        ran.spoken,
        ran.usable,
        ran.first,
        ran.second,
        ran.third,
        ran.heap,
      )
