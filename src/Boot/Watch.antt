-- ===== src/Boot/Watch.antt =====
-- The messages of `kernel_main` in kernel/kernel_main.c once interrupts are on, and its loop that watches
-- the tick counter for 5 seconds. `clock n` is what the counter holds when the kernel reads it for the
-- `n`-th time. Only the timer interrupts, and what its handler writes to the controllers is left out: a key
-- that is pressed meanwhile prints, as in Keyboard.
use os_kernel.Base.{
  ℕ, zero, suc, ◌+◌, ◌*◌, ◌/◌, ◌^◌, ◌≤◌, ◌<◌, ◌≡◌, refl, arith, u32, ◌==◌, ne→==, if◌then◌else◌,
  Option, some, ◌>>=◌, List, [], ◌∷◌, ◌++◌, codes, true,
}
use os_kernel.Ports.{Ports}
use os_kernel.Vga.{Vga}
use os_kernel.Printf.{Arg, word}
use os_kernel.Printf.Format.{Piece, Formats, number, percent_d, end}
use os_kernel.Log.{log_info}
use os_kernel.Log.Message.{letters, Formats-letters, all_plain}
use os_kernel.Log.Usable.{IsUsable, log-EndsUsable, log_text}
use os_kernel.Boot.Sleep.{sleep_ms, sleep_ms_lem}

-- the screen with its devices, and how often the counter has been read
pub record Running (D : Type 0) : Type 0 where
  pub vga : Vga D
  pub readings : ℕ

ticks_message :
    (n : ℕ)
    → n < 2 ^ 32
    → Formats
        (codes "  System ticks: %d")
        (word n ∷ [])
        (letters (codes "  System ticks: ") ++ (number n ∷ []))
ticks_message n lt = Formats-letters (codes "  System ticks: ") refl (percent_d n lt end)

-- The counter does not fall. From each of the readings before `until` it does not wrap round within `hz` ticks,
-- and `last` readings after the next it has advanced by `hz`.
pub record Advances (clock : ℕ → ℕ) (last hz until : ℕ) : Type 0 where
  pub rises : (i j : ℕ) → i ≤ j → clock i ≤ clock j
  pub fits : (i : ℕ) → i < until → clock i + hz < 2 ^ 64
  pub goes_on : (i : ℕ) → i < until → clock i + hz ≤ clock (i + 1 + last)

module _ {D : Type 0} (io : Ports D) (clock : ℕ → ℕ) where
  -- a call of `log_info`, which reads the counter once
  unfoldable pub say : List ℕ → List Arg → Running D → Option (Running D)
  say fmt args r = do
    v ← log_info io (clock r.readings) fmt args r.vga
    some (record { vga = v; readings = r.readings + 1 })

  -- A round of the loop. `sleep_ms` reads the counter when it starts, and then until it ends.
  unfoldable pub watch_round : ℕ → ℕ → Running D → Option (Running D)
  watch_round fuel hz r = do
    k ← sleep_ms fuel (λ j. clock (r.readings + 1 + j)) (clock r.readings) hz 1000
    let n = if hz == 0 then r.readings else r.readings + k + 2
    say (codes "  System ticks: %d") (word (u32 (clock n)) ∷ []) (record r { readings = n + 1 })

  unfoldable pub watch_ticks : ℕ → ℕ → ℕ → Running D → Option (Running D)
  watch_ticks zero fuel hz r = some r
  watch_ticks (suc rounds) fuel hz r = do r' ← watch_round fuel hz r; watch_ticks rounds fuel hz r'

  -- The command goes on with a usable screen after one reading more.
  abbrev pub Says : Running D → Option (Running D) → Type 0
  Says r o = (r' : Running D) × (o ≡ some r') × IsUsable r'.vga × (r'.readings ≡ r.readings + 1)

  pub say-Says :
      {fmt : List ℕ} {args : List Arg} {ps : List Piece} (r : Running D)
      → Formats fmt args ps
      → IsUsable r.vga
      → Says r (say fmt args r)
  unfolding say
  say-Says r f u =
      let (v, e, u') = (log-EndsUsable io (clock r.readings) r.vga f u).0 in
      (record { vga = v; readings = r.readings + 1 }, rw e refl, u', refl)

  pub say_text :
      (text : List ℕ) (r : Running D)
      → all_plain text ≡ true
      → IsUsable r.vga
      → Says r (say text [] r)
  unfolding say
  say_text text r e u =
      let (v, e', u') = log_text io (clock r.readings) text r.vga e u in
      (record { vga = v; readings = r.readings + 1 }, rw e' refl, u', refl)

  module _ (fuel last hz until : ℕ) (enough : last < fuel) (pos : 0 < hz) (small : hz < 2 ^ 32)
      (w : Advances clock last hz until) where
    watch_round_lem :
        (r : Running D)
        → IsUsable r.vga
        → r.readings < until
        → (r' : Running D) × (watch_round fuel hz r ≡ some r')
          × IsUsable r'.vga
          × (r'.readings ≤ r.readings + (last + 4))
          × (clock r.readings + hz ≤ clock r'.readings)
    unfolding watch_round
    watch_round_lem r u soon =
        let ticks : ℕ → ℕ = λ j. clock (r.readings + 1 + j) in
        let second : 1000 * hz / 1000 ≡ hz = omega arith in
        let (k, e, bound, first) =
          sleep_ms_lem fuel ticks (clock r.readings) hz 1000 last pos small (omega arith)
            (omega (arith, second, w.fits r.readings soon))
            (omega (arith, second, w.goes_on r.readings soon)) enough in
        let n = r.readings + k + 2 in
        let (r', e', u', at) =
          say-Says (record r { readings = n + 1 }) (ticks_message (u32 (clock n)) (omega arith))
            u in
        (
          r',
          rw (e, ◌>>=◌, ne→== hz 0 (omega arith)) e',
          u',
          omega (arith, at, bound),
          later r'.readings k first.1 (omega (arith, at)),
        )
      where
        later :
            (n k : ℕ)
            → clock r.readings + 1000 * hz / 1000 ≤ clock (r.readings + 1 + k)
            → r.readings + 1 + k ≤ n
            → clock r.readings + hz ≤ clock n
        later n k reached le = omega (arith, reached, w.rises (r.readings + 1 + k) n le)

    pub watch_ticks_lem :
        (rounds : ℕ) (r : Running D)
        → IsUsable r.vga
        → r.readings + rounds * (last + 4) ≤ until
        → (r' : Running D) × (watch_ticks rounds fuel hz r ≡ some r')
          × IsUsable r'.vga
          × (clock r.readings + rounds * hz ≤ clock r'.readings)
    unfolding watch_ticks
    watch_ticks_lem zero r u le = (r, refl, u, omega arith)
    watch_ticks_lem (suc rounds) r u le =
        let (r1, e1, u1, few, passed1) = watch_round_lem r u (grind arith) in
        let (r', e', u', passed') = watch_ticks_lem rounds r1 u1 (grind arith) in
        (r', rw (e1, ◌>>=◌) e', u', grind arith)
