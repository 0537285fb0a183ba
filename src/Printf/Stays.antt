-- ===== src/Printf/Stays.antt =====
-- `printf` of lib/printf.c keeps the cursor on the screen, and writes nothing behind it.
use mathlib.Core.Path.{subst}
use os_kernel.Base.{ℕ, ◌+◌, ◌≤◌, ◌≡◌, refl, arith, ◌∙◌, sym, none, some, List, [], ◌∷◌, length}
use os_kernel.Ports.{Ports}
use os_kernel.Vga.{Vga, Screen, write_loop}
use os_kernel.Vga.Inside.{OnScreen, write_loop-Keeps}
use os_kernel.Printf.{Arg, printf}
use os_kernel.Printf.Format.{
  Piece, chars, number, hexadecimal, pointer, color, Formats, Draws, shade,
}
use os_kernel.Printf.Draw.{vprintf_lem}

-- The cursor is on the screen, and the memory of `s` behind the screen is as it was.
abbrev pub Stays : Screen → Screen → Type 0
Stays s s' = OnScreen s' × ((i : ℕ) → 2000 ≤ i → s'.cells i ≡ s.cells i)

-- what holds after a text and what is drawn behind it
write-Stays :
    (t : List ℕ) (s s' : Screen)
    → OnScreen s
    → (OnScreen (write_loop t s) → Stays (write_loop t s) s')
    → Stays s s'
write-Stays t s s' w later =
    let kept = write_loop-Keeps t s w in
    let (w', same) = later kept.on_screen in (w', λ i le. same i le ∙ kept.behind i le)

pub Draws-Stays : (ps : List Piece) (s s' : Screen) → OnScreen s → Draws ps s s' → Stays s s'
Draws-Stays [] s s' w e = subst (Stays s) (sym e) (w, λ i le. refl)
Draws-Stays (chars t ∷ ps) s s' w d =
    write-Stays t s s' w (λ w'. Draws-Stays ps (write_loop t s) s' w' d)
Draws-Stays (number n ∷ ps) s s' w (cs, is, d) =
    write-Stays cs s s' w (λ w'. Draws-Stays ps (write_loop cs s) s' w' d)
Draws-Stays (hexadecimal n ∷ ps) s s' w (cs, reads, some_digit, d) =
    write-Stays cs s s' w (λ w'. Draws-Stays ps (write_loop cs s) s' w' d)
Draws-Stays (pointer n ∷ ps) s s' w (cs, reads, some_digit, d) =
    write-Stays (48 ∷ 120 ∷ cs) s s' w (λ w'. Draws-Stays ps (write_loop (48 ∷ 120 ∷ cs) s) s' w' d)
Draws-Stays (color none ∷ ps) s s' w d = Draws-Stays ps s s' w d
Draws-Stays (color (some c) ∷ ps) s s' w d =
    let (w', same) = Draws-Stays ps (shade (some c) s) s' (record { row = w.row; col = w.col }) d in
    (w', same)

module _ {D : Type 0} (io : Ports D) where
  -- On a format with its arguments `printf` ends when the lock is free and the cursor on the screen; after it
  -- the lock is free again, the cursor is on the screen, and memory behind the screen is as it was.
  printf-Stays :
      {fmt : List ℕ} {args : List Arg} {ps : List Piece} (v : Vga D)
      → Formats fmt args ps
      → v.vga_lock ≡ record { locked = 0 }
      → OnScreen v.screen
      → (v' : Vga D) × (printf io fmt args v ≡ some v')
        × Stays v.screen v'.screen
        × (v'.vga_lock ≡ record { locked = 0 })
  unfolding printf
  printf-Stays {fmt} {args} {ps} v f free w =
      let (v', e, draws, free') = vprintf_lem io (length fmt + 1) v f (omega arith) free in
      (v', e, Draws-Stays ps v.screen v'.screen w draws, free')
