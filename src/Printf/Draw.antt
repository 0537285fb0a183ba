-- ===== src/Printf/Draw.antt =====
-- `vprintf` of lib/printf.c prints the pieces that its format and arguments describe.
use mathlib.Core.Path.{subst}
use os_kernel.Base.{
  all_below, all_below_sound, ◌==◌, ==_iff, Bool-cases, ltb, ltb→lt, ℕ, zero, suc, ◌+◌, ◌-◌, ◌*◌,
  ◌^◌, ◌≤◌, ◌<◌, ◌≡◌, ◌≢◌, refl, arith, ap, sym, u8, Option, none, some, ◌>>=◌, List, [], ◌∷◌, ◌++◌,
  ne→==, length, length-append, inl, inr, lt→ltb, Option-cases, le→leb,
}
use os_kernel.Ports.{Ports}
use os_kernel.Spinlock.{Spinlock, spinlock_release}
use os_kernel.Vga.{Vga, vga_put_char, vga_write, vga_set_color, write_loop, put_char, release}
use os_kernel.Vga.Inside.{write_loop-put_char}
use os_kernel.Vga.Write.{shows, acquire_free, vga_put_char_free, vga_write_free}
use os_kernel.Printf.{
  Arg, ansi_code, ansi_color, next_word, next_text, ansi_end, handle_ansi, directive, vprintf,
}
use os_kernel.Printf.Decimal.{read_digits, AreDigits, Prints, print_number_lem}
use os_kernel.Printf.Hex.{print_hex_lem}
use os_kernel.Printf.Format.{
  Piece, first_byte, Formats, plain, percent_d, percent_x, percent_p, percent_s, percent_c,
  percent_other, sequence, escape, end, Draws, shade, ansi_shade,
}

read_digits-le : (n : ℕ) (ds : List ℕ) → n ≤ read_digits n ds
read_digits-le n [] = omega arith
read_digits-le n (c ∷ ds) = omega (arith, read_digits-le (n * 10 + (c - 48)) ds)

ansi_code_lem :
    (n : ℕ) (ds fmt : List ℕ)
    → AreDigits ds
    → read_digits n ds < 2 ^ 31
    → ansi_code n (ds ++ (109 ∷ fmt)) ≡ some (read_digits n ds, 109 ∷ fmt)
unfolding ansi_code
ansi_code_lem n [] fmt d lt = refl
ansi_code_lem n (c ∷ ds) fmt (ge, le, d) lt =
    let bound = read_digits-le (n * 10 + (c - 48)) ds in
    let small : n * 10 + (c - 48) < 2 ^ 31 = omega arith in
    rw (le→leb 48 c ge, le→leb c 57 (omega arith), lt→ltb (n * 10 + (c - 48)) (2 ^ 31) small)
      (ansi_code_lem (n * 10 + (c - 48)) ds fmt d lt)

-- the number of an optional one and 1, or 0
abbrev code_of : Option ℕ → ℕ
code_of none = 0
code_of (some c) = c + 1

ansi_color_low : (n : ℕ) → n < 38 → ansi_color n ≡ ansi_shade n
unfolding ansi_color all_below
ansi_color_low n lt =
    let same =
      all_below_sound 38 (λ i. code_of (ansi_color i) == code_of (ansi_shade i)) n refl lt in
    code_of-eq (ansi_color n) (ansi_shade n) ((==_iff _ _).0 same)
  where
    code_of-eq : (x y : Option ℕ) → code_of x ≡ code_of y → x ≡ y
    code_of-eq none none e = refl
    code_of-eq none (some c) e = absurd (omega arith)
    code_of-eq (some b) none e = absurd (omega arith)
    code_of-eq (some b) (some c) e = ap (λ x. some x) (omega arith)

-- The table of the code is that of ANSI.
ansi_color_lem : (n : ℕ) → ansi_color n ≡ ansi_shade n
unfolding ansi_color
ansi_color_lem n = elim (Bool-cases (ltb n 38)) [
  | inl low ↦ ansi_color_low n (ltb→lt n 38 low)
  | inr high ↦ ground arith
]

module _ {D : Type 0} (io : Ports D) where
  -- the pieces are drawn, and the lock is free
  abbrev pub PrintsPieces : List Piece → Vga D → Option (Vga D) → Type 0
  PrintsPieces ps v r =
      (v' : Vga D) × (r ≡ some v')
      × Draws ps v.screen v'.screen
      × (v'.vga_lock ≡ record { locked = 0 })

  pub put_char_one :
      (c : ℕ) (v : Vga D)
      → v.vga_lock ≡ record { locked = 0 }
      → Prints io (c ∷ []) v (vga_put_char io c v)
  unfolding write_loop
  put_char_one c v free =
      rw (vga_put_char_free io c v (ap (λ (l : Spinlock). l.locked) free))
        (shows io (put_char c v.screen) v, refl, sym (write_loop-put_char c [] v.screen), refl)

  write_one :
      (t : List ℕ) (v : Vga D)
      → v.vga_lock ≡ record { locked = 0 }
      → Prints io t v (vga_write io t v)
  write_one t v free =
      rw (vga_write_free io t v (ap (λ (l : Spinlock). l.locked) free))
        (shows io (write_loop t v.screen) v, refl, refl, refl)

  -- a piece, and the rest of the format from the screen that it leaves
  then_rest :
      (cs : List ℕ) (ps : List Piece) (v : Vga D) (r : Option (Vga D)) (k : Vga D → Option (Vga D))
      → Prints io cs v r
      → ((v' : Vga D) → v'.vga_lock ≡ record { locked = 0 } → PrintsPieces ps v' (k v'))
      → (v' : Vga D) × (r >>= k ≡ some v')
        × Draws ps (write_loop cs v.screen) v'.screen
        × (v'.vga_lock ≡ record { locked = 0 })
  then_rest cs ps v r k (v1, e, same, free) later =
      let (v', e', draws, free') = later v1 free in
      (v', rw e e', subst (λ x. Draws ps x v'.screen) same draws, free')

  -- a directive that has printed, with what is left of the format and the arguments
  abbrev goes_on : List ℕ → List Arg → Vga D → Option (List ℕ × List Arg × Vga D)
  goes_on fmt args v = some (fmt, args, v)

  -- the same for a piece that a directive prints
  directive_rest :
      (cs : List ℕ) (ps : List Piece) (fmt : List ℕ) (args : List Arg) (v : Vga D)
      (r : Option (Vga D)) (k : List ℕ → List Arg → Vga D → Option (Vga D))
      → Prints io cs v r
      → ((v' : Vga D) → v'.vga_lock ≡ record { locked = 0 } → PrintsPieces ps v' (k fmt args v'))
      → (v' : Vga D) × (((r >>= goes_on fmt args) >>= (λ x. k x.0 x.1 x.2)) ≡ some v')
        × Draws ps (write_loop cs v.screen) v'.screen
        × (v'.vga_lock ≡ record { locked = 0 })
  directive_rest cs ps fmt args v r k (v1, e, same, free) later =
      let (v', e', draws, free') = later v1 free in
      (v', rw e e', subst (λ x. Draws ps x v'.screen) same draws, free')

  vga_set_color_free :
      (c : ℕ) (v : Vga D)
      → v.vga_lock ≡ record { locked = 0 }
      → vga_set_color c v
        ≡ some (record v { screen = shade (some c) v.screen; vga_lock = record { locked = 0 } })
  unfolding vga_set_color release spinlock_release
  vga_set_color_free c v free = rw (acquire_free v (ap (λ (l : Spinlock). l.locked) free)) refl

  handle_ansi-escape :
      (fmt : List ℕ) (v : Vga D) → first_byte fmt ≢ 91 → handle_ansi io fmt v ≡ some (none, v)
  unfolding handle_ansi
  handle_ansi-escape [] v ne = refl
  handle_ansi-escape (c ∷ fmt) v ne = rw (ne→== c 91 ne) refl

  handle_ansi-sequence :
      (p ds fmt : List ℕ) (v : Vga D)
      → AreDigits ds
      → read_digits 0 ds < 2 ^ 31
      → p ≡ ds ++ (109 ∷ fmt)
      → v.vga_lock ≡ record { locked = 0 }
      → (v' : Vga D) × (handle_ansi io (91 ∷ p) v ≡ some (some fmt, v'))
        × (v'.screen ≡ shade (ansi_shade (read_digits 0 ds)) v.screen)
        × (v'.vga_lock ≡ record { locked = 0 })
  unfolding handle_ansi ansi_end
  handle_ansi-sequence p ds fmt v digits small here free =
      elim (Option-cases (ansi_shade (read_digits 0 ds))) [
        | inl nothing ↦
            rw
              (
                here,
                ansi_code_lem 0 ds fmt digits small,
                ansi_color_lem (read_digits 0 ds),
                nothing,
              )
              (v, refl, refl, free)
        | inr (c, chosen) ↦
            rw
              (
                here,
                ansi_code_lem 0 ds fmt digits small,
                ansi_color_lem (read_digits 0 ds),
                chosen,
                vga_set_color_free c v free,
              )
              (
                record v { screen = shade (some c) v.screen; vga_lock = record { locked = 0 } },
                refl,
                refl,
                refl,
              )
      ]

  pub vprintf_lem :
      (fuel : ℕ) {fmt : List ℕ} {args : List Arg} {ps : List Piece} (v : Vga D)
      → Formats fmt args ps
      → length fmt < fuel
      → v.vga_lock ≡ record { locked = 0 }
      → PrintsPieces ps v (vprintf io fuel fmt args v)
  unfolding vprintf directive next_word next_text
  vprintf_lem zero v f lt free = absurd (omega arith)
  vprintf_lem (suc fuel) v end lt free = (v, refl, refl, free)
  vprintf_lem (suc fuel) v (plain {fmt = fmt} {args = args} {ps = ps} c no_escape no_percent f) lt
        free =
      rw (ne→== c 27 no_escape, ne→== c 37 no_percent)
        (then_rest (c ∷ []) ps v (vga_put_char io c v) (vprintf io fuel fmt args)
          (put_char_one c v free) (λ v' free'. vprintf_lem fuel v' f (omega arith) free'))
  vprintf_lem (suc fuel) v (percent_d {fmt = fmt} {args = args} {ps = ps} n small f) lt free =
      let (cs, prints, is) = print_number_lem io n v small free in
      let (v', e, draws, free') =
        directive_rest cs ps fmt args v _ (vprintf io fuel) prints
          (λ v' free'. vprintf_lem fuel v' f (omega arith) free') in
      (v', e, (cs, is, draws), free')
  vprintf_lem (suc fuel) v (percent_x {fmt = fmt} {args = args} {ps = ps} n small f) lt free =
      let (cs, prints, reads, some_digit) = print_hex_lem io n small in
      let (v', e, draws, free') =
        directive_rest cs ps fmt args v _ (vprintf io fuel) (prints v free).0
          (λ v' free'. vprintf_lem fuel v' f (omega arith) free') in
      (v', e, (cs, reads, some_digit, draws), free')
  vprintf_lem (suc fuel) v (percent_p {fmt = fmt} {args = args} {ps = ps} n small f) lt free =
      let (cs, prints, reads, some_digit) = print_hex_lem io n small in
      let (v', e, draws, free') =
        directive_rest (48 ∷ 120 ∷ cs) ps fmt args v _ (vprintf io fuel) (prints v free).1
          (λ v' free'. vprintf_lem fuel v' f (omega arith) free') in
      (v', e, (cs, reads, some_digit, draws), free')
  vprintf_lem (suc fuel) v (percent_s {fmt = fmt} {args = args} {ps = ps} t f) lt free =
      directive_rest t ps fmt args v _ (vprintf io fuel) (write_one t v free)
        (λ v' free'. vprintf_lem fuel v' f (omega arith) free')
  vprintf_lem (suc fuel) v (percent_c {fmt = fmt} {args = args} {ps = ps} n f) lt free =
      directive_rest (u8 n ∷ []) ps fmt args v _ (vprintf io fuel) (put_char_one (u8 n) v free)
        (λ v' free'. vprintf_lem fuel v' f (omega arith) free')
  vprintf_lem (suc fuel) v (percent_other {fmt = fmt} {args = args} {ps = ps} c nd nx np ns nc f) lt
        free =
      rw (ne→== c 100 nd, ne→== c 120 nx, ne→== c 112 np, ne→== c 115 ns, ne→== c 99 nc)
        (directive_rest (c ∷ []) ps fmt args v _ (vprintf io fuel) (put_char_one c v free)
          (λ v' free'. vprintf_lem fuel v' f (omega arith) free'))
  vprintf_lem (suc fuel) v (sequence {fmt = fmt} {ps = ps} ds digits small here f) lt free =
      let (v1, e, same, free1) = handle_ansi-sequence _ ds fmt v digits small here free in
      let shorter : length fmt < fuel =
        omega (arith, ap length here, length-append ds (109 ∷ fmt)) in
      let (v', e', draws, free') = vprintf_lem fuel v1 f shorter free1 in
      (v', rw e e', subst (λ x. Draws ps x v'.screen) same draws, free')
  vprintf_lem (suc fuel) v (escape {fmt = fmt} {args = args} {ps = ps} other f) lt free =
      rw (handle_ansi-escape fmt v other) (
        then_rest (27 ∷ []) ps v (vga_put_char io 27 v) (vprintf io fuel fmt args)
          (put_char_one 27 v free) (λ v' free'. vprintf_lem fuel v' f (omega arith) free'))
