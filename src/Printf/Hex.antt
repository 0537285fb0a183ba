-- ===== src/Printf/Hex.antt =====
-- `print_hex` and `print_ptr` of lib/printf.c: the hexadecimal print of 32 bits and its reading.
use native.Mathlib.Nat.{div-div-eq-div-mul}
use os_kernel.Base.{
  ℕ, zero, suc, ◌+◌, ◌-◌, ◌*◌, ◌/◌, ◌^◌, ◌≤◌, ◌<◌, ◌≡◌, ◌≢◌, refl, arith, ◌∙◌, ap, sym, ◌==◌, ltb,
  not, ◌||◌, bit_and, Option, none, some, if◌then◌else◌, Bool, true, false, Bool-cases, List, [],
  ◌∷◌, inl, inr, Option-cases, length, get_elem?, all_below, all_below_sound, ==_iff,
}
use os_kernel.Base.Fields.{bit_and_low}
use os_kernel.Ports.{Ports}
use os_kernel.Vga.{Vga, write_loop}
use os_kernel.Spinlock.{Spinlock}
use os_kernel.Vga.Write.{shows, vga_write_free}
use os_kernel.Printf.{hex, hex_loop, print_hex, print_ptr}
use os_kernel.Printf.Decimal.{Prints, put_char-Prints}

abbrev pub hex_value : ℕ → ℕ
hex_value c = if ltb c 58 then c - 48 else c - 55

-- the number that starts with `n` and goes on with the hexadecimal digits
abbrev pub read_hex : ℕ → List ℕ → ℕ
read_hex n [] = n
read_hex n (c ∷ cs) = read_hex (n * 16 + hex_value c) cs

abbrev stands_for : ℕ → Option ℕ → Bool
stands_for d none = false
stands_for d (some c) = hex_value c == d

hex_lem : (d : ℕ) → d < 16 → (c : ℕ) × (get_elem? hex d ≡ some c) × (hex_value c ≡ d)
unfolding all_below
hex_lem d lt =
    let checked = all_below_sound 16 (λ i. stands_for i (get_elem? hex i)) d refl lt in
    elim (Option-cases (get_elem? hex d)) [
      | inl missing ↦
          let bad : stands_for d (get_elem? hex d) ≡ false = ap (stands_for d) missing in
          absurd (cc)
      | inr (c, found) ↦
          (c, found, (==_iff (hex_value c) d).0 (sym (ap (stands_for d) found) ∙ checked))
    ]

pow_step : (left : ℕ) → 2 ^ (4 * suc left) ≡ 2 ^ (4 * left) * 16
pow_step left =
    let four : 4 * suc left ≡ suc (suc (suc (suc (4 * left)))) = omega arith in
    ap (λ x. 2 ^ x) four ∙ omega arith

digit_step :
    (num left : ℕ)
    → num / 2 ^ (4 * suc left) * 16 + bit_and (num / 2 ^ (4 * left)) 15 ≡ num / 2 ^ (4 * left)
digit_step num left =
    let whole : num / 2 ^ (4 * suc left) ≡ num / 2 ^ (4 * left) / 16 =
      ap (λ x. num / x) (pow_step left) ∙ sym (div-div-eq-div-mul num (2 ^ (4 * left)) 16) in
    rw (bit_and_low 4 (num / 2 ^ (4 * left)), whole) (omega arith)

module _ {D : Type 0} (io : Ports D) where
  -- the digits that the loop prints when it has `left` rounds to go
  abbrev HexDigits : ℕ → Bool → ℕ → Type 0
  HexDigits left started num =
      (cs : List ℕ) × ((v : Vga D)
        → v.vga_lock ≡ record { locked = 0 }
        → Prints io cs v (hex_loop io left started num v))
      × (read_hex (num / 2 ^ (4 * left)) cs ≡ num)
      × (started ≡ false → left ≢ 0 → 1 ≤ length cs)

  hex_loop-HexDigits :
      (left : ℕ) (started : Bool) (num : ℕ)
      → (started ≡ false → num / 2 ^ (4 * left) ≡ 0)
      → HexDigits left started num
  unfolding hex_loop write_loop
  hex_loop-HexDigits zero started num none_yet =
      ([], λ v free. (v, refl, refl, free), omega arith, λ e ne. absurd (ne refl))
  hex_loop-HexDigits (suc left) started num none_yet =
      let digit = bit_and (num / 2 ^ (4 * left)) 15 in
      let step = digit_step num left in
      let below : digit < 16 = omega (arith, bit_and_low 4 (num / 2 ^ (4 * left))) in
      elim (Bool-cases (not (digit == 0) || (started || (left == 0)))) [
        | inl shown ↦
            let (c, found, value) = hex_lem digit below in
            let (cs, prints, reads, some_digit) =
              hex_loop-HexDigits left true num (λ e. absurd (cc)) in
            (
              c ∷ cs,
              λ v free.
                  rw (shown, found)
                    (put_char-Prints io c cs v (hex_loop io left true num) free prints),
              ap (λ x. read_hex (num / 2 ^ (4 * suc left) * 16 + x) cs) value
                  ∙ ap (λ x. read_hex x cs) step
                  ∙ reads,
              λ e ne. omega arith,
            )
        | inr skipped ↦
            let quiet : (digit ≡ 0) × (started ≡ false) × (left ≢ 0) = ground arith in
            let (nought, fresh, ne) = quiet in
            let (cs, prints, reads, some_digit) =
              hex_loop-HexDigits left started num
                (λ e. omega (arith, step, none_yet fresh, nought)) in
            (
              cs,
              λ v free. rw skipped (prints v free),
              ap (λ x. read_hex x cs) (omega (arith, step, none_yet fresh, nought)) ∙ reads,
              λ e _. some_digit e ne,
            )
      ]

  -- When the lock is free, `print_hex` ends and prints hexadecimal digits, at least one, that read back
  -- give its argument; `print_ptr` prints such digits behind `0x`.
  pub print_hex_lem :
      (num : ℕ)
      → num < 2 ^ 32
      → (cs : List ℕ) × ((v : Vga D)
          → v.vga_lock ≡ record { locked = 0 }
          → Prints io cs v (print_hex io num v) × Prints io (48 ∷ 120 ∷ cs) v (print_ptr io num v))
        × (read_hex 0 cs ≡ num)
        × (1 ≤ length cs)
  unfolding print_hex print_ptr write_loop
  print_hex_lem num lt =
      let (cs, prints, reads, some_digit) = hex_loop-HexDigits 8 false num (λ e. omega arith) in
      (
        cs,
        λ v free. (
          prints v free,
          (let (v', r, same, free') =
                prints (shows io (write_loop (48 ∷ 120 ∷ []) v.screen) v) refl in
              (
                v',
                rw (vga_write_free io (48 ∷ 120 ∷ []) v (ap (λ (l : Spinlock). l.locked) free)) r,
                same,
                free',
              )),
        ),
        ap (λ x. read_hex x cs) (omega arith) ∙ reads,
        some_digit refl (λ e. absurd (omega arith)),
      )
