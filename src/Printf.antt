-- ===== src/Printf.antt =====
-- lib/printf.c: the formatted output of the kernel, on the text screen of Vga. A format is the list of its
-- bytes before the end mark. `none` is what C leaves undefined, and output that waits for the lock for ever.
pub mod Decimal
pub mod Hex
pub mod Format
pub mod Draw
pub mod Stays
mod Examples
use os_kernel.Base.{
  ℕ, zero, suc, ◌+◌, ◌-◌, ◌*◌, ◌/◌, ◌%◌, ◌^◌, ◌==◌, leb, ltb, u8, u32, not, ◌||◌, ◌&&◌, bit_and,
  Option, none, some, ◌>>=◌, if◌then◌else◌, Bool, true, false, List, [], ◌∷◌, get_elem?, length,
}
use os_kernel.Ports.{Ports}
use os_kernel.Vga.{Vga, vga_put_char, vga_write, vga_set_color}

-- The first loop of `print_number`, with `room` bytes left in `buf`: the digits, the last one that it
-- writes in front. `none` is a write behind the end of `buf`.
unfoldable pub number_digits : ℕ → ℕ → List ℕ → Option (List ℕ)
number_digits zero unum buf = if unum == 0 then some buf else none
number_digits (suc room) unum buf =
    let rest = number_digits room (unum / 10) ((48 + unum % 10) ∷ buf) in
    if unum == 0 then some buf else rest

-- `hex`
abbrev pub hex : List ℕ
hex = 48 ∷ 49 ∷ 50 ∷ 51 ∷ 52 ∷ 53 ∷ 54 ∷ 55 ∷ 56 ∷ 57 ∷ 65 ∷ 66 ∷ 67 ∷ 68 ∷ 69 ∷ 70 ∷ []

-- The loop of `handle_ansi` over the digits of a number, from `code` on: the number and the rest of the
-- format. `none` is an overflow of its `int`.
unfoldable pub ansi_code : ℕ → List ℕ → Option (ℕ × List ℕ)
ansi_code code [] = some (code, [])
ansi_code code (c ∷ p) =
    let next = code * 10 + (c - 48) in
    let rest = ansi_code next p in
    if leb 48 c && leb c 57 then (if ltb next (2 ^ 31) then rest else none) else some (code, c ∷ p)

-- The `switch` of `handle_ansi`: the argument of `vga_set_color`, if it is called.
unfoldable pub ansi_color : ℕ → Option ℕ
ansi_color code =
    if code == 30
    then some 0x00
    else if code == 31
    then some 0x04
    else if code == 32
    then some 0x02
    else if code == 33
    then some 0x06
    else if code == 34
    then some 0x01
    else if code == 35
    then some 0x05
    else if code == 36
    then some 0x03
    else if code == 37
    then some 0x07
    else if code == 0
    then some 0x0F
    else none

-- An argument behind the format: 32 bits, or a pointer to a string.
pub data Arg : Type 0 where
  word : ℕ → Arg
  text : List ℕ → Arg

-- `va_arg` of an `int` and of the types with its 32 bits, and of a `char *`; `none` is an argument of the wrong
-- type, or none left
unfoldable pub next_word : List Arg → Option (ℕ × List Arg)
next_word [] = none
next_word (word n ∷ args) = some (n, args)
next_word (text t ∷ args) = none

unfoldable pub next_text : List Arg → Option (List ℕ × List Arg)
next_text [] = none
next_text (word n ∷ args) = none
next_text (text t ∷ args) = some (t, args)

module _ {D : Type 0} (io : Ports D) where
  -- the second loop of `print_number`
  unfoldable pub print_buffer : List ℕ → Vga D → Option (Vga D)
  print_buffer [] v = some v
  print_buffer (c ∷ buf) v = do v1 ← vga_put_char io c v; print_buffer buf v1

  -- An `int` is its 32 bits.
  unfoldable pub print_number : ℕ → Vga D → Option (Vga D)
  print_number num v =
      if num == 0
      then vga_put_char io 48 v
      else if leb (2 ^ 31) num
      then (do
        v1 ← vga_put_char io 45 v
        buf ← number_digits 32 (u32 (2 ^ 32 - num)) []
        print_buffer buf v1)
      else do buf ← number_digits 32 num []; print_buffer buf v

  -- The loop of `print_hex` and of `print_ptr`, with `left` rounds to go; `i` is four times those after
  -- this one.
  unfoldable pub hex_loop : ℕ → Bool → ℕ → Vga D → Option (Vga D)
  hex_loop zero started num v = some v
  hex_loop (suc left) started num v =
      let digit = bit_and (num / 2 ^ (4 * left)) 0xF in
      let skipped = hex_loop left started num v in
      let shown = (do
        c ← get_elem? hex digit
        v1 ← vga_put_char io c v
        hex_loop left true num v1) in
      if not (digit == 0) || (started || (left == 0)) then shown else skipped

  unfoldable pub print_hex : ℕ → Vga D → Option (Vga D)
  print_hex num v = hex_loop 8 false num v

  -- `0x` and a pointer of 32 bits
  unfoldable pub print_ptr : ℕ → Vga D → Option (Vga D)
  print_ptr ptr v = do v1 ← vga_write io (48 ∷ 120 ∷ []) v; hex_loop 8 false ptr v1

  -- The end of `handle_ansi`, from `p` on: the format behind the sequence, if it is one.
  unfoldable pub ansi_end : ℕ → List ℕ → Vga D → Option (Option (List ℕ) × Vga D)
  ansi_end code [] v = some (none, v)
  ansi_end code (c ∷ p) v = if not (c == 109) then some (none, v) else elim (ansi_color code) [
    | none ↦ some (some p, v)
    | some color ↦ do v1 ← vga_set_color color v; some (some p, v1)
  ]

  -- The argument is the format behind the escape.
  unfoldable pub handle_ansi : List ℕ → Vga D → Option (Option (List ℕ) × Vga D)
  handle_ansi [] v = some (none, v)
  handle_ansi (c ∷ p) v =
      if not (c == 91) then some (none, v) else do (code, q) ← ansi_code 0 p; ansi_end code q v

  -- What follows a `%`. At the end of the format C prints the end mark and goes on reading behind it.
  unfoldable pub directive : List ℕ → List Arg → Vga D → Option (List ℕ × List Arg × Vga D)
  directive [] args v = none
  directive (c ∷ fmt) args v =
      if c == 100
      then (do (n, args1) ← next_word args; v1 ← print_number n v; some (fmt, args1, v1))
      else if c == 120
      then (do (n, args1) ← next_word args; v1 ← print_hex n v; some (fmt, args1, v1))
      else if c == 112
      then (do (n, args1) ← next_word args; v1 ← print_ptr n v; some (fmt, args1, v1))
      else if c == 115
      then (do (t, args1) ← next_text args; v1 ← vga_write io t v; some (fmt, args1, v1))
      else if c == 99
      then (do (n, args1) ← next_word args; v1 ← vga_put_char io (u8 n) v; some (fmt, args1, v1))
      else do v1 ← vga_put_char io c v; some (fmt, args, v1)

  -- The loop of `vprintf`; `fuel` is the number of its rounds and 1.
  unfoldable pub vprintf : ℕ → List ℕ → List Arg → Vga D → Option (Vga D)
  vprintf zero fmt args v = none
  vprintf (suc fuel) [] args v = some v
  vprintf (suc fuel) (c ∷ fmt) args v =
      let next = vprintf fuel in
      if c == 27
      then (do
        (jump, v1) ← handle_ansi fmt v
        elim jump [
          | none ↦ (do v2 ← vga_put_char io c v1; next fmt args v2)
          | some rest ↦ next rest args v1
        ])
      else if c == 37
      then (do (rest, args1, v1) ← directive fmt args v; next rest args1 v1)
      else do v1 ← vga_put_char io c v; next fmt args v1

  -- A format has at most one round for each byte.
  unfoldable pub printf : List ℕ → List Arg → Vga D → Option (Vga D)
  printf fmt args v = vprintf (length fmt + 1) fmt args v
