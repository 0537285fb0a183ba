-- ===== src/Printf/Format.antt =====
-- What a format of lib/printf.c means: the pieces of output that it and its arguments describe.
use os_kernel.Base.{
  ◌==◌, leb, ◌&&◌, if◌then◌else◌, ◌+◌, ◌-◌, ◌*◌, ◌/◌, ◌%◌, ℕ, ◌^◌, ◌≤◌, ◌<◌, ◌≡◌, ◌≢◌, u8, bit_and,
  bit_or, Option, none, some, List, [], ◌∷◌, ◌++◌, length,
}
use os_kernel.Vga.{Screen, write_loop}
use os_kernel.Printf.{Arg, word, text}
use os_kernel.Printf.Decimal.{read_digits, AreDigits, IsInt}
use os_kernel.Printf.Hex.{read_hex}

pub data Piece : Type 0 where
  chars : List ℕ → Piece
  number : ℕ → Piece
  hexadecimal : ℕ → Piece
  pointer : ℕ → Piece
  color : Option ℕ → Piece

abbrev pub first_byte : List ℕ → ℕ
first_byte [] = 0
first_byte (c ∷ fmt) = c

-- The colour of the text screen that the number of an ANSI sequence stands for: 30 to 37 count in red, green and
-- blue, from the lowest bit on, where the screen has them the other way round; 0 is bright white.
abbrev pub ansi_shade : ℕ → Option ℕ
ansi_shade n =
    if n == 0
    then some 15
    else if leb 30 n && leb n 37
    then some ((n - 30) % 2 * 4 + (n - 30) / 2 % 2 * 2 + (n - 30) / 4)
    else none

-- The pieces of a format with its arguments, as the comments of C's `printf` and the ANSI standard have
-- them. A format that ends in `%`, arguments of the wrong type, and a number in a sequence that is no `int` or that
-- no `m` follows are left out.
pub data Formats : List ℕ → List Arg → List Piece → Type 0 where
  end : {args : List Arg} → Formats [] args []
  plain :
      {fmt : List ℕ} {args : List Arg} {ps : List Piece} (c : ℕ)
      → c ≢ 27
      → c ≢ 37
      → Formats fmt args ps
      → Formats (c ∷ fmt) args (chars (c ∷ []) ∷ ps)
  percent_d :
      {fmt : List ℕ} {args : List Arg} {ps : List Piece} (n : ℕ)
      → n < 2 ^ 32
      → Formats fmt args ps
      → Formats (37 ∷ 100 ∷ fmt) (word n ∷ args) (number n ∷ ps)
  percent_x :
      {fmt : List ℕ} {args : List Arg} {ps : List Piece} (n : ℕ)
      → n < 2 ^ 32
      → Formats fmt args ps
      → Formats (37 ∷ 120 ∷ fmt) (word n ∷ args) (hexadecimal n ∷ ps)
  percent_p :
      {fmt : List ℕ} {args : List Arg} {ps : List Piece} (n : ℕ)
      → n < 2 ^ 32
      → Formats fmt args ps
      → Formats (37 ∷ 112 ∷ fmt) (word n ∷ args) (pointer n ∷ ps)
  percent_s :
      {fmt : List ℕ} {args : List Arg} {ps : List Piece} (t : List ℕ)
      → Formats fmt args ps
      → Formats (37 ∷ 115 ∷ fmt) (text t ∷ args) (chars t ∷ ps)
  percent_c :
      {fmt : List ℕ} {args : List Arg} {ps : List Piece} (n : ℕ)
      → Formats fmt args ps
      → Formats (37 ∷ 99 ∷ fmt) (word n ∷ args) (chars (u8 n ∷ []) ∷ ps)
  percent_other :
      {fmt : List ℕ} {args : List Arg} {ps : List Piece} (c : ℕ)
      → c ≢ 100
      → c ≢ 120
      → c ≢ 112
      → c ≢ 115
      → c ≢ 99
      → Formats fmt args ps
      → Formats (37 ∷ c ∷ fmt) args (chars (c ∷ []) ∷ ps)
  sequence :
      {fmt p : List ℕ} {args : List Arg} {ps : List Piece} (ds : List ℕ)
      → AreDigits ds
      → read_digits 0 ds < 2 ^ 31
      → p ≡ ds ++ (109 ∷ fmt)
      → Formats fmt args ps
      → Formats (27 ∷ 91 ∷ p) args (color (ansi_shade (read_digits 0 ds)) ∷ ps)
  escape :
      {fmt : List ℕ} {args : List Arg} {ps : List Piece}
      → first_byte fmt ≢ 91
      → Formats fmt args ps
      → Formats (27 ∷ fmt) args (chars (27 ∷ []) ∷ ps)

abbrev pub shade : Option ℕ → Screen → Screen
shade none s = s
shade (some c) s = record s {
  current_color_byte = bit_or (bit_and c 0x0F) (bit_and s.current_color_byte 0xF0);
}

-- The screen after the pieces: an `int` stands there as its decimal numeral, and a hexadecimal number as digits
-- that read back give the number.
abbrev pub Draws : List Piece → Screen → Screen → Type 0
Draws [] s s' = s' ≡ s
Draws (chars t ∷ ps) s s' = Draws ps (write_loop t s) s'
Draws (number n ∷ ps) s s' = (cs : List ℕ) × IsInt n cs × Draws ps (write_loop cs s) s'
Draws (hexadecimal n ∷ ps) s s' =
    (cs : List ℕ) × (read_hex 0 cs ≡ n) × (1 ≤ length cs) × Draws ps (write_loop cs s) s'
Draws (pointer n ∷ ps) s s' =
    (cs : List ℕ) × (read_hex 0 cs ≡ n)
    × (1 ≤ length cs)
    × Draws ps (write_loop (48 ∷ 120 ∷ cs) s) s'
Draws (color c ∷ ps) s s' = Draws ps (shade c s) s'
