-- ===== src/Printf/Examples.antt =====
-- The theorems on lib/printf.c at a terminal whose devices do nothing.
use os_kernel.Base.{ℕ, ◌-◌, ◌^◌, refl, arith, List, [], ◌∷◌, some}
use os_kernel.Ports.{Ports}
use os_kernel.Vga.{Vga}
use os_kernel.Printf.{Arg, word, text, print_number}
use os_kernel.Printf.Decimal.{Prints, IsInt, print_number_lem}
use os_kernel.Printf.Format.{Piece, chars, number, color}

abbrev silent : Ports (Unit {0})
silent = record { inb = λ port d. 0; outb = λ port v d. d }

abbrev terminal : Vga (Unit {0})
terminal = record {
  screen = record { cells = λ i. 0; cursor_row = 3; cursor_col = 79; current_color_byte = 0x0F };
  vga_lock = record { locked = 0 };
  devices = tt;
}

-- the `int` -12
print_number_lem_example :
    (cs : List ℕ) × Prints silent cs terminal (print_number silent (2 ^ 32 - 12) terminal)
    × IsInt (2 ^ 32 - 12) cs
print_number_lem_example = print_number_lem silent (2 ^ 32 - 12) terminal (omega arith) refl

-- a green number, a string and a new line
abbrev line : List ℕ
line = 27 ∷ 91 ∷ 51 ∷ 50 ∷ 109 ∷ 37 ∷ 100 ∷ 32 ∷ 37 ∷ 115 ∷ 10 ∷ []

abbrev args : List Arg
args = word 42 ∷ text (111 ∷ 107 ∷ []) ∷ []

abbrev pieces : List Piece
pieces =
    color (some 0x02) ∷ number 42 ∷ chars (32 ∷ []) ∷ chars (111 ∷ 107 ∷ []) ∷ chars (10 ∷ []) ∷ []
