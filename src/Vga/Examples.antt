-- ===== src/Vga/Examples.antt =====
-- The theorems on the text screen with a CRT controller of two registers and more.
use os_kernel.Base.{ℕ, ◌+◌, ◌*◌, ◌≡◌, refl, arith, ◌==◌, if◌then◌else◌, List, [], ◌∷◌, some}
use os_kernel.Ports.{Ports}
use os_kernel.Vga.{Screen, Vga, vga_write}
use os_kernel.Vga.Inside.{OnScreen, Keeps}
use os_kernel.Vga.Write.{IsCrtc, shown_cursor, put_all, vga_write-Keeps, vga_write-vga_put_char}
use os_kernel.Vga.Text.{Shows, vga_write-Shows}

record Controller : Type 0 where
  pub index : ℕ
  pub registers : ℕ → ℕ

abbrev card : Ports Controller
card = record {
  inb = λ port c. 0;
  outb = λ port v c.
      if port == 0x3D4
      then record c { index = v }
      else if port == 0x3D5
      then record c { registers = λ r. if r == c.index then v else c.registers r }
      else c;
}

card-IsCrtc : IsCrtc card (λ c. c.index) (λ c. c.registers)
card-IsCrtc = record {
  select-index = λ v c. refl;
  select-register = λ v r c. refl;
  write-register = λ v r c. refl;
}

-- the cursor is near the end of the last row
abbrev bottom : Screen
bottom = record { cells = λ i. i; cursor_row = 24; cursor_col = 77; current_color_byte = 0x0F }

bottom-OnScreen : OnScreen bottom
bottom-OnScreen = record { row = omega arith; col = omega arith }

abbrev terminal : Vga Controller
terminal = record {
  screen = bottom;
  vga_lock = record { locked = 0 };
  devices = record { index = 0; registers = λ r. 0 };
}

-- `Hi` and a new line
abbrev greeting : List ℕ
greeting = 72 ∷ 105 ∷ 10 ∷ []

vga_write-Keeps_example :
    (v' : Vga Controller) × (vga_write card greeting terminal ≡ some v')
    × Keeps bottom v'.screen
    × (v'.vga_lock.locked ≡ 0)
    × (shown_cursor v'.devices.registers ≡ v'.screen.cursor_row * 80 + v'.screen.cursor_col)
vga_write-Keeps_example =
    vga_write-Keeps card (λ c. c.index) (λ c. c.registers) card-IsCrtc greeting terminal refl
      bottom-OnScreen

vga_write-vga_put_char_example :
    (v' : Vga Controller) × (v'' : Vga Controller) × (vga_write card greeting terminal ≡ some v')
    × (put_all card greeting terminal ≡ some v'')
    × (v'.screen ≡ v''.screen)
    × (v'.vga_lock ≡ v''.vga_lock)
vga_write-vga_put_char_example = vga_write-vga_put_char card greeting terminal refl

vga_write-Shows_example :
    (v' : Vga Controller) × (vga_write card (72 ∷ 105 ∷ []) terminal ≡ some v')
    × Shows (72 ∷ 105 ∷ []) bottom v'.screen
vga_write-Shows_example =
    vga_write-Shows card (72 ∷ 105 ∷ []) terminal refl
      (omega arith, omega arith, (omega arith, omega arith, tt)) (omega arith) (omega arith)
      (omega arith)
