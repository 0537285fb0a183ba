-- ===== src/Keyboard/Examples.antt =====
-- The theorems on the keyboard with the key `a` pressed, whose scancode is 30.
use os_kernel.Base.{ℕ, ◌≤◌, ◌<◌, ◌≡◌, refl, arith, none, some}
use os_kernel.Ports.{Ports}
use os_kernel.Vga.{Vga}
use os_kernel.Printf.Format.{Draws}
use os_kernel.Keyboard.{keyboard_handler}
use os_kernel.Keyboard.Handler.{shown_pieces, keyboard_handler_lem, keyboard_handler-taken}

-- The devices are the last byte written and the scancode.
record Board : Type 0 where
  pub written : ℕ
  pub scancode : ℕ

abbrev board : Ports Board
board = record { inb = λ port d. d.scancode; outb = λ port v d. record d { written = v } }

abbrev terminal : ℕ → Vga Board
terminal lock = record {
  screen = record { cells = λ i. 0; cursor_row = 0; cursor_col = 0; current_color_byte = 0x0F };
  vga_lock = record { locked = lock };
  devices = record { written = 0; scancode = 30 };
}

keyboard_handler_lem_example :
    (128 ≤ 30
      → keyboard_handler board 5 (terminal 0)
        ≡ some (record (terminal 0) { devices = record { written = 0x20; scancode = 30 } }))
    × (30 < 128
        → (v' : Vga Board) × (keyboard_handler board 5 (terminal 0)
            ≡ some (record v' { devices = record v'.devices { written = 0x20 } }))
          × Draws (shown_pieces 5 30) (terminal 0).screen v'.screen
          × (v'.vga_lock ≡ record { locked = 0 }))
keyboard_handler_lem_example = keyboard_handler_lem board 5 (terminal 0) refl

keyboard_handler-taken_example : keyboard_handler board 5 (terminal 1) ≡ none
keyboard_handler-taken_example = keyboard_handler-taken board 5 (terminal 1) refl (omega arith)
