-- ===== src/Panic/Examples.antt =====
-- The theorem on kernel/panic.c at a screen with text.
use os_kernel.Base.{◌≡◌, refl, none, some, codes}
use os_kernel.Vga.{Vga}
use os_kernel.Panic.{kernel_panic, kernel_panic_lem}

abbrev terminal : Vga (Unit {0})
terminal = record {
  screen = record {
    cells = λ i. 0x0F41;
    cursor_row = 3;
    cursor_col = 5;
    current_color_byte = 0x0F;
  };
  vga_lock = record { locked = 0 };
  devices = tt;
}

kernel_panic_lem_example :
    kernel_panic (codes "no memory") none terminal
    ≡ some (record terminal { screen = record terminal.screen { current_color_byte = 0x4F } })
kernel_panic_lem_example = kernel_panic_lem (codes "no memory") none terminal refl
