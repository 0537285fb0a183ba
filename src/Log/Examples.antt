-- ===== src/Log/Examples.antt =====
-- The theorem on the messages of log/log.c at a terminal whose devices do nothing.
use os_kernel.Base.{refl, arith, [], ◌∷◌}
use os_kernel.Ports.{Ports}
use os_kernel.Vga.{Vga}
use os_kernel.Printf.{word}
use os_kernel.Printf.Format.{number, percent_d, end}
use os_kernel.Printf.Draw.{PrintsPieces}
use os_kernel.Log.{log_info, log_warn, log_error}
use os_kernel.Log.Message.{message, info_level, warn_level, error_level, log_lem}

abbrev silent : Ports (Unit {0})
silent = record { inb = λ port d. 0; outb = λ port v d. d }

abbrev terminal : Vga (Unit {0})
terminal = record {
  screen = record { cells = λ i. 0; cursor_row = 0; cursor_col = 0; current_color_byte = 0x0F };
  vga_lock = record { locked = 0 };
  devices = tt;
}

-- the format `%d` with 7, at time 100
log_lem_example :
    PrintsPieces silent
      (message 0x02 info_level 100 (number 7 ∷ []))
      terminal
      (log_info silent 100 (b'%' ∷ b'd' ∷ []) (word 7 ∷ []) terminal)
    × PrintsPieces silent
        (message 0x06 warn_level 100 (number 7 ∷ []))
        terminal
        (log_warn silent 100 (b'%' ∷ b'd' ∷ []) (word 7 ∷ []) terminal)
    × PrintsPieces silent
        (message 0x04 error_level 100 (number 7 ∷ []))
        terminal
        (log_error silent 100 (b'%' ∷ b'd' ∷ []) (word 7 ∷ []) terminal)
log_lem_example = log_lem silent 100 terminal (percent_d 7 (omega arith) end) refl
