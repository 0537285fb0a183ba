-- ===== src/Keyboard.antt =====
-- drivers/keyboard/keyboard.c: the handler of line 1. The devices behind the ports, among them the keyboard
-- and the interrupt controller, are a parameter; `t` is what `time_get_ticks` returns.
pub mod Handler
mod Examples
use os_kernel.Base.{
  ℕ, zero, suc, ltb, u8, bit_and, not, ◌==◌, ◌&&◌, Option, none, some, ◌>>=◌, if◌then◌else◌, List,
  [], ◌∷◌, length,
}
use os_kernel.Ports.{Ports}
use os_kernel.Idt.{Idt, driver, idt_register_handler}
use os_kernel.Vga.{Vga, vga_put_char}
use os_kernel.Printf.{Arg, word}
use os_kernel.Log.{log_info}

abbrev pub scancode_to_ascii : List ℕ
scancode_to_ascii =
    0 ∷ 0 ∷ b'1' ∷ b'2' ∷ b'3' ∷ b'4' ∷ b'5' ∷ b'6' ∷ b'7' ∷ b'8' ∷ b'9' ∷ b'0' ∷ b'-' ∷ b'=' ∷ 0
    ∷ b'\t' ∷ b'q' ∷ b'w' ∷ b'e' ∷ b'r' ∷ b't' ∷ b'y' ∷ b'u' ∷ b'i' ∷ b'o' ∷ b'p' ∷ b'[' ∷ b']'
    ∷ b'\n' ∷ 0 ∷ b'a' ∷ b's' ∷ b'd' ∷ b'f' ∷ b'g' ∷ b'h' ∷ b'j' ∷ b'k' ∷ b'l' ∷ b';' ∷ b'\'' ∷ b'`'
    ∷ 0 ∷ b'\\' ∷ b'z' ∷ b'x' ∷ b'c' ∷ b'v' ∷ b'b' ∷ b'n' ∷ b'm' ∷ b',' ∷ b'.' ∷ b'/' ∷ 0 ∷ b'*' ∷ 0
    ∷ b' ' ∷ []

abbrev pub scancode_table_size : ℕ
scancode_table_size = length scancode_to_ascii

-- an entry of the table, and 0 behind its end, where the handler does not look
abbrev pub ascii_at : List ℕ → ℕ → ℕ
ascii_at [] i = 0
ascii_at (c ∷ table) zero = c
ascii_at (c ∷ table) (suc i) = ascii_at table i

-- `Key: '%c' (scancode=0x%x)`
abbrev pub key_message : List ℕ
key_message =
    b'K' ∷ b'e' ∷ b'y' ∷ b':' ∷ b' ' ∷ b'\'' ∷ b'%' ∷ b'c' ∷ b'\'' ∷ b' ' ∷ b'(' ∷ b's' ∷ b'c'
    ∷ b'a' ∷ b'n' ∷ b'c' ∷ b'o' ∷ b'd' ∷ b'e' ∷ b'=' ∷ b'0' ∷ b'x' ∷ b'%' ∷ b'x' ∷ b')' ∷ []

-- `Key: (special, scancode=0x%x)`
abbrev pub special_message : List ℕ
special_message =
    b'K' ∷ b'e' ∷ b'y' ∷ b':' ∷ b' ' ∷ b'(' ∷ b's' ∷ b'p' ∷ b'e' ∷ b'c' ∷ b'i' ∷ b'a' ∷ b'l' ∷ b','
    ∷ b' ' ∷ b's' ∷ b'c' ∷ b'a' ∷ b'n' ∷ b'c' ∷ b'o' ∷ b'd' ∷ b'e' ∷ b'=' ∷ b'0' ∷ b'x' ∷ b'%'
    ∷ b'x' ∷ b')' ∷ []

-- `Keyboard driver initialized.`
abbrev pub init_message : List ℕ
init_message =
    b'K' ∷ b'e' ∷ b'y' ∷ b'b' ∷ b'o' ∷ b'a' ∷ b'r' ∷ b'd' ∷ b' ' ∷ b'd' ∷ b'r' ∷ b'i' ∷ b'v' ∷ b'e'
    ∷ b'r' ∷ b' ' ∷ b'i' ∷ b'n' ∷ b'i' ∷ b't' ∷ b'i' ∷ b'a' ∷ b'l' ∷ b'i' ∷ b'z' ∷ b'e' ∷ b'd'
    ∷ b'.' ∷ []

module _ {D : Type 0} (io : Ports D) where
  unfoldable pub send_eoi : Vga D → Vga D
  send_eoi v = record v { devices = io.outb 0x20 0x20 v.devices }

  -- what the handler prints for a key that is pressed
  unfoldable pub key_pressed : ℕ → ℕ → Vga D → Option (Vga D)
  key_pressed t scancode v =
      let c = ascii_at scancode_to_ascii scancode in
      if ltb scancode scancode_table_size && not (c == 0)
      then (do v1 ← log_info io t key_message (word c ∷ word scancode ∷ []) v; vga_put_char io c v1)
      else log_info io t special_message (word scancode ∷ []) v

  unfoldable pub keyboard_handler : ℕ → Vga D → Option (Vga D)
  keyboard_handler t v =
      let scancode = u8 (io.inb 0x60 v.devices) in
      if not (bit_and scancode 0x80 == 0)
      then some (send_eoi v)
      else do v1 ← key_pressed t scancode v; some (send_eoi v1)

  -- `handler` is the address of `keyboard_handler`.
  unfoldable pub keyboard_init : ℕ → ℕ → Idt → Vga D → Option (Idt × Vga D)
  keyboard_init handler t idt v = do
    v1 ← log_info io t init_message [] v
    some (idt_register_handler idt 33 (driver handler), v1)
