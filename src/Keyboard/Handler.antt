-- ===== src/Keyboard/Handler.antt =====
-- What the handler of drivers/keyboard/keyboard.c prints, and that it acknowledges the interrupt.
use os_kernel.Base.{
  ℕ, ◌^◌, ◌≤◌, ◌<◌, ◌≡◌, refl, arith, ◌==◌, ltb, not, ◌&&◌, u8, bit_and, Bool, none, some,
  if◌then◌else◌, List, [], ◌∷◌, ◌++◌, Bool-cases, inl, inr, le→ltb, lt→ltb,
}
use os_kernel.Base.Fields.{bit_and_field}
use os_kernel.Ports.{Ports}
use os_kernel.Spinlock.{spinlock_acquire}
use os_kernel.Vga.{Vga, acquire, vga_put_char}
use os_kernel.Printf.{Arg, word, vprintf, printf}
use os_kernel.Printf.Format.{Piece, chars, hexadecimal, Formats, percent_c, percent_x, end, Draws}
use os_kernel.Printf.Draw.{PrintsPieces, put_char_one}
use os_kernel.Log.{log_info, log_message, print_timestamp}
use os_kernel.Log.Message.{
  letters, message, info_level, Formats-letters, PrintsPieces-bind, log_lem,
}
use os_kernel.Keyboard.{
  scancode_to_ascii, scancode_table_size, ascii_at, key_message, special_message, send_eoi,
  key_pressed, keyboard_handler,
}

-- the table has a character for the key
abbrev pub is_mapped : ℕ → Bool
is_mapped scancode =
    ltb scancode scancode_table_size && not (ascii_at scancode_to_ascii scancode == 0)

-- the pieces of the two messages, without the time and the level
abbrev pub key_pieces : ℕ → ℕ → List Piece
key_pieces c scancode =
    letters (b'K' ∷ b'e' ∷ b'y' ∷ b':' ∷ b' ' ∷ b'\'' ∷ [])
    ++ (chars (u8 c ∷ [])
        ∷ (letters (
              b'\'' ∷ b' ' ∷ b'(' ∷ b's' ∷ b'c' ∷ b'a' ∷ b'n' ∷ b'c' ∷ b'o' ∷ b'd' ∷ b'e' ∷ b'='
              ∷ b'0' ∷ b'x' ∷ [])
            ++ (hexadecimal scancode ∷ letters (b')' ∷ []))))

abbrev pub special_pieces : ℕ → List Piece
special_pieces scancode =
    letters (
      b'K' ∷ b'e' ∷ b'y' ∷ b':' ∷ b' ' ∷ b'(' ∷ b's' ∷ b'p' ∷ b'e' ∷ b'c' ∷ b'i' ∷ b'a' ∷ b'l'
      ∷ b',' ∷ b' ' ∷ b's' ∷ b'c' ∷ b'a' ∷ b'n' ∷ b'c' ∷ b'o' ∷ b'd' ∷ b'e' ∷ b'=' ∷ b'0' ∷ b'x'
      ∷ [])
    ++ (hexadecimal scancode ∷ letters (b')' ∷ []))

key_message-Formats :
    (c scancode : ℕ)
    → scancode < 2 ^ 32
    → Formats key_message (word c ∷ word scancode ∷ []) (key_pieces c scancode)
key_message-Formats c scancode lt =
    Formats-letters (b'K' ∷ b'e' ∷ b'y' ∷ b':' ∷ b' ' ∷ b'\'' ∷ []) refl (
      percent_c c (
        Formats-letters
          (b'\'' ∷ b' ' ∷ b'(' ∷ b's' ∷ b'c' ∷ b'a' ∷ b'n' ∷ b'c' ∷ b'o' ∷ b'd' ∷ b'e' ∷ b'=' ∷ b'0'
            ∷ b'x' ∷ [])
          refl (percent_x scancode lt (Formats-letters (b')' ∷ []) refl end))))

special_message-Formats :
    (scancode : ℕ)
    → scancode < 2 ^ 32
    → Formats special_message (word scancode ∷ []) (special_pieces scancode)
special_message-Formats scancode lt =
    Formats-letters
      (b'K' ∷ b'e' ∷ b'y' ∷ b':' ∷ b' ' ∷ b'(' ∷ b's' ∷ b'p' ∷ b'e' ∷ b'c' ∷ b'i' ∷ b'a' ∷ b'l'
        ∷ b',' ∷ b' ' ∷ b's' ∷ b'c' ∷ b'a' ∷ b'n' ∷ b'c' ∷ b'o' ∷ b'd' ∷ b'e' ∷ b'=' ∷ b'0' ∷ b'x'
        ∷ [])
      refl (percent_x scancode lt (Formats-letters (b')' ∷ []) refl end))

release_test : (x : ℕ) → x < 2 ^ 8 → (bit_and x 0x80 == 0) ≡ ltb x 128
release_test x lt = rw (bit_and_field 7 1 x) (ground arith)

-- what the press of a key shows: the message, and the character if the table has one
abbrev pub shown_pieces : ℕ → ℕ → List Piece
shown_pieces t scancode =
    if is_mapped scancode
    then message 0x02 info_level t (key_pieces (ascii_at scancode_to_ascii scancode) scancode)
      ++ (chars (ascii_at scancode_to_ascii scancode ∷ []) ∷ [])
    else message 0x02 info_level t (special_pieces scancode)

module _ {D : Type 0} (io : Ports D) where
  key_pressed_lem :
      (t scancode : ℕ) (v : Vga D)
      → scancode < 2 ^ 8
      → v.vga_lock ≡ record { locked = 0 }
      → PrintsPieces io (shown_pieces t scancode) v (key_pressed io t scancode v)
  unfolding key_pressed
  key_pressed_lem t scancode v lt free = elim (Bool-cases (is_mapped scancode)) [
    | inl mapped ↦
        let c = ascii_at scancode_to_ascii scancode in
        rw mapped (
          PrintsPieces-bind io (message 0x02 info_level t (key_pieces c scancode))
            (chars (c ∷ []) ∷ []) v (log_info io t key_message (word c ∷ word scancode ∷ []) v)
            (vga_put_char io c)
            (log_lem io t v (key_message-Formats c scancode (omega arith)) free).0
            (λ v1 free1. put_char_one io c v1 free1))
    | inr special ↦
        rw special (log_lem io t v (special_message-Formats scancode (omega arith)) free).0
  ]

  -- When the lock of the screen is free, the handler ends. For a key that is released it only acknowledges
  -- the interrupt; for one that is pressed it prints the message with the scancode and, if the table has
  -- one, the character, leaves the lock free, and acknowledges the interrupt last.
  pub keyboard_handler_lem :
      (t : ℕ) (v : Vga D)
      → v.vga_lock ≡ record { locked = 0 }
      → (128 ≤ u8 (io.inb 0x60 v.devices)
          → keyboard_handler io t v ≡ some (record v { devices = io.outb 0x20 0x20 v.devices }))
        × (u8 (io.inb 0x60 v.devices) < 128
            → (v' : Vga D) × (keyboard_handler io t v
                ≡ some (record v' { devices = io.outb 0x20 0x20 v'.devices }))
              × Draws (shown_pieces t (u8 (io.inb 0x60 v.devices))) v.screen v'.screen
              × (v'.vga_lock ≡ record { locked = 0 }))
  unfolding keyboard_handler send_eoi
  keyboard_handler_lem t v free =
      let code = u8 (io.inb 0x60 v.devices) in
      let test = release_test code (omega arith) in
      (
        λ released. rw (test, le→ltb code 128 released) refl,
        λ pressed.
            (let (v1, e, drawn, free1) = key_pressed_lem t code v (omega arith) free in
              (v1, rw (test, lt→ltb code 128 pressed, e) refl, drawn, free1)),
      )

  acquire_taken : (v : Vga D) → v.vga_lock.locked ≡ 1 → acquire v ≡ none
  unfolding acquire spinlock_acquire
  acquire_taken v taken = rw taken refl

  log_info-taken :
      (t : ℕ) (fmt : List ℕ) (args : List Arg) (v : Vga D)
      → v.vga_lock.locked ≡ 1
      → log_info io t fmt args v ≡ none
  unfolding log_info log_message print_timestamp printf vprintf vga_put_char
  log_info-taken t fmt args v taken = rw (acquire_taken v taken) refl

  key_pressed-taken :
      (t scancode : ℕ) (v : Vga D) → v.vga_lock.locked ≡ 1 → key_pressed io t scancode v ≡ none
  unfolding key_pressed
  key_pressed-taken t scancode v taken = elim (Bool-cases (is_mapped scancode)) [
    | inl mapped ↦
        let c = ascii_at scancode_to_ascii scancode in
        rw (mapped, log_info-taken t key_message (word c ∷ word scancode ∷ []) v taken) refl
    | inr special ↦ rw (special, log_info-taken t special_message (word scancode ∷ []) v taken) refl
  ]

  -- When the lock of the screen is taken, the handler of a key that is pressed never ends: code that the
  -- interrupt has stopped inside an operation on the screen cannot go on to release it.
  pub keyboard_handler-taken :
      (t : ℕ) (v : Vga D)
      → v.vga_lock.locked ≡ 1
      → u8 (io.inb 0x60 v.devices) < 128
      → keyboard_handler io t v ≡ none
  unfolding keyboard_handler
  keyboard_handler-taken t v taken pressed =
      let code = u8 (io.inb 0x60 v.devices) in
      rw
        (release_test code (omega arith), lt→ltb code 128 pressed, key_pressed-taken t code v taken)
        refl
