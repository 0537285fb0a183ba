-- ===== src/Vga.antt =====
-- drivers/vga/vga.h and drivers/vga/vga.c: the text screen. The cells of `VGA_MEMORY` are a function from
-- their indices, a character is its byte, and a string is the list of its bytes before the end mark.
pub mod Rows
pub mod Inside
pub mod Write
pub mod Text
mod Examples
use os_kernel.Base.{
  ℕ, zero, suc, ◌+◌, ◌-◌, ◌*◌, ◌/◌, ◌^◌, ◌==◌, leb, ltb, u8, u16, bit_and, bit_or, update, Option,
  none, some, ◌>>=◌, if◌then◌else◌, List, [], ◌∷◌,
}
use os_kernel.Ports.{Ports}
use os_kernel.Spinlock.{Spinlock, spinlock_init, spinlock_acquire, spinlock_release}

abbrev pub vga_width : ℕ
vga_width = 80

abbrev pub vga_height : ℕ
vga_height = 25

abbrev pub tab_width : ℕ
tab_width = 8

abbrev pub Cells : Type 0
Cells = ℕ → ℕ

-- The screen and the static variables on it.
pub record Screen : Type 0 where
  pub cells : Cells
  pub cursor_row : ℕ
  pub cursor_col : ℕ
  pub current_color_byte : ℕ

-- The screen with its lock, and the devices behind the ports.
pub record Vga (D : Type 0) : Type 0 where
  pub screen : Screen
  pub vga_lock : Spinlock
  pub devices : D

-- A `char` is signed: the conversion to 16 bits copies the sign bit.
unfoldable pub vga_entry : ℕ → ℕ → ℕ
vga_entry c color_byte = bit_or (if ltb c 0x80 then c else 0xFF00 + c) (u16 (color_byte * 2 ^ 8))

unfoldable pub update_cursor : {D : Type 0} → Ports D → Screen → D → D
update_cursor io s d =
    let pos = u16 (s.cursor_row * vga_width + s.cursor_col) in
    let d1 = io.outb 0x3D4 14 d in
    let d2 = io.outb 0x3D5 (u8 (pos / 2 ^ 8)) d1 in
    let d3 = io.outb 0x3D4 15 d2 in io.outb 0x3D5 (u8 pos) d3

-- One row moved up, from column `x` on, with `left` columns to go.
unfoldable pub scroll_row : ℕ → ℕ → ℕ → Cells → Cells
scroll_row zero y x m = m
scroll_row (suc left) y x m =
    scroll_row left y (x + 1) (update m ((y - 1) * vga_width + x) (m (y * vga_width + x)))

-- All rows from `y` on moved up, with `left` rows to go.
unfoldable pub scroll_rows : ℕ → ℕ → Cells → Cells
scroll_rows zero y m = m
scroll_rows (suc left) y m = scroll_rows left (y + 1) (scroll_row vga_width y 0 m)

-- The cells of row `y` set to `e`, from column `x` on, with `left` columns to go.
unfoldable pub clear_row : ℕ → ℕ → ℕ → ℕ → Cells → Cells
clear_row zero y x e m = m
clear_row (suc left) y x e m = clear_row left y (x + 1) e (update m (y * vga_width + x) e)

unfoldable pub clear_rows : ℕ → ℕ → ℕ → Cells → Cells
clear_rows zero y e m = m
clear_rows (suc left) y e m = clear_rows left (y + 1) e (clear_row vga_width y 0 e m)

unfoldable pub scroll : Screen → Screen
scroll s = record s {
  cells =
      clear_row vga_width (vga_height - 1) 0 (vga_entry 32 s.current_color_byte)
        (scroll_rows (vga_height - 1) 1 s.cells);
  cursor_row = vga_height - 1;
}

unfoldable pub handle_backspace : Screen → Screen
handle_backspace s =
    let s' =
      if ltb 0 s.cursor_col
      then record s { cursor_col = s.cursor_col - 1 }
      else if ltb 0 s.cursor_row
      then record s { cursor_row = s.cursor_row - 1; cursor_col = vga_width - 1 }
      else s in
    record s' {
      cells =
          update s'.cells (s'.cursor_row * vga_width + s'.cursor_col)
            (vga_entry 32 s'.current_color_byte);
    }

-- `~(TAB_WIDTH - 1)` is an `int`, here its 32 bits.
unfoldable pub handle_tab : Screen → Screen
handle_tab s =
    let col = bit_and (s.cursor_col + tab_width) (2 ^ 32 - tab_width) in
    if leb vga_width col
    then record s { cursor_col = 0; cursor_row = s.cursor_row + 1 }
    else record s { cursor_col = col }

-- The branches of `vga_put_char` on a character, and the scrolling after them.
unfoldable pub put_char : ℕ → Screen → Screen
put_char c s =
    let shown = record s {
      cells =
          update s.cells (s.cursor_row * vga_width + s.cursor_col)
            (vga_entry c s.current_color_byte);
      cursor_col = s.cursor_col + 1;
    } in
    let s' =
      if c == 10
      then record s { cursor_col = 0; cursor_row = s.cursor_row + 1 }
      else if c == 8
      then handle_backspace s
      else if c == 9
      then handle_tab s
      else if c == 13
      then record s { cursor_col = 0 }
      else if leb vga_width shown.cursor_col
      then record shown { cursor_col = 0; cursor_row = s.cursor_row + 1 }
      else shown in
    if leb vga_height s'.cursor_row then scroll s' else s'

-- The loop of `vga_write`, which repeats those branches.
unfoldable pub write_loop : List ℕ → Screen → Screen
write_loop [] s = s
write_loop (c ∷ str) s =
    let shown = record s {
      cells =
          update s.cells (s.cursor_row * vga_width + s.cursor_col)
            (vga_entry c s.current_color_byte);
      cursor_col = s.cursor_col + 1;
    } in
    let s' =
      if c == 10
      then record s { cursor_col = 0; cursor_row = s.cursor_row + 1 }
      else if c == 8
      then handle_backspace s
      else if c == 9
      then handle_tab s
      else if c == 13
      then record s { cursor_col = 0 }
      else if leb vga_width shown.cursor_col
      then record shown { cursor_col = 0; cursor_row = s.cursor_row + 1 }
      else shown in
    write_loop str (if leb vga_height s'.cursor_row then scroll s' else s')

-- The public operations take the lock, and `none` is that they wait for it for ever.
module _ {D : Type 0} where
  -- the screen with its lock taken
  unfoldable pub acquire : Vga D → Option (Vga D)
  acquire v = elim (spinlock_acquire v.vga_lock) [
    | none ↦ none
    | some l ↦ some (record v { vga_lock = l })
  ]

  unfoldable pub release : Vga D → Vga D
  release v = record v { vga_lock = spinlock_release v.vga_lock }

  unfoldable pub vga_set_colors : ℕ → ℕ → Vga D → Option (Vga D)
  vga_set_colors fg bg v = do
    v1 ← acquire v
    some (
        release (record v1 {
          screen = record v1.screen { current_color_byte = u8 (bit_or fg (bg * 2 ^ 4)) };
        }))

  unfoldable pub vga_set_color : ℕ → Vga D → Option (Vga D)
  vga_set_color c v = do
    v1 ← acquire v
    some (
        release (record v1 {
          screen = record v1.screen {
            current_color_byte =
                bit_or (bit_and c 0x0F) (bit_and v1.screen.current_color_byte 0xF0);
          };
        }))

  unfoldable pub vga_clear : Ports D → Vga D → Option (Vga D)
  vga_clear io v = do
    v1 ← acquire v
    let cleared = record v1.screen {
      cells = clear_rows vga_height 0 (vga_entry 32 v1.screen.current_color_byte) v1.screen.cells;
      cursor_row = 0;
      cursor_col = 0;
    }
    some (release (record v1 { screen = cleared; devices = update_cursor io cleared v1.devices }))

  unfoldable pub vga_put_char : Ports D → ℕ → Vga D → Option (Vga D)
  vga_put_char io c v = do
    v1 ← acquire v
    let printed = put_char c v1.screen
    some (release (record v1 { screen = printed; devices = update_cursor io printed v1.devices }))

  unfoldable pub vga_write : Ports D → List ℕ → Vga D → Option (Vga D)
  vga_write io str v = do
    v1 ← acquire v
    let written = write_loop str v1.screen
    some (release (record v1 { screen = written; devices = update_cursor io written v1.devices }))

  unfoldable pub vga_init : Ports D → Vga D → Option (Vga D)
  vga_init io v = vga_clear io (record v {
    vga_lock = spinlock_init v.vga_lock;
    screen = record v.screen { current_color_byte = bit_or 15 (0 * 2 ^ 4) };
  })
