-- ===== src/Vga/Text.antt =====
-- Printable text on the screen of drivers/vga/vga.c, and the screen after `vga_init`.
use os_kernel.Base.{
  ℕ, zero, suc, ◌+◌, ◌*◌, ◌^◌, ◌≤◌, ◌<◌, ◌≡◌, ◌⊎◌, refl, arith, ◌∙◌, ap, ltb, update, update_ne,
  update_self, inl, if◌then◌else◌, List, [], ◌∷◌, some, lt→leb, lt→ltb, u16, length, get_elem?,
  ne→==,
}
use os_kernel.Base.Fields.{bit_or_add, bit_or_comm}
use os_kernel.Ports.{Ports}
use os_kernel.Spinlock.{spinlock_init, spinlock_acquire, spinlock_release}
use os_kernel.Vga.{
  Cells, Screen, Vga, vga_entry, put_char, write_loop, acquire, release, clear_rows, vga_clear,
  vga_write, vga_init,
}
use os_kernel.Vga.Inside.{write_loop-put_char}
use os_kernel.Vga.Rows.{clear_rows_lem}
use os_kernel.Vga.Write.{vga_write_free, shows}

-- every character is one of ASCII, and none moves the cursor
abbrev pub IsPrintable : List ℕ → Type 0
IsPrintable [] = Unit {0}
IsPrintable (c ∷ str) = (32 ≤ c) × (c < 128) × IsPrintable str

-- the text stands on `s'` from the cursor of `s` on, in the colour of `s`, and nothing else has changed
pub record Shows (str : List ℕ) (s s' : Screen) : Type 0 where
  pub row : s'.cursor_row ≡ s.cursor_row
  pub col : s'.cursor_col ≡ s.cursor_col + length str
  pub color : s'.current_color_byte ≡ s.current_color_byte
  pub text :
      (i c : ℕ)
      → get_elem? str i ≡ some c
      → s'.cells (s.cursor_row * 80 + s.cursor_col + i) ≡ s.current_color_byte * 2 ^ 8 + c
  pub rest :
      (j : ℕ)
      → (j < s.cursor_row * 80 + s.cursor_col) ⊎ (s.cursor_row * 80 + s.cursor_col + length str ≤ j)
      → s'.cells j ≡ s.cells j

vga_entry_lem : (c color : ℕ) → c < 128 → color < 2 ^ 8 → vga_entry c color ≡ color * 2 ^ 8 + c
unfolding vga_entry
vga_entry_lem c color lt small =
    let fit : u16 (color * 2 ^ 8) ≡ color * 2 ^ 8 = omega arith in
    rw (lt→ltb c 128 lt, fit, bit_or_comm c (color * 2 ^ 8)) (bit_or_add 8 color c (omega arith))

put_char-printable :
    (c : ℕ) (s : Screen)
    → 32 ≤ c
    → c < 128
    → s.cursor_row < 25
    → s.cursor_col + 1 < 80
    → s.current_color_byte < 2 ^ 8
    → put_char c s ≡ record s {
      cells = update s.cells (s.cursor_row * 80 + s.cursor_col) (s.current_color_byte * 2 ^ 8 + c);
      cursor_col = s.cursor_col + 1;
    }
unfolding put_char
put_char-printable c s ge lt row col small =
    rw
      (
        ne→== c 10 (omega arith),
        ne→== c 8 (omega arith),
        ne→== c 9 (omega arith),
        ne→== c 13 (omega arith),
        lt→leb 80 (s.cursor_col + 1) col,
        lt→leb 25 s.cursor_row row,
        vga_entry_lem c s.current_color_byte lt small,
      )
      refl

-- a text of which the first character and the others stand at their places
text-cons :
    (m : Cells) (cell color c : ℕ) (str : List ℕ)
    → m cell ≡ color * 2 ^ 8 + c
    → ((i c' : ℕ) → get_elem? str i ≡ some c' → m (cell + 1 + i) ≡ color * 2 ^ 8 + c')
    → (i c' : ℕ) → get_elem? (c ∷ str) i ≡ some c'
    → m (cell + i) ≡ color * 2 ^ 8 + c'
text-cons m cell color c str first later zero c' e =
    let same : c ≡ c' = cc in ap m {y = cell} (omega arith) ∙ first ∙ omega arith
text-cons m cell color c str first later (suc i) c' e =
    ap m {y = cell + 1 + i} (omega arith) ∙ later i c' e

write_loop-Shows :
    (str : List ℕ) (s : Screen)
    → IsPrintable str
    → s.cursor_row < 25
    → s.cursor_col + length str < 80
    → s.current_color_byte < 2 ^ 8
    → Shows str s (write_loop str s)
unfolding write_loop
write_loop-Shows [] s p row fit small = record {
  row = refl;
  col = omega arith;
  color = refl;
  text = λ i c e. absurd (cc);
  rest = λ j apart. refl;
}
write_loop-Shows (c ∷ str) s (ge, lt, p) row fit small =
    let here = put_char-printable c s ge lt row (omega arith) small in
    let cell = s.cursor_row * 80 + s.cursor_col in
    let next : Screen = record s {
      cells = update s.cells cell (s.current_color_byte * 2 ^ 8 + c);
      cursor_col = s.cursor_col + 1;
    } in
    let ih = write_loop-Shows str next p row (omega arith) small in
    rw (write_loop-put_char c str s, here)
      (record {
        row = ih.row;
        col = omega (arith, ih.col);
        color = ih.color;
        text =
            text-cons (write_loop str next).cells cell s.current_color_byte c str
              (ih.rest cell (inl (omega arith)) ∙ update_self s.cells cell _)
              (λ i c' e.
                ap (write_loop str next).cells {y = s.cursor_row * 80 + (s.cursor_col + 1) + i}
                  (omega arith)
                ∙ ih.text i c' e);
        rest = λ j apart. ih.rest j (ground arith) ∙ update_ne s.cells cell _ j (ground arith);
      })

module _ {D : Type 0} (io : Ports D) where
  -- When the lock is free, a string of printable characters of ASCII that ends before the last column is
  -- shown in the row of the cursor from the cursor on, in the current colour; no other cell changes, and
  -- the cursor ends behind the text.
  pub vga_write-Shows :
      (str : List ℕ) (v : Vga D)
      → v.vga_lock.locked ≡ 0
      → IsPrintable str
      → v.screen.cursor_row < 25
      → v.screen.cursor_col + length str < 80
      → v.screen.current_color_byte < 2 ^ 8
      → (v' : Vga D) × (vga_write io str v ≡ some v') × Shows str v.screen v'.screen
  vga_write-Shows str v free p row fit small = (
    shows io (write_loop str v.screen) v,
    vga_write_free io str v free,
    write_loop-Shows str v.screen p row fit small,
  )

  -- `vga_init` ends whatever was in memory: the lock is free, the cursor is at the first cell, all 2000 cells
  -- are white on black blanks, and memory behind them is as it was.
  pub vga_init_lem :
      (v : Vga D)
      → (v' : Vga D) × (vga_init io v ≡ some v')
        × (v'.vga_lock.locked ≡ 0)
        × (v'.screen.cursor_row ≡ 0)
        × (v'.screen.cursor_col ≡ 0)
        × (v'.screen.current_color_byte ≡ 0x0F)
        × ((i : ℕ) → v'.screen.cells i ≡ (if ltb i 2000 then 0x0F20 else v.screen.cells i))
  unfolding vga_init vga_clear acquire release spinlock_init spinlock_acquire spinlock_release
      vga_entry
  vga_init_lem v =
      let blank : Screen = record {
        cells = clear_rows 25 0 0x0F20 v.screen.cells;
        cursor_row = 0;
        cursor_col = 0;
        current_color_byte = 0x0F;
      } in
      (
        shows io blank v,
        refl,
        refl,
        refl,
        refl,
        refl,
        λ i. clear_rows_lem 25 0 0x0F20 v.screen.cells i ∙ ground arith,
      )
