-- ===== src/Vga/Inside.antt =====
-- The cursor of drivers/vga/vga.c stays on the screen, and no other memory is written.
use os_kernel.Base.{
  ℕ, ◌+◌, ◌-◌, ◌*◌, ◌/◌, ◌^◌, ◌≤◌, ◌<◌, ◌≡◌, refl, arith, ◌∙◌, leb, ltb, ◌==◌, update, update_ne,
  inl, inr, if◌then◌else◌, Bool-cases, if_cases, bit_and, List, [], ◌∷◌,
}
use os_kernel.Base.Fields.{bit_and_field}
use os_kernel.Vga.{Screen, vga_entry, scroll, handle_backspace, handle_tab, put_char, write_loop}
use os_kernel.Vga.Rows.{scroll-cells}

pub record OnScreen (s : Screen) : Type 0 where
  pub row : s.cursor_row < 25
  pub col : s.cursor_col < 80

-- `s'` has its cursor on the screen, the colour of `s` and the memory of `s` behind the screen
pub record Keeps (s s' : Screen) : Type 0 where
  pub on_screen : OnScreen s'
  pub color : s'.current_color_byte ≡ s.current_color_byte
  pub behind : (i : ℕ) → 2000 ≤ i → s'.cells i ≡ s.cells i

tab_stop : (col : ℕ) → col < 80 → bit_and (col + 8) (2 ^ 32 - 8) ≡ (col / 8 + 1) * 8
tab_stop col lt = bit_and_field 3 29 (col + 8) ∙ omega arith

-- one below the screen, before `scroll`
record Nearly (s s' : Screen) : Type 0 where
  row : s'.cursor_row ≤ 25
  col : s'.cursor_col < 80
  color : s'.current_color_byte ≡ s.current_color_byte
  behind : (i : ℕ) → 2000 ≤ i → s'.cells i ≡ s.cells i

handle_backspace-Nearly : (s : Screen) → OnScreen s → Nearly s (handle_backspace s)
unfolding handle_backspace
handle_backspace-Nearly s w = elim (Bool-cases (ltb 0 s.cursor_col)) [
  | inl inner ↦ rw inner (record {
    row = omega (arith, w.row);
    col = omega (arith, w.col);
    color = refl;
    behind = λ i le. update_ne s.cells _ _ i (omega (arith, w.row, w.col));
  })
  | inr start ↦ elim (Bool-cases (ltb 0 s.cursor_row)) [
    | inl lower ↦
        rw (start, lower)
          (record {
            row = omega (arith, w.row);
            col = omega arith;
            color = refl;
            behind = λ i le. update_ne s.cells _ _ i (omega (arith, w.row));
          })
    | inr top ↦
        rw (start, top)
          (record {
            row = omega (arith, w.row);
            col = w.col;
            color = refl;
            behind = λ i le. update_ne s.cells _ _ i (omega (arith, w.row, w.col));
          })
  ]
]

handle_tab-Nearly : (s : Screen) → OnScreen s → Nearly s (handle_tab s)
unfolding handle_tab
handle_tab-Nearly s w =
    let stop = tab_stop s.cursor_col w.col in
    elim (Bool-cases (leb 80 ((s.cursor_col / 8 + 1) * 8))) [
      | inl end ↦
          rw (stop, end)
            (record {
              row = omega (arith, w.row);
              col = omega arith;
              color = refl;
              behind = λ i le. refl;
            })
      | inr inner ↦
          rw (stop, inner)
            (record {
              row = omega (arith, w.row);
              col = ground arith;
              color = refl;
              behind = λ i le. refl;
            })
    ]

-- the branches of `put_char` before the scrolling
module _ (c : ℕ) (s : Screen) where
  abbrev shown : Screen
  shown = record s {
    cells = update s.cells (s.cursor_row * 80 + s.cursor_col) (vga_entry c s.current_color_byte);
    cursor_col = s.cursor_col + 1;
  }

  abbrev drawn : Screen
  drawn =
      if c == 10
      then record s { cursor_col = 0; cursor_row = s.cursor_row + 1 }
      else if c == 8
      then handle_backspace s
      else if c == 9
      then handle_tab s
      else if c == 13
      then record s { cursor_col = 0 }
      else if leb 80 shown.cursor_col
      then record shown { cursor_col = 0; cursor_row = s.cursor_row + 1 }
      else shown

  drawn-Nearly : OnScreen s → Nearly s drawn
  drawn-Nearly w =
      let written : (i : ℕ) → 2000 ≤ i → shown.cells i ≡ s.cells i =
        λ i le. update_ne s.cells _ _ i (omega (arith, w.row, w.col)) in
      let same : (i : ℕ) → 2000 ≤ i → s.cells i ≡ s.cells i = λ i le. refl in
      if_cases (Nearly s) (c == 10) _ _
        (λ e. record { row = omega (arith, w.row); col = omega arith; color = refl; behind = same })
        (λ e.
          if_cases (Nearly s) (c == 8) _ _ (λ e. handle_backspace-Nearly s w)
            (λ e.
              if_cases (Nearly s) (c == 9) _ _ (λ e. handle_tab-Nearly s w)
                (λ e.
                  if_cases (Nearly s) (c == 13) _ _
                    (λ e. record {
                      row = omega (arith, w.row);
                      col = omega arith;
                      color = refl;
                      behind = same;
                    })
                    (λ e.
                      if_cases (Nearly s) (leb 80 (s.cursor_col + 1)) _ _
                        (λ e. record {
                          row = omega (arith, w.row);
                          col = omega arith;
                          color = refl;
                          behind = written;
                        })
                        (λ e. record {
                          row = omega (arith, w.row);
                          col = ground arith;
                          color = refl;
                          behind = written;
                        })))))

scroll-Keeps :
    (s s' : Screen) → Nearly s s' → Keeps s (if leb 25 s'.cursor_row then scroll s' else s')
unfolding scroll
scroll-Keeps s s' n = elim (Bool-cases (leb 25 s'.cursor_row)) [
  | inl below ↦ rw below (record {
    on_screen = record { row = omega arith; col = n.col };
    color = n.color;
    behind = λ i le. scroll-cells s' i ∙ ground (arith, n.behind i le);
  })
  | inr inside ↦ rw inside (record {
    on_screen = record { row = ground arith; col = n.col };
    color = n.color;
    behind = n.behind;
  })
]

put_char-Keeps : (c : ℕ) (s : Screen) → OnScreen s → Keeps s (put_char c s)
unfolding put_char
put_char-Keeps c s w = scroll-Keeps s (drawn c s) (drawn-Nearly c s w)

-- the second copy of the branches does what the first does
pub write_loop-put_char :
    (c : ℕ) (str : List ℕ) (s : Screen) → write_loop (c ∷ str) s ≡ write_loop str (put_char c s)
unfolding write_loop put_char
write_loop-put_char c str s = refl

-- Printing a string leaves the cursor on the screen and the memory behind the screen as it was.
pub write_loop-Keeps : (str : List ℕ) (s : Screen) → OnScreen s → Keeps s (write_loop str s)
unfolding write_loop
write_loop-Keeps [] s w = record { on_screen = w; color = refl; behind = λ i le. refl }
write_loop-Keeps (c ∷ str) s w =
    let first = put_char-Keeps c s w in
    let rest = write_loop-Keeps str (put_char c s) first.on_screen in
    rw (write_loop-put_char c str s) (record {
      on_screen = rest.on_screen;
      color = rest.color ∙ first.color;
      behind = λ i le. rest.behind i le ∙ first.behind i le;
    })
