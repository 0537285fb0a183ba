-- ===== src/Vga/Rows.antt =====
-- The loops of drivers/vga/vga.c over the cells: what they leave in each cell.
use os_kernel.Base.{
  ℕ, zero, suc, ◌+◌, ◌-◌, ◌*◌, ◌≤◌, ◌≡◌, arith, ◌∙◌, ap, leb, ltb, ◌&&◌, update, if◌then◌else◌,
  Bool,
}
use os_kernel.Vga.{Cells, scroll_row, scroll_rows, clear_row, clear_rows, Screen, scroll, vga_entry}

-- the cell is one of `n` cells from `from` on
abbrev pub within : ℕ → ℕ → ℕ → Bool
within from n i = leb from i && ltb i (from + n)

pub clear_row_lem :
    (left y x e : ℕ) (m : Cells) (i : ℕ)
    → clear_row left y x e m i ≡ (if within (y * 80 + x) left i then e else m i)
unfolding clear_row update
clear_row_lem zero y x e m i = ground arith
clear_row_lem (suc left) y x e m i =
    clear_row_lem left y (x + 1) e (update m (y * 80 + x) e) i ∙ ground arith

pub clear_rows_lem :
    (left y e : ℕ) (m : Cells) (i : ℕ)
    → clear_rows left y e m i ≡ (if within (y * 80) (left * 80) i then e else m i)
unfolding clear_rows
clear_rows_lem zero y e m i = ground arith
clear_rows_lem (suc left) y e m i =
    clear_rows_lem left (y + 1) e (clear_row 80 y 0 e m) i
    ∙ ground (arith, clear_row_lem 80 y 0 e m i)

scroll_row_lem :
    (left y x : ℕ) (m : Cells) (i : ℕ)
    → 1 ≤ y
    → x + left ≤ 80
    → scroll_row left y x m i ≡ (if within ((y - 1) * 80 + x) left i then m (i + 80) else m i)
unfolding scroll_row update
scroll_row_lem zero y x m i le fit = ground arith
scroll_row_lem (suc left) y x m i le fit =
    let here : (i ≡ (y - 1) * 80 + x → m (y * 80 + x) ≡ m (i + 80)) = λ h. ap m (omega arith) in
    scroll_row_lem left y (x + 1) (update m ((y - 1) * 80 + x) (m (y * 80 + x))) i le (omega arith)
    ∙ ground (arith, here)

-- The rows from `y` on, each moved up by one.
pub scroll_rows_lem :
    (left y : ℕ) (m : Cells) (i : ℕ)
    → 1 ≤ y
    → scroll_rows left y m i ≡ (if within ((y - 1) * 80) (left * 80) i then m (i + 80) else m i)
unfolding scroll_rows
scroll_rows_lem zero y m i le = ground arith
scroll_rows_lem (suc left) y m i le =
    scroll_rows_lem left (y + 1) (scroll_row 80 y 0 m) i (omega arith)
    ∙ ground (
      arith,
      scroll_row_lem 80 y 0 m i le (omega arith),
      scroll_row_lem 80 y 0 m (i + 80) le (omega arith),
    )

-- After `scroll`, the first 24 rows are those that were the last 24, and the last row is blank.
pub scroll-cells :
    (s : Screen) (i : ℕ)
    → (scroll s).cells i ≡ (
        if ltb i 1920
        then s.cells (i + 80)
        else if ltb i 2000
        then vga_entry 32 s.current_color_byte
        else s.cells i)
unfolding scroll
scroll-cells s i =
    clear_row_lem 80 24 0 (vga_entry 32 s.current_color_byte) (scroll_rows 24 1 s.cells) i
    ∙ ground (arith, scroll_rows_lem 24 1 s.cells i (omega arith))
