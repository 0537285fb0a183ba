-- ===== src/Boot/Trial/Messages.antt =====
-- The messages of the trial of the heap in kernel/kernel_main.c.
use os_kernel.Base.{ℕ, ◌<◌, refl, Option, ◌>>=◌, ◌^◌, List, [], ◌∷◌, codes}
use os_kernel.Ports.{Ports}
use os_kernel.Printf.{word}
use os_kernel.Printf.Format.{Piece, Formats, percent_x, end}
use os_kernel.Log.Message.{Formats-letters}
use os_kernel.Boot.Watch.{Running, say}

pub first_message :
    (p : ℕ)
    → p < 2 ^ 32
    → (ps : List Piece) × Formats (codes "  [PASS] kmalloc returned address: 0x%x") (word p ∷ []) ps
first_message p h =
    (_, Formats-letters (codes "  [PASS] kmalloc returned address: 0x") refl (percent_x p h end))

pub words_message :
    (x y : ℕ)
    → x < 2 ^ 32
    → y < 2 ^ 32
    → (ps : List Piece) × Formats
        (codes "  [PASS] Write/read back correct: 0x%x 0x%x")
        (word x ∷ word y ∷ [])
        ps
words_message x y h h' = (
  _,
  Formats-letters (codes "  [PASS] Write/read back correct: 0x") refl
      (percent_x x h (Formats-letters (codes " 0x") refl (percent_x y h' end))),
)

pub second_message :
    (x y : ℕ)
    → x < 2 ^ 32
    → y < 2 ^ 32
    → (ps : List Piece) × Formats
        (codes "  [PASS] Two allocs at different addresses: 0x%x and 0x%x")
        (word x ∷ word y ∷ [])
        ps
second_message x y h h' = (
  _,
  Formats-letters (codes "  [PASS] Two allocs at different addresses: 0x") refl
      (percent_x x h (Formats-letters (codes " and 0x") refl (percent_x y h' end))),
)

pub reuse_message :
    (x y : ℕ)
    → x < 2 ^ 32
    → y < 2 ^ 32
    → (ps : List Piece) × Formats
        (codes "  After free, new alloc at: 0x%x (should reuse 0x%x)")
        (word x ∷ word y ∷ [])
        ps
reuse_message x y h h' = (
  _,
  Formats-letters (codes "  After free, new alloc at: 0x") refl (
      percent_x x h (
        Formats-letters (codes " (should reuse 0x") refl
          (percent_x y h' (Formats-letters (codes ")") refl end)))),
)

module _ {D : Type 0} (io : Ports D) (clock : ℕ → ℕ) where
  -- the messages of a trial in which each test passes, with the first two addresses
  abbrev pub passes : ℕ → ℕ → Running D → Option (Running D)
  passes p q r = do
    r1 ← say io clock (codes "Testing kmalloc...") [] r
    r2 ← say io clock (codes "  [PASS] kmalloc returned address: 0x%x") (word p ∷ []) r1
    r3 ←
        say io clock (codes "  [PASS] Write/read back correct: 0x%x 0x%x")
          (word 0xDEADBEEF ∷ word 0xCAFEBABE ∷ []) r2
    r4 ←
        say io clock (codes "  [PASS] Two allocs at different addresses: 0x%x and 0x%x")
          (word p ∷ word q ∷ []) r3
    say io clock (codes "  After free, new alloc at: 0x%x (should reuse 0x%x)")
        (word p ∷ word p ∷ []) r4
