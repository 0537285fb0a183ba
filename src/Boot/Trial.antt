-- ===== src/Boot/Trial.antt =====
-- The trial of the heap in `kernel_main` of kernel/kernel_main.c. What lies in the blocks is kept beside
-- the headers of Kmalloc, as 32-bit words by their addresses. A store through NULL is undefined: `none`.
pub mod Blocks
pub mod Messages
pub mod Passes
use mathlib.Core.Path.{subst}
use os_kernel.Base.{
  ℕ, ◌+◌, ◌-◌, ◌<◌, ◌≡◌, refl, arith, ◌==◌, ◌&&◌, update, update_self, update_ne, if◌then◌else◌,
  true, false, Option, none, some, ◌>>=◌, inl, inr, ◌^◌, ◌∙◌, ne→==, List, [], ◌∷◌, codes, length,
}
use os_kernel.Ports.{Ports}
use os_kernel.Printf.{word}
use os_kernel.Printf.Format.{Piece, Formats, percent_x, end}
use os_kernel.Log.Message.{Formats-letters}
use os_kernel.Log.Usable.{IsUsable}
use os_kernel.Kmalloc.{Heap, kmalloc, kfree}
use os_kernel.Kmalloc.Chain.{IsHeap}
use os_kernel.Kmalloc.Allocate.{kmalloc_lem}
use os_kernel.Kmalloc.Release.{kfree_lem}
use os_kernel.Boot.Watch.{Running, say, say-Says, say_text}

-- a pointer as a number
abbrev pub address : Option ℕ → ℕ
address none = 0
address (some p) = p

-- The variables after the trial, the heap, and the words in its blocks.
pub record Trial (D : Type 0) : Type 0 where
  pub running : Running D
  pub heap : Heap
  pub words : ℕ → ℕ
  pub a : Option ℕ
  pub b : Option ℕ
  pub c : Option ℕ

module _ {D : Type 0} (io : Ports D) (clock : ℕ → ℕ) where
  -- Test 1: what `kmalloc` has returned is not NULL.
  unfoldable pub report_first : Option ℕ → Running D → Option (Running D)
  report_first none r = say io clock (codes "  [FAIL] kmalloc returned NULL!") [] r
  report_first (some p) r =
      say io clock (codes "  [PASS] kmalloc returned address: 0x%x") (word p ∷ []) r

  -- Test 2: the words that were stored at `a[0]` and `a[1]` are read back.
  unfoldable pub report_words : ℕ → ℕ → Running D → Option (Running D)
  report_words w0 w1 r =
      if (w0 == 0xDEADBEEF) && (w1 == 0xCAFEBABE)
      then say io clock (codes "  [PASS] Write/read back correct: 0x%x 0x%x")
          (word w0 ∷ word w1 ∷ []) r
      else say io clock (codes "  [FAIL] Memory corruption detected!") [] r

  -- Test 3: the second block is another one.
  unfoldable pub report_second : ℕ → Option ℕ → Running D → Option (Running D)
  report_second p none r = say io clock (codes "  [FAIL] second kmalloc returned NULL!") [] r
  report_second p (some q) r =
      if q == p
      then say io clock (codes "  [FAIL] both allocs returned same address!") [] r
      else say io clock (codes "  [PASS] Two allocs at different addresses: 0x%x and 0x%x")
          (word p ∷ word q ∷ []) r

  -- `a[0] = x; a[1] = y`
  unfoldable pub store_two : Option ℕ → ℕ → ℕ → (ℕ → ℕ) → Option (ℕ × (ℕ → ℕ))
  store_two none x y words = none
  store_two (some p) x y words = some (p, update (update words p x) (p + 4) y)

  unfoldable pub heap_trial : ℕ → Heap → (ℕ → ℕ) → Running D → Option (Trial D)
  heap_trial fuel h words r = do
    r1 ← say io clock (codes "Testing kmalloc...") [] r
    (a, h1) ← kmalloc fuel 16 h
    r2 ← report_first a r1
    (p, words') ← store_two a 0xDEADBEEF 0xCAFEBABE words
    r3 ← report_words (words' p) (words' (p + 4)) r2
    (b, h2) ← kmalloc fuel 16 h1
    r4 ← report_second p b r3
    h3 ← kfree fuel a h2
    (c, h4) ← kmalloc fuel 16 h3
    r5 ←
        say io clock (codes "  After free, new alloc at: 0x%x (should reuse 0x%x)")
          (word (address c) ∷ word p ∷ []) r4
    some (record { running = r5; heap = h4; words = words'; a = a; b = b; c = c })
