-- ===== src/Boot/Trial/Blocks.antt =====
-- The blocks that the calls of `kmalloc` and `kfree` in the trial of the heap leave (kernel/kernel_main.c).
use mathlib.Core.Path.{subst}
use os_kernel.Base.{ℕ, ◌+◌, ◌-◌, ◌<◌, ◌≡◌, arith, true, false, some, inl, inr, [], ◌∷◌, length}
use os_kernel.Kmalloc.{Heap, kmalloc}
use os_kernel.Kmalloc.Blocks.{Blocks, allocate, take, release, mark, merge, merge_all}
use os_kernel.Kmalloc.Chain.{IsHeap}
use os_kernel.Kmalloc.Allocate.{kmalloc_lem}

-- First fit finds a block: so does `kmalloc`.
pub kmalloc-found :
    (fuel size p : ℕ) (h : Heap) (start stop : ℕ) (blocks blocks' : Blocks)
    → IsHeap h start stop blocks
    → length blocks < fuel
    → allocate size start blocks ≡ some (p, blocks')
    → (h' : Heap) × (kmalloc fuel size h ≡ some (some p, h')) × IsHeap h' start stop blocks'
kmalloc-found fuel size p h start stop blocks blocks' w lt e =
    elim (kmalloc_lem fuel size h start stop blocks w lt) [
      | inl (missing, r) ↦ absurd (cc)
      | inr (q, blocks1, h', found, r, w') ↦
          let place : q ≡ p = cc in
          let after : blocks1 ≡ blocks' = cc in
          (h', rw (← place) r, subst (IsHeap h' start stop) after w')
    ]

module _ (start n : ℕ) (room : 56 < n) where
  pub first-block :
      allocate 16 start ((n, true) ∷ []) ≡ some (start + 12, (16, false) ∷ (n - 16 - 12, true) ∷ [])
  unfolding allocate take
  first-block = ground arith

  pub second-block :
      allocate 16 start ((16, false) ∷ (n - 16 - 12, true) ∷ [])
      ≡ some (start + 40, (16, false) ∷ (16, false) ∷ (n - 16 - 12 - 16 - 12, true) ∷ [])
  unfolding allocate take
  second-block = ground arith

  pub given-back :
      (k : ℕ)
      → release start start ((16, false) ∷ (16, false) ∷ (k, true) ∷ [])
        ≡ (16, true) ∷ (16, false) ∷ (k, true) ∷ []
  unfolding release mark merge_all merge
  given-back k = ground arith

  pub third-block :
      (k : ℕ)
      → allocate 16 start ((16, true) ∷ (16, false) ∷ (k, true) ∷ [])
        ≡ some (start + 12, (16, false) ∷ (16, false) ∷ (k, true) ∷ [])
  unfolding allocate take
  third-block k = ground arith
