-- ===== src/Kmalloc/Examples.antt =====
-- The theorems on the heap at one of 100 bytes from address 1000 on, of which the first block is in use.
use os_kernel.Base.{
  ℕ, ◌+◌, ◌≤◌, ◌≡◌, ◌≢◌, ◌⊎◌, inl, refl, arith, none, some, [], ◌∷◌, true, false, update,
}
use os_kernel.Kmalloc.{
  Heap, header_size, kmalloc_init, kmalloc_loop, kmalloc, kfree, fits, take_block, split_block,
}
use os_kernel.Kmalloc.Blocks.{Blocks, allocate, IsMerged}
use os_kernel.Kmalloc.Chain.{IsHeap}
use os_kernel.Kmalloc.Allocate.{kmalloc_lem}
use os_kernel.Kmalloc.Safety.{InUse, Apart, kmalloc-Gives, kmalloc_init-IsHeap}
use os_kernel.Kmalloc.Freed.{kfree-kmalloc, kfree-InUse}

abbrev nothing : Heap
nothing = record { headers = λ a. record { size = 0; is_free = 0; next = none }; heap_start = none }

abbrev fresh : Heap
fresh = kmalloc_init 1000 100 nothing

fresh-IsHeap : IsHeap fresh 1000 1100 ((88, true) ∷ [])
fresh-IsHeap = kmalloc_init-IsHeap 1000 100 nothing (omega arith) (omega arith) (omega arith)

-- the heap after `kmalloc(8)`
abbrev one : Heap
one = elim (kmalloc 2 8 fresh) [ none ↦ nothing | some (p, h) ↦ h ]

one_run : kmalloc 2 8 fresh ≡ some (some 1012, one)
unfolding kmalloc kmalloc_loop kmalloc_init fits update
one_run = refl

abbrev one_blocks : Blocks
one_blocks = (8, false) ∷ (68, true) ∷ []

one-IsHeap : IsHeap one 1000 1100 one_blocks
unfolding kmalloc kmalloc_loop kmalloc_init fits update take_block split_block
one-IsHeap = record { begins = refl; chain = (refl, (refl, refl)); small = omega arith }

kmalloc_lem_example :
    ((allocate 8 1000 ((88, true) ∷ []) ≡ none) × (kmalloc 2 8 fresh ≡ some (none, fresh)))
    ⊎ ((p : ℕ) × (blocks' : Blocks) × (h' : Heap) × (allocate 8 1000 ((88, true) ∷ [])
          ≡ some (p, blocks'))
        × (kmalloc 2 8 fresh ≡ some (some p, h'))
        × IsHeap h' 1000 1100 blocks')
kmalloc_lem_example = kmalloc_lem 2 8 fresh 1000 1100 ((88, true) ∷ []) fresh-IsHeap (omega arith)

kmalloc-Gives_example :
    (q : ℕ) × (n : ℕ) × (blocks' : Blocks) × IsHeap one 1000 1100 blocks'
    × (1012 ≡ q + header_size)
    × (8 ≤ n)
    × (1000 ≤ q)
    × (1012 + n ≤ 1100)
    × InUse q n 1000 blocks'
    × ((r m : ℕ) → InUse r m 1000 ((88, true) ∷ []) → InUse r m 1000 blocks' × Apart q n r m)
    × (IsMerged ((88, true) ∷ []) → IsMerged blocks')
kmalloc-Gives_example =
    kmalloc-Gives 2 8 1012 fresh one 1000 1100 ((88, true) ∷ []) fresh-IsHeap (omega arith) one_run

kfree-kmalloc_example :
    (h'' : Heap) × (kfree 3 (some 1012) one ≡ some h'') × IsHeap h'' 1000 1100 ((88, true) ∷ [])
kfree-kmalloc_example =
    kfree-kmalloc 2 3 8 1012 fresh one 1000 1100 ((88, true) ∷ []) fresh-IsHeap tt (omega arith)
      (omega arith) one_run

kfree-InUse_example :
    (h' : Heap) × (blocks' : Blocks) × (kfree 3 (some (1000 + header_size)) one ≡ some h')
    × IsHeap h' 1000 1100 blocks'
    × IsMerged blocks'
    × ((r m : ℕ) → r ≢ 1000 → InUse r m 1000 one_blocks → InUse r m 1000 blocks')
kfree-InUse_example =
    kfree-InUse 3 1000 8 one 1000 1100 one_blocks one-IsHeap (inl (refl, refl, refl)) (omega arith)
