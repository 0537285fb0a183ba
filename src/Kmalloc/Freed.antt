-- ===== src/Kmalloc/Freed.antt =====
-- Giving blocks back to the heap of kmalloc.c: after `kmalloc`, and among other blocks in use.
use mathlib.Core.Path.{subst}
use os_kernel.Base.{
  ℕ, ◌+◌, ◌<◌, ◌≡◌, ◌≢◌, inl, inr, arith, ◌∙◌, ap, sym, ◌==◌, Bool, true, false, some, [], ◌∷◌,
  length, Bool-cases, ==_iff,
}
use os_kernel.Kmalloc.{Heap, header_size, kmalloc, kfree}
use os_kernel.Kmalloc.Blocks.{Blocks, mark, merge, merge_all, release, IsMerged}
use os_kernel.Kmalloc.Chain.{IsHeap}
use os_kernel.Kmalloc.Release.{IsStart, kfree_lem}
use os_kernel.Kmalloc.Merge.{release-allocate, merge-IsMerged}
use os_kernel.Kmalloc.Safety.{InUse, kmalloc-allocate, length-allocate}

-- Giving back what `kmalloc` has returned, with no other call between, restores the blocks of the heap
-- when no two neighbours were free before.
pub kfree-kmalloc :
    (fuel fuel' size p : ℕ) (h h' : Heap) (start stop : ℕ) (blocks : Blocks)
    → IsHeap h start stop blocks
    → IsMerged blocks
    → length blocks < fuel
    → length blocks + 1 < fuel'
    → kmalloc fuel size h ≡ some (some p, h')
    → (h'' : Heap) × (kfree fuel' (some p) h' ≡ some h'') × IsHeap h'' start stop blocks
kfree-kmalloc fuel fuel' size p h h' start stop blocks w merged lt lt' e =
    let (blocks', found, w') = kmalloc-allocate fuel size p h h' start stop blocks w lt e in
    let (q, place, s, back) = release-allocate size start blocks p blocks' merged found in
    let enough : length blocks' < fuel' =
      omega (arith, length-allocate size start blocks p blocks' found) in
    let (h'', r, w'') = kfree_lem fuel' q h' start stop blocks' w' s enough in
    (h'', ap (λ x. kfree fuel' (some x) h') place ∙ r, subst (IsHeap h'' start stop) back w'')

mark-InUse :
    (q r m a : ℕ) (blocks : Blocks) → r ≢ q → InUse r m a blocks → InUse r m a (mark q a blocks)
unfolding mark
mark-InUse q r m a [] ne u = u
mark-InUse q r m a ((n, f) ∷ rest) ne u = elim (Bool-cases (q == a)) [
  | inl same ↦ rw same (elim u [
    | inl (here, size, used) ↦ absurd (ne (here ∙ sym ((==_iff q a).0 same)))
    | inr u ↦ inr u
  ])
  | inr other ↦
      rw other
        (elim u [ inl here ↦ inl here | inr u ↦ inr (mark-InUse q r m (a + 12 + n) rest ne u) ])
]

merge-InUse :
    (r m a n : ℕ) (f : Bool) (rest : Blocks)
    → InUse r m a ((n, f) ∷ rest)
    → InUse r m a (merge n f rest)
unfolding merge
merge-InUse r m a n f [] u = u
merge-InUse r m a n true ((k, true) ∷ rest) u =
    let place : a + 12 + n + 12 + k ≡ a + 12 + (n + (12 + k)) = omega arith in
    elim u [
      | inl (here, size, used) ↦ absurd (cc)
      | inr (inl (here, size, used)) ↦ absurd (cc)
      | inr (inr u) ↦
          merge-InUse r m a (n + (12 + k)) true rest (inr (subst (λ x. InUse r m x rest) place u))
    ]
merge-InUse r m a n true ((k, false) ∷ rest) u = elim u [
  | inl here ↦ inl here
  | inr u ↦ inr (merge-InUse r m (a + 12 + n) k false rest u)
]
merge-InUse r m a n false ((k, g) ∷ rest) u = elim u [
  | inl here ↦ inl here
  | inr u ↦ inr (merge-InUse r m (a + 12 + n) k g rest u)
]

merge_all-InUse :
    (r m a : ℕ) (blocks : Blocks) → InUse r m a blocks → InUse r m a (merge_all blocks)
unfolding merge_all
merge_all-InUse r m a [] u = u
merge_all-InUse r m a ((n, f) ∷ rest) u = merge-InUse r m a n f rest u

merge_all-IsMerged : (blocks : Blocks) → IsMerged (merge_all blocks)
unfolding merge_all
merge_all-IsMerged [] = tt
merge_all-IsMerged ((n, f) ∷ rest) = merge-IsMerged n f rest

InUse-IsStart : (q n a : ℕ) (blocks : Blocks) → InUse q n a blocks → IsStart q a blocks
InUse-IsStart q n a [] u = u
InUse-IsStart q n a ((m, f) ∷ rest) (inl (here, size, used)) = inl here
InUse-IsStart q n a ((m, f) ∷ rest) (inr u) = inr (InUse-IsStart q n (a + 12 + m) rest u)

-- On a heap of blocks, `kfree` of a pointer to a block in use ends, once the loop may visit each block,
-- and leaves a heap of blocks in which no two neighbours are free and every other block that was in use
-- still is, at its place and with its size.
pub kfree-InUse :
    (fuel q n : ℕ) (h : Heap) (start stop : ℕ) (blocks : Blocks)
    → IsHeap h start stop blocks
    → InUse q n start blocks
    → length blocks < fuel
    → (h' : Heap) × (blocks' : Blocks) × (kfree fuel (some (q + header_size)) h ≡ some h')
      × IsHeap h' start stop blocks'
      × IsMerged blocks'
      × ((r m : ℕ) → r ≢ q → InUse r m start blocks → InUse r m start blocks')
unfolding release
kfree-InUse fuel q n h start stop blocks w u lt =
    let (h', r, w') =
      kfree_lem fuel q h start stop blocks w (InUse-IsStart q n start blocks u) lt in
    (
      h',
      release q start blocks,
      r,
      w',
      merge_all-IsMerged (mark q start blocks),
      λ r m ne other.
          merge_all-InUse r m start (mark q start blocks) (mark-InUse q r m start blocks ne other),
    )
