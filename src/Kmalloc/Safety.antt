-- ===== src/Kmalloc/Safety.antt =====
-- What a caller of `kmalloc` relies on: its block lies in the heap, apart from all others in use.
use mathlib.Core.Path.{subst}
use os_kernel.Base.{
  ne→==, ℕ, ◌+◌, ◌-◌, ◌^◌, ◌<◌, ◌≤◌, ◌≡◌, ◌⊎◌, inl, inr, refl, arith, ◌∙◌, sym, ltb, true, false,
  some, [], ◌∷◌, length, Bool-cases, ltb→lt, sub32, update_self,
}
use os_kernel.Kmalloc.{Headers, Heap, header_size, kmalloc, kmalloc_init}
use os_kernel.Kmalloc.Blocks.{Blocks, take, allocate, IsMerged}
use os_kernel.Kmalloc.Chain.{IsHeap, IsChain, IsChain-le}
use os_kernel.Kmalloc.Allocate.{kmalloc_lem}
use os_kernel.Kmalloc.Merged.{allocate-IsMerged}
use os_kernel.Kmalloc.Merge.{allocate-Steps}

-- among the blocks from address `a` on there is one in use, with its header at `q` and `n` bytes behind it
abbrev pub InUse : ℕ → ℕ → ℕ → Blocks → Type 0
InUse q n a [] = ⊥
InUse q n a ((m, f) ∷ rest) =
    ((q ≡ a) × (n ≡ m) × (f ≡ false)) ⊎ InUse q n (a + header_size + m) rest

-- the bytes of two blocks, their headers included, do not overlap
abbrev pub Apart : ℕ → ℕ → ℕ → ℕ → Type 0
Apart q n r m = (q + header_size + n ≤ r) ⊎ (r + header_size + m ≤ q)

InUse-ge : (q n a : ℕ) (blocks : Blocks) → InUse q n a blocks → a ≤ q
InUse-ge q n a [] u = elim u [ ]
InUse-ge q n a ((m, f) ∷ rest) (inl (here, same, used)) = omega arith
InUse-ge q n a ((m, f) ∷ rest) (inr u) = omega (arith, InUse-ge q n (a + 12 + m) rest u)

InUse-le :
    (q n a : ℕ) (h : Headers) (stop : ℕ) (blocks : Blocks)
    → IsChain h a stop blocks
    → InUse q n a blocks
    → q + 12 + n ≤ stop
InUse-le q n a h stop [] c u = elim u [ ]
InUse-le q n a h stop ((m, f) ∷ rest) (first, c) (inl (here, same, used)) =
    omega (arith, IsChain-le h (a + 12 + m) stop rest c)
InUse-le q n a h stop ((m, f) ∷ rest) (first, c) (inr u) = InUse-le q n (a + 12 + m) h stop rest c u

module _ (size : ℕ) where
  -- what first fit gives: a block in use that is large enough and apart from those that were in use
  abbrev Gives : ℕ → Blocks → ℕ → Blocks → Type 0
  Gives a blocks p blocks' =
      (q : ℕ) × (n : ℕ) × (p ≡ q + header_size)
      × (size ≤ n)
      × InUse q n a blocks'
      × ((r m : ℕ) → InUse r m a blocks → InUse r m a blocks' × Apart q n r m)

  take-Gives :
      (a n : ℕ) (rest : Blocks) → size ≤ n → Gives a ((n, true) ∷ rest) (a + 12) (take size n rest)
  unfolding take
  take-Gives a n rest le = elim (Bool-cases (ltb (size + 12) n)) [
    | inl room ↦
        let lt = ltb→lt (size + 12) n room in
        let place : a + 12 + size + 12 + (n - size - 12) ≡ a + 12 + n = omega arith in
        rw room (
          a,
          size,
          refl,
          omega arith,
          inl (refl, refl, refl),
          λ r m u. elim u [
            | inl (here, same, used) ↦ absurd (cc)
            | inr u ↦ (
              inr (inr (subst (λ x. InUse r m x rest) (sym place) u)),
              inl (omega (arith, InUse-ge r m (a + 12 + n) rest u)),
            )
          ],
        )
    | inr full ↦ rw full (
      a,
      n,
      refl,
      le,
      inl (refl, refl, refl),
      λ r m u. elim u [
        | inl (here, same, used) ↦ absurd (cc)
        | inr u ↦ (inr u, inl (omega (arith, InUse-ge r m (a + 12 + n) rest u)))
      ],
    )
  ]

  allocate-Gives :
      (a : ℕ) (blocks : Blocks) (p : ℕ) (blocks' : Blocks)
      → allocate size a blocks ≡ some (p, blocks')
      → Gives a blocks p blocks'
  unfolding allocate
  allocate-Gives a [] p blocks' e = absurd (cc)
  allocate-Gives a ((n, f) ∷ rest) p blocks' e = elim (allocate-Steps size a n f rest p blocks' e) [
    | inl (free, le, here, taken) ↦ rw (here, taken, free) (take-Gives a n rest le)
    | inr (rest', found, passed) ↦
        let (q, k, place, enough, given, others) = allocate-Gives (a + 12 + n) rest p rest' found in
        rw passed (
          q,
          k,
          place,
          enough,
          inr given,
          λ r m u. elim u [
            | inl (here, same, used) ↦
                (inl (here, same, used), inr (omega (arith, InUse-ge q k (a + 12 + n) rest' given)))
            | inr u ↦ (inr (others r m u).0, (others r m u).1)
          ],
        )
  ]

-- The chosen address and the heap after the call are those of first fit.
pub kmalloc-allocate :
    (fuel size p : ℕ) (h h' : Heap) (start stop : ℕ) (blocks : Blocks)
    → IsHeap h start stop blocks
    → length blocks < fuel
    → kmalloc fuel size h ≡ some (some p, h')
    → (blocks' : Blocks) × (allocate size start blocks ≡ some (p, blocks'))
      × IsHeap h' start stop blocks'
kmalloc-allocate fuel size p h h' start stop blocks w lt e =
    elim (kmalloc_lem fuel size h start stop blocks w lt) [
      | inl (missing, r) ↦ absurd (cc)
      | inr (q, blocks', h0, found, r, w') ↦
          let same_place : q ≡ p = cc in
          let same_heap : h0 ≡ h' = cc in
          (
            blocks',
            subst (λ x. allocate size start blocks ≡ some (x, blocks')) same_place found,
            subst (λ x. IsHeap x start stop blocks') same_heap w',
          )
    ]

length-take : (size n : ℕ) (rest : Blocks) → length (take size n rest) ≤ length rest + 2
unfolding take
length-take size n rest = ground arith

pub length-allocate :
    (size a : ℕ) (blocks : Blocks) (p : ℕ) (blocks' : Blocks)
    → allocate size a blocks ≡ some (p, blocks')
    → length blocks' ≤ length blocks + 1
unfolding allocate
length-allocate size a [] p blocks' e = absurd (cc)
length-allocate size a ((n, f) ∷ rest) p blocks' e =
    elim (allocate-Steps size a n f rest p blocks' e) [
      | inl (free, le, here, taken) ↦ rw taken (omega (arith, length-take size n rest))
      | inr (rest', found, passed) ↦
          rw passed (omega (arith, length-allocate size (a + 12 + n) rest p rest' found))
    ]

-- On a heap of blocks, a pointer that `kmalloc` returns has at least `size` bytes of the heap behind it
-- up to the end of its block, which is then in use; every block that was in use still is, with the size
-- it had, and does not overlap it. If no two neighbours were free before, none are after.
pub kmalloc-Gives :
    (fuel size p : ℕ) (h h' : Heap) (start stop : ℕ) (blocks : Blocks)
    → IsHeap h start stop blocks
    → length blocks < fuel
    → kmalloc fuel size h ≡ some (some p, h')
    → (q : ℕ) × (n : ℕ) × (blocks' : Blocks) × IsHeap h' start stop blocks'
      × (p ≡ q + header_size)
      × (size ≤ n)
      × (start ≤ q)
      × (p + n ≤ stop)
      × InUse q n start blocks'
      × ((r m : ℕ) → InUse r m start blocks → InUse r m start blocks' × Apart q n r m)
      × (IsMerged blocks → IsMerged blocks')
kmalloc-Gives fuel size p h h' start stop blocks w lt e =
    let (blocks', found, w') = kmalloc-allocate fuel size p h h' start stop blocks w lt e in
    let (q, n, place, enough, given, others) = allocate-Gives size start blocks p blocks' found in
    let inside : p + n ≤ stop =
      omega (arith, place, InUse-le q n start h'.headers stop blocks' w'.chain given) in
    (
      q,
      n,
      blocks',
      w',
      place,
      enough,
      InUse-ge q n start blocks' given,
      inside,
      given,
      others,
      λ merged. allocate-IsMerged size start blocks p blocks' merged found,
    )

-- After `kmalloc_init` the heap is one free block with all bytes but those of its header, when the
-- region holds a header, does not begin at the address of NULL, and ends below 2 ^ 32.
pub kmalloc_init-IsHeap :
    (start size : ℕ) (h : Heap)
    → header_size ≤ size
    → start + size < 2 ^ 32
    → 0 < start
    → IsHeap (kmalloc_init start size h) start (start + size) ((size - header_size, true) ∷ [])
unfolding kmalloc_init
kmalloc_init-IsHeap start size h le lt pos =
    let left : sub32 size 12 ≡ size - 12 = omega arith in
    record {
      begins = rw (ne→== start 0 (omega arith)) refl;
      chain = (update_self h.headers start _ ∙ rw left refl, omega arith);
      small = lt;
    }
