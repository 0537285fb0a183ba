-- ===== src/Kmalloc/Allocate.antt =====
-- `kmalloc` of kmalloc.c against first fit on the list of blocks.
use os_kernel.Base.{
  ℕ, zero, suc, ◌+◌, ◌^◌, ◌<◌, ◌≤◌, ◌≡◌, ◌⊎◌, inl, inr, refl, arith, ◌∙◌, ap, sym, leb, ◌&&◌, Bool,
  true, false, Option, none, some, [], ◌∷◌, length, u32, Bool-cases, leb→le,
}
use os_kernel.Kmalloc.{Headers, Heap, take_block, fits, kmalloc_loop, kmalloc}
use os_kernel.Kmalloc.Blocks.{Blocks, take, allocate}
use os_kernel.Kmalloc.Chain.{flag, link, IsChain, IsHeap, IsChain-le}
use os_kernel.Kmalloc.Taken.{IsTaken, take_block-IsTaken}

-- What `kmalloc` does with the blocks from address `a` on: nothing, for NULL, when no block fits;
-- otherwise what first fit does.
abbrev Allocates : ℕ → Headers → ℕ → ℕ → Blocks → Option (Option ℕ × Headers) → Type 0
Allocates size h a stop blocks r =
    ((allocate size a blocks ≡ none) × (r ≡ some (none, h)))
    ⊎ ((p : ℕ) × (blocks' : Blocks) × (h' : Headers) × (allocate size a blocks ≡ some (p, blocks'))
        × (r ≡ some (some p, h'))
        × (link a blocks' ≡ link a blocks)
        × IsTaken h a stop blocks' h')

fits-flag :
    (size n : ℕ) (f : Bool) (nx : Option ℕ)
    → fits size (record { size = n; is_free = flag f; next = nx }) ≡ (f && leb size n)
unfolding fits
fits-flag size n true nx = refl
fits-flag size n false nx = refl

link-take : (a size n : ℕ) (rest : Blocks) → link a (take size n rest) ≡ some a
unfolding take
link-take a size n rest = ground arith

module _ (fuel : ℕ) (h : Headers) (a stop size n : ℕ) (f : Bool) (rest : Blocks)
    (chain : IsChain h a stop ((n, f) ∷ rest)) (small : stop < 2 ^ 32) where
  bound : a + 12 + n ≤ stop
  bound = IsChain-le h (a + 12 + n) stop rest chain.1

  test : fits size (h a) ≡ (f && leb size n)
  test = ap (fits size) chain.0 ∙ fits-flag size n f (link (a + 12 + n) rest)

  -- the block at hand is passed over
  pass-Allocates :
      (f && leb size n) ≡ false
      → Allocates size h (a + 12 + n) stop rest (kmalloc_loop fuel (link (a + 12 + n) rest) size h)
      → Allocates size h a stop ((n, f) ∷ rest) (kmalloc_loop (suc fuel) (some a) size h)
  unfolding kmalloc_loop allocate
  pass-Allocates miss ih =
      let next : (h a).next ≡ link (a + 12 + n) rest = ap (λ x. x.next) chain.0 in
      rw (kmalloc_loop, test, miss, next)
        (elim ih [
          | inl (missing, r) ↦ inl (rw missing refl, r)
          | inr (p, blocks', h', found, r, same, (c', frame)) ↦ inr (
            p,
            (n, f) ∷ blocks',
            h',
            rw found refl,
            r,
            refl,
            ((frame a (omega arith) ∙ rw same chain.0, c'), λ b lt. frame b (omega arith)),
          )
        ])

-- the block at hand is taken
hit-Allocates :
    (fuel : ℕ) (h : Headers) (a stop size n : ℕ) (rest : Blocks)
    → IsChain h a stop ((n, true) ∷ rest)
    → stop < 2 ^ 32
    → leb size n ≡ true
    → Allocates size h a stop ((n, true) ∷ rest) (kmalloc_loop (suc fuel) (some a) size h)
unfolding kmalloc_loop allocate
hit-Allocates fuel h a stop size n rest chain small fit =
    let place : u32 (a + 12) ≡ a + 12 =
      omega (arith, bound fuel h a stop size n true rest chain small) in
    rw (kmalloc_loop, test fuel h a stop size n true rest chain small, fit, place)
      (inr (
        a + 12,
        take size n rest,
        take_block a size h,
        refl,
        refl,
        link-take a size n rest,
        take_block-IsTaken h a stop size n rest chain (leb→le size n fit) small,
      ))

kmalloc_loop-Allocates :
    (fuel : ℕ) (h : Headers) (a stop size : ℕ) (blocks : Blocks)
    → IsChain h a stop blocks
    → stop < 2 ^ 32
    → length blocks < fuel
    → Allocates size h a stop blocks (kmalloc_loop fuel (link a blocks) size h)
unfolding kmalloc_loop allocate
kmalloc_loop-Allocates zero h a stop size blocks c small lt = absurd (omega arith)
kmalloc_loop-Allocates (suc fuel) h a stop size [] c small lt = inl (refl, refl)
kmalloc_loop-Allocates (suc fuel) h a stop size ((n, false) ∷ rest) (here, c) small lt =
    pass-Allocates fuel h a stop size n false rest (here, c) small refl
      (kmalloc_loop-Allocates fuel h (a + 12 + n) stop size rest c small (omega arith))
kmalloc_loop-Allocates (suc fuel) h a stop size ((n, true) ∷ rest) (here, c) small lt =
    let ih = kmalloc_loop-Allocates fuel h (a + 12 + n) stop size rest c small (omega arith) in
    elim (Bool-cases (leb size n)) [
      | inl fit ↦ hit-Allocates fuel h a stop size n rest (here, c) small fit
      | inr miss ↦ pass-Allocates fuel h a stop size n true rest (here, c) small miss ih
    ]

-- On a heap of blocks, `kmalloc` ends, once it may visit each block, and does what first fit does on
-- the list of the blocks: when no block fits it returns NULL and changes nothing, and otherwise it
-- returns the address that first fit chooses and leaves the heap of the blocks that first fit leaves.
pub kmalloc_lem :
    (fuel size : ℕ) (h : Heap) (start stop : ℕ) (blocks : Blocks)
    → IsHeap h start stop blocks
    → length blocks < fuel
    → ((allocate size start blocks ≡ none) × (kmalloc fuel size h ≡ some (none, h)))
      ⊎ ((p : ℕ) × (blocks' : Blocks) × (h' : Heap) × (allocate size start blocks
            ≡ some (p, blocks'))
          × (kmalloc fuel size h ≡ some (some p, h'))
          × IsHeap h' start stop blocks')
unfolding kmalloc
kmalloc_lem fuel size h start stop blocks w lt =
    let begins : kmalloc_loop fuel h.heap_start size h.headers
        ≡ kmalloc_loop fuel (link start blocks) size h.headers =
      ap (λ x. kmalloc_loop fuel x size h.headers) w.begins in
    elim (kmalloc_loop-Allocates fuel h.headers start stop size blocks w.chain w.small lt) [
      | inl (missing, r) ↦ inl (missing, rw (kmalloc, begins, r) refl)
      | inr (p, blocks', headers, found, r, same, (c, frame)) ↦ inr (
        p,
        blocks',
        record h { headers = headers },
        found,
        rw (kmalloc, begins, r) refl,
        record { begins = w.begins ∙ sym same; chain = c; small = w.small },
      )
    ]
