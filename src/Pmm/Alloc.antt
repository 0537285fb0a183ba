-- ===== src/Pmm/Alloc.antt =====
-- `pmm_alloc` and its scan over the bitmap, in pmm/pmm.c.
use os_kernel.Base.{
  ℕ, zero, suc, ◌+◌, ◌*◌, ◌≤◌, ◌<◌, ◌≡◌, ◌≢◌, ◌⊎◌, inl, inr, refl, arith, ◌==◌, ltb, leb, ◌&&◌,
  if◌then◌else◌, Bool-cases, some, ◌∙◌, ==_iff, ==→ne, lt→leb, le→ltb,
}
use os_kernel.Types.{page_size}
use os_kernel.Pmm.{
  Pmm, State, ◌>>◌, ◌>>=◌, pure, phys_mem_size, pmm_max_pages, no_page, phys_to_virt, memset,
  bitmap_test, take_page, alloc_scan, pmm_alloc,
}
use os_kernel.Pmm.Bitmap.{bitmap_test-bitmap_set}
use os_kernel.Pmm.Count.{
  IsValid, free_count-one_more, free_count-zero, free_count_eq_zero, free_pages-le,
}

-- the memory with `n` bytes from `a` on set to 0
unfoldable pub zeroed : ℕ → ℕ → (ℕ → ℕ) → ℕ → ℕ
zeroed a n mem b = if leb a b && ltb b (a + n) then 0 else mem b

-- the state after page `i` has been taken and zeroed
abbrev pub taken : ℕ → State → State
taken i s = record {
  pmm = take_page i s.pmm;
  phys_mem = zeroed (i * page_size) page_size s.phys_mem;
}

-- no page is free
abbrev pub IsFull : State → Type 0
IsFull s = (j : ℕ) → j < pmm_max_pages → bitmap_test s.pmm.bitmap j ≢ 0

pub take_page-IsValid :
    {p : Pmm} (i : ℕ)
    → IsValid p
    → i < pmm_max_pages
    → bitmap_test p.bitmap i ≡ 0
    → IsValid (take_page i p)
unfolding take_page
take_page-IsValid {p} i v lt free =
    let one_more =
      free_count-one_more p.bitmap (take_page i p).bitmap i pmm_max_pages lt free
        (bitmap_test-bitmap_set p.bitmap i) in
    let few = free_pages-le v in
    record {
      counted = omega (arith, v.counted, one_more);
      conserved = omega (arith, v.counted, v.conserved, one_more);
      used_small = omega arith;
    }

pub phys_to_virt-some : (a : ℕ) → a < phys_mem_size → phys_to_virt a ≡ some a
unfolding phys_to_virt
phys_to_virt-some a h = rw (lt→leb phys_mem_size a h) refl

pub memset-zeroed :
    (a n : ℕ) (s : State)
    → a + n ≤ phys_mem_size
    → memset (some a) 0 n s ≡ some (tt, record s { phys_mem = zeroed a n s.phys_mem })
unfolding memset zeroed
memset-zeroed a n s h = rw (le→ltb phys_mem_size (a + n) h) refl

zero_page :
    (i : ℕ) (s : State)
    → i < pmm_max_pages
    → (memset (phys_to_virt (i * page_size)) 0 page_size >> pure (i * page_size))
        (record s { pmm = take_page i s.pmm })
      ≡ some (i * page_size, taken i s)
zero_page i s lt =
    rw
      (
        phys_to_virt-some (i * page_size) (omega arith),
        memset-zeroed (i * page_size) page_size (record s { pmm = take_page i s.pmm })
            (omega arith),
        ◌>>=◌,
      )
      refl

-- Either every page from `i` on is in use and no page is returned, or the first free one is.
abbrev pub ScanResult : ℕ → State → Type 0
ScanResult i s =
    (k : ℕ) × (i ≤ k)
    × (k < pmm_max_pages)
    × (bitmap_test s.pmm.bitmap k ≡ 0)
    × ((j : ℕ) → i ≤ j → j < k → bitmap_test s.pmm.bitmap j ≢ 0)

alloc_scan_lem :
    (left i : ℕ) (s : State)
    → i + left ≡ pmm_max_pages
    → (((j : ℕ) → i ≤ j → j < pmm_max_pages → bitmap_test s.pmm.bitmap j ≢ 0)
        × (alloc_scan left i s ≡ some (no_page, s)))
      ⊎ ((r : ScanResult i s) × (alloc_scan left i s ≡ some (r.0 * page_size, taken r.0 s)))
unfolding alloc_scan
alloc_scan_lem zero i s e = inl (λ j p q. absurd (omega arith), refl)
alloc_scan_lem (suc left) i s e = elim (Bool-cases (bitmap_test s.pmm.bitmap i == 0)) [
  | inl free ↦ inr (
    (i, omega arith, omega arith, (==_iff _ _).0 free, λ j p q. absurd (omega arith)),
    rw free (zero_page i s (omega arith)),
  )
  | inr used ↦ elim (alloc_scan_lem left (i + 1) s (omega arith)) [
    | inl (all, done) ↦ inl (λ j p q. ground (arith, all j), rw used done)
    | inr ((k, p, q, free, before), done) ↦
        inr ((k, omega arith, q, free, λ j p' q'. ground (arith, before j)), rw used done)
  ]
]

-- `pmm_alloc` on a valid allocator, in full: when no page is free it returns `(paddr_t)-1` and
-- changes nothing; otherwise it returns the address of the first free page, marks that page, zeroes
-- its bytes and no others, and the allocator stays valid.
pub pmm_alloc_lem :
    (s : State)
    → IsValid s.pmm
    → (IsFull s × (pmm_alloc s ≡ some (no_page, s)))
      ⊎ ((k : ℕ) × (k < pmm_max_pages)
          × (bitmap_test s.pmm.bitmap k ≡ 0)
          × ((j : ℕ) → j < k → bitmap_test s.pmm.bitmap j ≢ 0)
          × (pmm_alloc s ≡ some (k * page_size, taken k s))
          × IsValid (taken k s).pmm)
unfolding pmm_alloc
pmm_alloc_lem s v = elim (Bool-cases (s.pmm.free_pages == 0)) [
  | inl full ↦ inl (
    λ j lt. free_count_eq_zero s.pmm.bitmap pmm_max_pages j (ground (arith, v.counted)) lt,
    rw full refl,
  )
  | inr some_free ↦ elim (alloc_scan_lem pmm_max_pages 0 s refl) [
    | inl (all, done) ↦ absurd (
        ==→ne _ _ some_free
          (v.counted ∙ free_count-zero s.pmm.bitmap pmm_max_pages (λ j lt. all j (omega arith) lt)))
    | inr ((k, p, q, free, before), done) ↦ inr (
      k,
      q,
      free,
      λ j lt. before j (omega arith) lt,
      rw some_free done,
      take_page-IsValid k v q free,
    )
  ]
]
