-- ===== src/Pmm/Free.antt =====
-- `pmm_free` and `pmm_free_n` of pmm/pmm.c.
use os_kernel.Base.{
  ℕ, zero, suc, ◌+◌, ◌-◌, ◌*◌, ◌/◌, ◌%◌, ◌^◌, ◌≤◌, ◌<◌, ◌≡◌, ◌≢◌, ◌⊎◌, inl, inr, refl, arith, ◌==◌,
  leb, Bool-cases, some, ==_iff, ==→ne, leb→le,
}
use os_kernel.Types.{page_size}
use os_kernel.Pmm.{
  Pmm, State, take_page, bitmap_set, phys_mem_size, pmm_max_pages, no_page, bitmap_test,
  bitmap_clear, pmm_alloc, pmm_free, pmm_free_n, free_n_loop,
}
use os_kernel.Pmm.Bitmap.{bitmap_test-lt, bitmap_test-bitmap_set, bitmap_test-bitmap_clear}
use os_kernel.Pmm.Count.{IsValid, free_count-one_more, free_pages-le}
use os_kernel.Pmm.Alloc.{taken, pmm_alloc_lem}

-- What `pmm_free` accepts: the address of a page of the buffer that is marked as in use.
abbrev pub IsFreeable : ℕ → Pmm → Type 0
IsFreeable addr p =
    (addr % page_size ≡ 0) × (addr < phys_mem_size) × (bitmap_test p.bitmap (addr / page_size) ≢ 0)

-- the state after page `i` has been given back
abbrev pub released : ℕ → Pmm → Pmm
released i p = record p {
  bitmap = bitmap_clear p.bitmap i;
  free_pages = (p.free_pages + 1) % 2 ^ 64;
  used_pages = (p.used_pages + 2 ^ 64 - 1) % 2 ^ 64;
}

-- An address that `pmm_free` accepts gives its page back.
pub pmm_free-released :
    {addr : ℕ} (p : Pmm) → IsFreeable addr p → pmm_free addr p ≡ released (addr / page_size) p
unfolding pmm_free
pmm_free-released {addr} p h = ground arith

-- Misaligned and out-of-range addresses, and pages that are free already, change nothing.
pmm_free-rejected :
    (addr : ℕ) (p : Pmm)
    → (addr % page_size ≢ 0)
      ⊎ ((phys_mem_size ≤ addr) ⊎ (bitmap_test p.bitmap (addr / page_size) ≡ 0))
    → pmm_free addr p ≡ p
unfolding pmm_free
pmm_free-rejected addr p h = ground arith

released-IsValid :
    (i : ℕ) {p : Pmm}
    → IsValid p
    → i < pmm_max_pages
    → bitmap_test p.bitmap i ≢ 0
    → IsValid (released i p)
released-IsValid i {p} v lt used =
    let bit : bitmap_test p.bitmap i ≡ 1 = omega (arith, bitmap_test-lt p.bitmap i) in
    let after = bitmap_test-bitmap_clear p.bitmap i in
    let one_more =
      free_count-one_more (bitmap_clear p.bitmap i) p.bitmap i pmm_max_pages lt
        (ground (arith, after i)) (λ j. ground (arith, after j)) in
    let few = free_pages-le v in
    record {
      counted = omega (arith, v.counted, one_more);
      conserved = omega (arith, v.counted, v.conserved, one_more);
      used_small = omega arith;
    }

pub pmm_free_cases :
    (addr : ℕ) (p : Pmm)
    → (pmm_free addr p ≡ p)
      ⊎ (IsFreeable addr p × (pmm_free addr p ≡ released (addr / page_size) p))
pmm_free_cases addr p = elim (Bool-cases (addr % page_size == 0)) [
  | inr odd ↦ inl (pmm_free-rejected addr p (inl (==→ne _ _ odd)))
  | inl aligned ↦ elim (Bool-cases (leb phys_mem_size addr)) [
    | inl out ↦ inl (pmm_free-rejected addr p (inr (inl (leb→le _ _ out))))
    | inr within ↦ elim (Bool-cases (bitmap_test p.bitmap (addr / page_size) == 0)) [
      | inl free ↦ inl (pmm_free-rejected addr p (inr (inr ((==_iff _ _).0 free))))
      | inr used ↦
          let h : IsFreeable addr p = (ground arith, ground arith, ==→ne _ _ used) in
          inr (h, pmm_free-released p h)
    ]
  ]
]

-- `pmm_free` keeps the allocator valid, whatever the address.
pub pmm_free-IsValid : {p : Pmm} (addr : ℕ) → IsValid p → IsValid (pmm_free addr p)
pmm_free-IsValid {p} addr v = elim (pmm_free_cases addr p) [
  | inl same ↦ rw same v
  | inr (h, e) ↦ rw e (released-IsValid (addr / page_size) v (omega arith) h.2)
]

free_n_loop-IsValid : (left i addr : ℕ) {p : Pmm} → IsValid p → IsValid (free_n_loop left i addr p)
unfolding free_n_loop
free_n_loop-IsValid zero i addr v = v
free_n_loop-IsValid (suc left) i addr v =
    free_n_loop-IsValid left (i + 1) addr (pmm_free-IsValid ((addr + i * page_size) % 2 ^ 64) v)

-- `pmm_free_n` keeps the allocator valid, whatever the addresses.
pub pmm_free_n-IsValid : {p : Pmm} (addr n : ℕ) → IsValid p → IsValid (pmm_free_n addr n p)
unfolding pmm_free_n
pmm_free_n-IsValid addr n v = free_n_loop-IsValid n 0 addr v

-- the same pages are in use, and the counters are the same
pub record IsSame (p q : Pmm) : Type 0 where
  pub bits : (j : ℕ) → bitmap_test p.bitmap j ≡ bitmap_test q.bitmap j
  pub free : p.free_pages ≡ q.free_pages
  pub used : p.used_pages ≡ q.used_pages
  pub total : p.total_pages ≡ q.total_pages

pmm_free-take_page :
    {p : Pmm} (k : ℕ)
    → IsValid p
    → k < pmm_max_pages
    → bitmap_test p.bitmap k ≡ 0
    → IsSame (pmm_free (k * page_size) (take_page k p)) p
pmm_free-take_page {p} k v lt free =
    let bits = bitmap_test-bitmap_set p.bitmap k in
    let few = free_pages-le v in
    let one_more =
      free_count-one_more p.bitmap (bitmap_set p.bitmap k) k pmm_max_pages lt free bits in
    let page : k * page_size / page_size ≡ k = omega arith in
    rw
      (
        pmm_free-released {addr = k * page_size} (take_page k p)
            (omega arith, omega arith, unfold take_page in rw page (ground (arith, bits k))),
        page,
      )
      (unfold take_page in
        record {
          bits = λ j. ground (arith, bits j, bitmap_test-bitmap_clear (bitmap_set p.bitmap k) k j);
          free = omega (arith, v.counted, one_more);
          used = omega (arith, v.used_small);
          total = refl;
        })

-- A page that `pmm_alloc` hands out can be given back by `pmm_free`, which restores every bit of the
-- bitmap and all three counters.
pmm_free-pmm_alloc :
    (s t : State) (addr : ℕ)
    → IsValid s.pmm
    → pmm_alloc s ≡ some (addr, t)
    → addr ≢ no_page
    → IsSame (pmm_free addr t.pmm) s.pmm
pmm_free-pmm_alloc s t addr v e ne = elim (pmm_alloc_lem s v) [
  | inl (all, done) ↦ absurd (ne (cc))
  | inr (k, lt, free, before, done, valid) ↦
      let at_k : addr ≡ k * page_size = ground arith in
      let after : t ≡ taken k s = ground arith in rw (at_k, after) (pmm_free-take_page k v lt free)
]

-- A page that was never allocated but is marked as in use (a reserved one, after `pmm_init`) is
-- accepted too: with no page allocated, `used_pages` wraps round to 2 ^ 64 - 1.
pmm_free-reserved :
    (p : Pmm) (addr : ℕ)
    → IsFreeable addr p
    → p.used_pages ≡ 0
    → (pmm_free addr p).used_pages ≡ 2 ^ 64 - 1
pmm_free-reserved p addr h e = rw (pmm_free-released p h) (omega arith)
