-- ===== src/Pmm/Init.antt =====
-- `pmm_init` of pmm/pmm.c against the regions of the memory map.
use os_kernel.Base.{
  ℕ, zero, suc, ◌+◌, ◌*◌, ◌/◌, ◌^◌, ◌≤◌, ◌<◌, ◌≡◌, ◌≢◌, inl, inr, refl, arith, Bool, true, false,
  ◌==◌, leb, if◌then◌else◌, Bool-cases, Option, some, min, ◌∙◌, sym, u64, sub64,
}
use os_kernel.Types.{page_size}
use os_kernel.Types.Align.{align_down_page, align_up_page}
use os_kernel.MemoryMap.{MmapEntry, MemoryMap, mmap_free}
use os_kernel.MemoryMap.Totals.{regions, entries_from}
use os_kernel.Pmm.{
  Pmm, pmm_max_pages, phys_mem_size, bitmap_test, region_base, region_top, free_run, free_region,
  free_regions, pmm_init,
}
use os_kernel.Pmm.Bitmap.{bitmap_test-full}
use os_kernel.Pmm.Count.{IsValid, free_count, free_count-zero, free_count-le}
use os_kernel.Pmm.Usable.{
  in_region, usable, placed, all_apart, well_placed, apart-usable, Counts, Frees, free_run-Frees,
}

-- The region in pages: what `free_region` clears of it.
module _ (e : MmapEntry) (fits : e.base + e.length + page_size ≤ 2 ^ 64)
    (edge : (e.base + 4095) / 4096 ≤ (e.base + e.length) / 4096) where
  region_base-page : region_base e ≡ (e.base + 4095) / 4096 * 4096
  region_base-page = omega (arith, align_up_page e.base)

  region_top-page : region_top e ≡ min ((e.base + e.length) / 4096) pmm_max_pages * 4096
  region_top-page = ground (arith, align_down_page (u64 (e.base + e.length)))

-- Which of the branches `free_region` takes.
module _ (e : MmapEntry) (p : Pmm) where
  free_region-other : (e.kind == mmap_free) ≡ false → free_region e p ≡ some p
  unfolding free_region
  free_region-other other = rw other refl

  free_region-beyond :
      (e.kind == mmap_free) ≡ true
      → leb phys_mem_size (region_base e) ≡ true
      → free_region e p ≡ some p
  unfolding free_region
  free_region-beyond free beyond = ground arith

  free_region-within :
      (e.kind == mmap_free) ≡ true
      → leb phys_mem_size (region_base e) ≡ false
      → free_region e p
        ≡ free_run (sub64 (region_top e) (region_base e) / page_size) (region_base e / page_size) p
  unfolding free_region
  free_region-within free within = ground arith

-- The same pages under another test.
Frees-same :
    {p : Pmm} {r r' : Option Pmm} (within within' : ℕ → Bool)
    → r' ≡ r
    → ((j : ℕ) → j < pmm_max_pages → within j ≡ within' j)
    → Frees within p r
    → Frees within' p r'
Frees-same within within' e same m = record {
  next = m.next;
  runs = e ∙ m.runs;
  counts = m.counts;
  bits = λ j lt. rw (← same j lt) (m.bits j lt);
}

free_region-Frees :
    (e : MmapEntry) (p : Pmm)
    → placed e ≡ true
    → Counts p
    → ((j : ℕ) → j < pmm_max_pages → in_region e j ≡ true → bitmap_test p.bitmap j ≢ 0)
    → Frees (in_region e) p (free_region e p)
free_region-Frees e p h c used = elim (Bool-cases (e.kind == mmap_free)) [
  | inr other ↦ record {
    next = p;
    runs = free_region-other e p other;
    counts = c;
    bits = λ j lt. rw other refl;
  }
  | inl free ↦
      let fits : e.base + e.length + page_size ≤ 2 ^ 64 = ground arith in
      let edge : (e.base + 4095) / 4096 ≤ (e.base + e.length) / 4096 = ground arith in
      let base = region_base-page e fits edge in
      let top = region_top-page e fits edge in
      elim (Bool-cases (leb phys_mem_size (region_base e))) [
        | inl beyond ↦ record {
          next = p;
          runs = free_region-beyond e p free beyond;
          counts = c;
          bits = λ j lt. ground arith;
        }
        | inr within ↦
            let first : region_base e / page_size ≡ (e.base + 4095) / 4096 = omega arith in
            let pages : (e.base + 4095) / 4096 + sub64 (region_top e) (region_base e) / page_size
                ≡ min ((e.base + e.length) / 4096) pmm_max_pages =
              ground arith in
            Frees-same _ (in_region e) (free_region-within e p free within) (λ j lt. ground arith)
              (free_run-Frees (sub64 (region_top e) (region_base e) / page_size)
                (region_base e / page_size) p (omega arith) c
                (λ j lo hi. used j (omega arith) (ground arith)))
      ]
]

free_regions-goes :
    (entries : ℕ → MmapEntry) (n i : ℕ) (p q : Pmm)
    → free_region (entries i) p ≡ some q
    → free_regions entries (suc n) i p ≡ free_regions entries n (i + 1) q
unfolding free_regions
free_regions-goes entries n i p q e = rw (e, free_regions) refl

free_regions-Frees :
    (entries : ℕ → MmapEntry) (n i : ℕ) (p : Pmm)
    → well_placed (entries_from entries i n) ≡ true
    → Counts p
    → ((j : ℕ)
        → j < pmm_max_pages
        → usable (entries_from entries i n) j ≡ true
        → bitmap_test p.bitmap j ≢ 0)
    → Frees (usable (entries_from entries i n)) p (free_regions entries n i p)
unfolding free_regions entries_from usable
free_regions-Frees entries zero i p h c used = record {
  next = p;
  runs = refl;
  counts = c;
  bits = λ j lt. refl;
}
free_regions-Frees entries (suc n) i p h c used =
    let e = entries i in
    let es = entries_from entries (i + 1) n in
    let here : placed e ≡ true = unfold well_placed in ground arith in
    let alone : all_apart e es ≡ true = unfold well_placed in ground arith in
    let later : well_placed es ≡ true = unfold well_placed in ground arith in
    let m = free_region-Frees e p here c (λ j lt is. used j lt (ground arith)) in
    let rest = free_regions-Frees entries n (i + 1) m.next later m.counts (λ j lt is zero.
      used j lt (ground (arith, apart-usable e es j alone))
        (ground (arith, m.bits j lt, apart-usable e es j alone))) in
    record {
      next = rest.next;
      runs = free_regions-goes entries n i p m.next m.runs ∙ rest.runs;
      counts = rest.counts;
      bits = λ j lt. ground (arith, rest.bits j lt, m.bits j lt);
    }

-- `pmm_init` for a map whose free regions do not overlap, do not reach the last page of the 64-bit
-- addresses, and contain a page boundary each: it does not write outside the bitmap and leaves a valid
-- allocator, in which a page of the buffer is free exactly when it lies in a free region as a
-- whole. No page counts as used, and the total is the number of free pages.
pub pmm_init_lem :
    (m : MemoryMap)
    → well_placed (regions m) ≡ true
    → (p : Pmm) × (pmm_init m ≡ some p)
      × IsValid p
      × ((j : ℕ)
          → j < pmm_max_pages
          → bitmap_test p.bitmap j ≡ (if usable (regions m) j then 0 else 1))
      × (p.used_pages ≡ 0)
      × (p.total_pages ≡ p.free_pages)
unfolding pmm_init
pmm_init_lem m h = (
  record r.next { used_pages = 0 },
  rw (r.runs, pmm_init) refl,
  record {
    counted = r.counts.free;
    conserved =
        omega (arith, r.counts.free, r.counts.total, free_count-le r.next.bitmap pmm_max_pages);
    used_small = omega arith;
  },
  λ j lt. ground (arith, r.bits j lt, bitmap_test-full j),
  refl,
  r.counts.total,
)
  where
    full : ℕ → ℕ
    full i = 0xFF

    start : Pmm
    start = record { bitmap = full; total_pages = 0; free_pages = 0; used_pages = 0 }

    empty : free_count full pmm_max_pages ≡ 0
    empty =
        free_count-zero full pmm_max_pages (λ j lt e. absurd (omega (arith, bitmap_test-full j)))

    r : Frees (usable (regions m)) start (free_regions m.entries m.count 0 start)
    r =
        free_regions-Frees m.entries m.count 0 start h (record { free = sym empty; total = refl })
          (λ j lt is zero. absurd (omega (arith, bitmap_test-full j)))
