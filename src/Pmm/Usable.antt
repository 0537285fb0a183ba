-- ===== src/Pmm/Usable.antt =====
-- The pages that the free regions of a memory map hold, and the inner loop of `pmm_init` of pmm/pmm.c.
use os_kernel.Base.{
  ℕ, zero, suc, ◌+◌, ◌*◌, ◌/◌, ◌^◌, ◌≤◌, ◌<◌, ◌≡◌, ◌≢◌, refl, arith, Bool, true, false, not, ◌&&◌,
  ◌||◌, ◌==◌, ltb, leb, if◌then◌else◌, Option, some, List, [], ◌∷◌, ap, u64, lt→leb,
}
use os_kernel.Types.{page_size}
use os_kernel.MemoryMap.{MmapEntry, mmap_free}
use os_kernel.Pmm.{Pmm, pmm_max_pages, pmm_bitmap_bytes, bitmap_clear, bitmap_test, free_run}
use os_kernel.Pmm.Bitmap.{bitmap_test-lt, bitmap_test-bitmap_clear}
use os_kernel.Pmm.Count.{free_count, free_count-one_more, free_count-le}

-- the page `j` lies in the region, which is free
abbrev pub in_region : MmapEntry → ℕ → Bool
in_region e j =
    (e.kind == mmap_free)
    && (leb e.base (j * page_size) && leb ((j + 1) * page_size) (e.base + e.length))

-- some region has the page
unfoldable pub usable : List MmapEntry → ℕ → Bool
usable [] j = false
usable (e ∷ es) j = in_region e j || usable es j

-- A free region does not reach the last page of the 64-bit addresses, and has a page boundary.
abbrev pub placed : MmapEntry → Bool
placed e =
    not (e.kind == mmap_free)
    || (leb (e.base + e.length + page_size) (2 ^ 64)
        && leb ((e.base + 4095) / 4096) ((e.base + e.length) / 4096))

-- The regions do not overlap, unless one of them is not free.
abbrev apart : MmapEntry → MmapEntry → Bool
apart e e' =
    not (e.kind == mmap_free)
    || (not (e'.kind == mmap_free)
        || (leb (e.base + e.length) e'.base || leb (e'.base + e'.length) e.base))

pub all_apart : MmapEntry → List MmapEntry → Bool
all_apart e [] = true
all_apart e (e' ∷ es) = apart e e' && all_apart e es

-- every region is `placed`, and no two of them overlap
unfoldable pub well_placed : List MmapEntry → Bool
unfolding all_apart
well_placed [] = true
well_placed (e ∷ es) = placed e && (all_apart e es && well_placed es)

pub apart-usable :
    (e : MmapEntry) (es : List MmapEntry) (j : ℕ)
    → all_apart e es ≡ true
    → in_region e j ≡ true
    → usable es j ≡ false
unfolding all_apart usable
apart-usable e [] j h i = refl
apart-usable e (e' ∷ es) j h i = ground (arith, apart-usable e es j)

-- what the loops keep: the counters agree with the bitmap
pub record Counts (p : Pmm) : Type 0 where
  pub free : p.free_pages ≡ free_count p.bitmap pmm_max_pages
  pub total : p.total_pages ≡ p.free_pages

pub record Frees (within : ℕ → Bool) (p : Pmm) (r : Option Pmm) : Type 0 where
  pub next : Pmm
  pub runs : r ≡ some next
  pub counts : Counts next
  pub bits :
      (j : ℕ)
      → j < pmm_max_pages
      → bitmap_test next.bitmap j ≡ (if within j then 0 else bitmap_test p.bitmap j)

pub free_run-Frees :
    (pages page : ℕ) (p : Pmm)
    → page + pages ≤ pmm_max_pages
    → Counts p
    → ((j : ℕ) → page ≤ j → j < page + pages → bitmap_test p.bitmap j ≢ 0)
    → Frees (λ j. leb page j && ltb j (page + pages)) p (free_run pages page p)
unfolding free_run
free_run-Frees zero page p fits c used = record {
  next = p;
  runs = refl;
  counts = c;
  bits = λ j lt. ground arith;
}
free_run-Frees (suc pages) page p fits c used =
    let one : bitmap_test p.bitmap page ≡ 1 =
      ground (arith, used page, bitmap_test-lt p.bitmap page) in
    let after = bitmap_test-bitmap_clear p.bitmap page in
    let more =
      free_count-one_more (bitmap_clear p.bitmap page) p.bitmap page pmm_max_pages (omega arith)
        (ground (arith, after page)) (λ j. ground (arith, after j)) in
    let few = free_count-le (bitmap_clear p.bitmap page) pmm_max_pages in
    let rest =
      free_run-Frees pages (page + 1)
        (record p {
          bitmap = bitmap_clear p.bitmap page;
          free_pages = u64 (p.free_pages + 1);
          total_pages = u64 (p.total_pages + 1);
        })
        (omega arith)
        (record { free = omega (arith, c.free, more, few); total = ap (λ n. u64 (n + 1)) c.total })
        (λ j lo hi. ground (arith, after j, used j)) in
    record {
      next = rest.next;
      runs = rw (lt→leb pmm_bitmap_bytes (page / 2 ^ 3) (omega arith)) rest.runs;
      counts = rest.counts;
      bits = λ j lt. ground (arith, rest.bits j lt, after j);
    }
