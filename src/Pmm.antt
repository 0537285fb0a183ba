-- ===== src/Pmm.antt =====
-- pmm/pmm.h and pmm.c: the physical page allocator over a bitmap, and the 64 MB buffer `phys_mem`
-- that stands for the memory. A command takes the state to a result and the next state; `none` is
-- what C leaves undefined (a write outside the bitmap or the buffer, or through NULL).
pub mod Bitmap
pub mod Count
pub mod Alloc
pub mod AllocN
pub mod Free
pub mod FreeN
pub mod Print
pub mod Usable
pub mod Init
mod Examples
use os_kernel.Base.{
  ℕ, zero, suc, ◌+◌, ◌-◌, ◌*◌, ◌/◌, ◌%◌, ◌^◌, bit_and, bit_or, Bool, true, false, not, ◌&&◌, ◌||◌,
  Option, none, some, ◌==◌, ltb, leb, u8, u32, u64, sub64, if◌then◌else◌, update,
}
use os_kernel.Types.{page_size, align_down, align_up}
use os_kernel.MemoryMap.{MmapEntry, MemoryMap, mmap_free}

abbrev pub phys_mem_size : ℕ
phys_mem_size = 64 * 1024 * 1024

abbrev pub pmm_max_pages : ℕ
pmm_max_pages = phys_mem_size / page_size

abbrev pub pmm_bitmap_bytes : ℕ
pmm_bitmap_bytes = pmm_max_pages / 8

-- `pmm_t`; the bitmap is an array of bytes.
pub record Pmm : Type 0 where
  pub bitmap : ℕ → ℕ
  pub total_pages : ℕ
  pub free_pages : ℕ
  pub used_pages : ℕ

-- An allocator and the bytes of `phys_mem`.
pub record State : Type 0 where
  pub pmm : Pmm
  pub phys_mem : ℕ → ℕ

abbrev pub M : Type 0 → Type 0
M A = State → Option (A × State)

abbrev pub pure : {A : Type 0} → A → M A
pure a s = some (a, s)

infixl 5 ◌>>=◌ ◌>>◌
abbrev pub ◌>>=◌ : {A B : Type 0} → M A → (A → M B) → M B
◌>>=◌ m f s = elim (m s) [ none ↦ none | some (a, s') ↦ f a s' ]

abbrev pub ◌>>◌ : {B : Type 0} → M (Unit {0}) → M B → M B
m >> k = m >>= λ _. k

-- `(paddr_t)-1`
abbrev pub no_page : ℕ
no_page = 2 ^ 64 - 1

-- A pointer into `phys_mem` is its offset there; `none` is NULL.
unfoldable pub phys_to_virt : ℕ → Option ℕ
phys_to_virt addr = if leb phys_mem_size addr then none else some addr

unfoldable pub bitmap_set : (ℕ → ℕ) → ℕ → ℕ → ℕ
bitmap_set bitmap bit =
    update bitmap (bit / 2 ^ 3) (u8 (bit_or (bitmap (bit / 2 ^ 3)) (u32 (2 ^ bit_and bit 7))))

unfoldable pub bitmap_clear : (ℕ → ℕ) → ℕ → ℕ → ℕ
bitmap_clear bitmap bit =
    update bitmap (bit / 2 ^ 3)
      (u8 (bit_and (bitmap (bit / 2 ^ 3)) (2 ^ 32 - 1 - u32 (2 ^ bit_and bit 7))))

unfoldable pub bitmap_test : (ℕ → ℕ) → ℕ → ℕ
bitmap_test bitmap bit = bit_and (bitmap (bit / 2 ^ 3) / 2 ^ bit_and bit 7) 1

-- The inner loop of `pmm_init`: clears the bits from `page` on, `pages` of them.
unfoldable pub free_run : ℕ → ℕ → Pmm → Option Pmm
free_run zero page pmm = some pmm
free_run (suc pages) page pmm =
    if leb pmm_bitmap_bytes (page / 2 ^ 3)
    then none
    else free_run pages (page + 1) (record pmm {
      bitmap = bitmap_clear pmm.bitmap page;
      free_pages = u64 (pmm.free_pages + 1);
      total_pages = u64 (pmm.total_pages + 1);
    })

abbrev pub region_base : MmapEntry → ℕ
region_base e = align_up e.base page_size

abbrev pub region_top : MmapEntry → ℕ
region_top e =
    let top = align_down (u64 (e.base + e.length)) page_size in
    if ltb phys_mem_size top then phys_mem_size else top

-- One round of the outer loop of `pmm_init`.
unfoldable pub free_region : MmapEntry → Pmm → Option Pmm
free_region e pmm =
    if not (e.kind == mmap_free)
    then some pmm
    else if leb phys_mem_size (region_base e)
    then some pmm
    else free_run (sub64 (region_top e) (region_base e) / page_size) (region_base e / page_size) pmm

unfoldable pub free_regions : (ℕ → MmapEntry) → ℕ → ℕ → Pmm → Option Pmm
free_regions entries zero i pmm = some pmm
free_regions entries (suc n) i pmm = elim (free_region (entries i) pmm) [
  | none ↦ none
  | some p ↦ free_regions entries n (i + 1) p
]

unfoldable pub pmm_init : MemoryMap → Option Pmm
pmm_init mmap =
    elim (free_regions mmap.entries mmap.count 0
      (record { bitmap = λ i. 0xFF; total_pages = 0; free_pages = 0; used_pages = 0 })) [
        | none ↦ none
        | some p ↦ some (record p { used_pages = 0 })
      ]

-- `memset(p, value, n)` on a pointer into `phys_mem`.
unfoldable pub memset : Option ℕ → ℕ → ℕ → M (Unit {0})
memset none value n s = none
memset (some a) value n s =
    if ltb phys_mem_size (a + n)
    then none
    else some (
      tt,
      record s { phys_mem = λ b. if leb a b && ltb b (a + n) then u8 value else s.phys_mem b },
    )

-- The updates of the allocator when page `i` is taken.
unfoldable pub take_page : ℕ → Pmm → Pmm
take_page i p = record p {
  bitmap = bitmap_set p.bitmap i;
  free_pages = sub64 p.free_pages 1;
  used_pages = u64 (p.used_pages + 1);
}

-- The loop of `pmm_alloc` at page `i`, with `left` rounds to go.
unfoldable pub alloc_scan : ℕ → ℕ → M ℕ
alloc_scan zero i s = some (no_page, s)
alloc_scan (suc left) i s =
    let rest = alloc_scan left (i + 1) s in
    if bitmap_test s.pmm.bitmap i == 0
    then (memset (phys_to_virt (i * page_size)) 0 page_size >> pure (i * page_size))
        (record s { pmm = take_page i s.pmm })
    else rest

unfoldable pub pmm_alloc : M ℕ
pmm_alloc s = if s.pmm.free_pages == 0 then some (no_page, s) else alloc_scan pmm_max_pages 0 s

unfoldable pub take_run : ℕ → ℕ → Pmm → Pmm
take_run zero j p = p
take_run (suc n) j p = take_run n (j + 1) (take_page j p)

-- The loop of `pmm_alloc_n` at page `i`, with the length and the start of the current run.
unfoldable pub alloc_n_scan : ℕ → ℕ → ℕ → ℕ → ℕ → M ℕ
alloc_n_scan n zero i run start s = some (no_page, s)
alloc_n_scan n (suc left) i run start s =
    let start' = if run == 0 then i else start in
    let found =
      (memset (phys_to_virt (start' * page_size)) 0 (u64 (n * page_size))
          >> pure (start' * page_size))
        (record s { pmm = take_run n start' s.pmm }) in
    let longer = alloc_n_scan n left (i + 1) (run + 1) start' s in
    let reset = alloc_n_scan n left (i + 1) 0 start s in
    if bitmap_test s.pmm.bitmap i == 0 then if run + 1 == n then found else longer else reset

unfoldable pub pmm_alloc_n : ℕ → M ℕ
pmm_alloc_n n s =
    if (n == 0) || ltb s.pmm.free_pages n
    then some (no_page, s)
    else alloc_n_scan n pmm_max_pages 0 0 0 s

unfoldable pub pmm_free : ℕ → Pmm → Pmm
pmm_free addr p =
    if not (addr % page_size == 0)
    then p
    else if leb phys_mem_size addr
    then p
    else if bitmap_test p.bitmap (addr / page_size) == 0
    then p
    else record p {
      bitmap = bitmap_clear p.bitmap (addr / page_size);
      free_pages = u64 (p.free_pages + 1);
      used_pages = sub64 p.used_pages 1;
    }

-- The loop of `pmm_free_n` at round `i`, with `left` rounds to go.
unfoldable pub free_n_loop : ℕ → ℕ → ℕ → Pmm → Pmm
free_n_loop zero i addr p = p
free_n_loop (suc left) i addr p =
    free_n_loop left (i + 1) addr (pmm_free (u64 (addr + i * page_size)) p)

unfoldable pub pmm_free_n : ℕ → ℕ → Pmm → Pmm
pmm_free_n addr n p = free_n_loop n 0 addr p

unfoldable pub pmm_is_free : Pmm → ℕ → Bool
pmm_is_free p addr =
    if leb phys_mem_size addr then false else bitmap_test p.bitmap (addr / page_size) == 0
