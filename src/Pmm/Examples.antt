-- ===== src/Pmm/Examples.antt =====
-- The allocator's theorems at small concrete states, and tests of the operations.
use os_kernel.Base.{
  leb, ltb, ◌&&◌, ◌+◌, ◌≤◌, ℕ, ◌*◌, ◌<◌, ◌≡◌, ◌≢◌, ◌⊎◌, refl, arith, ◌==◌, if◌then◌else◌, some,
  true, update,
}
use os_kernel.Types.{page_size}
use os_kernel.Pmm.{
  Pmm, State, pmm_max_pages, no_page, memset, phys_to_virt, bitmap_test, alloc_scan, pmm_alloc,
  pmm_free_n, pmm_init, pmm_alloc_n, alloc_n_scan,
}
use os_kernel.Pmm.Count.{IsValid, free_count}
use os_kernel.Pmm.Alloc.{IsFull, taken, zeroed, pmm_alloc_lem}
use os_kernel.Pmm.AllocN.{IsRun, taken_run, pmm_alloc_n_lem}
use os_kernel.Pmm.Usable.{usable, well_placed}
use os_kernel.Pmm.Init.{pmm_init_lem}
use os_kernel.MemoryMap.{MemoryMap, mmap_parse, mmap_init, mmap_add_entry}
use os_kernel.MemoryMap.Totals.{regions, entries_from}
use os_kernel.Pmm.Free.{IsFreeable, IsSame, pmm_free_n-IsValid}
use os_kernel.Pmm.FreeN.{pmm_free_n-pmm_alloc_n}

-- pages 1 to 7 are free, page 0 has been allocated, and the others are reserved
abbrev few_free : Pmm
few_free = record {
  bitmap = λ i. if i == 0 then 0x01 else 0xFF;
  total_pages = 8;
  free_pages = 7;
  used_pages = 1;
}

abbrev machine : State
machine = record { pmm = few_free; phys_mem = λ b. 0xAA }

few_free-IsValid : IsValid few_free
unfolding free_count bitmap_test
few_free-IsValid = record { counted = refl; conserved = refl; used_small = omega arith }

pmm_alloc_lem_example :
    (IsFull machine × (pmm_alloc machine ≡ some (no_page, machine)))
    ⊎ ((k : ℕ) × (k < pmm_max_pages)
        × (bitmap_test few_free.bitmap k ≡ 0)
        × ((j : ℕ) → j < k → bitmap_test few_free.bitmap j ≢ 0)
        × (pmm_alloc machine ≡ some (k * page_size, taken k machine))
        × IsValid (taken k machine).pmm)
pmm_alloc_lem_example = pmm_alloc_lem machine few_free-IsValid

-- the first free page is page 1
pmm_alloc-machine : pmm_alloc machine ≡ some (page_size, taken 1 machine)
unfolding pmm_alloc alloc_scan bitmap_test memset phys_to_virt zeroed
pmm_alloc-machine = refl

pmm_free_n-IsValid_example : IsValid (pmm_free_n 0 3 few_free)
pmm_free_n-IsValid_example = pmm_free_n-IsValid 0 3 few_free-IsValid

-- page 160 (the VGA window) is reserved
abbrev all_reserved : Pmm
all_reserved = record { bitmap = λ i. 0xFF; total_pages = 0; free_pages = 0; used_pages = 0 }

vga-IsFreeable : IsFreeable 0xA0000 all_reserved
unfolding bitmap_test
vga-IsFreeable = (refl, omega arith, omega arith)

-- the map that `mmap_parse` reports
abbrev no_regions : MemoryMap
no_regions = record {
  entries = λ i. record { base = 0; length = 0; kind = 0 };
  count = 0;
  total_free = 0;
  total_usable = 0;
}

parsed-well_placed : well_placed (regions (mmap_parse no_regions)) ≡ true
unfolding well_placed entries_from mmap_parse mmap_init mmap_add_entry update
parsed-well_placed = refl

pmm_init_lem_example :
    (p : Pmm) × (pmm_init (mmap_parse no_regions) ≡ some p)
    × IsValid p
    × ((j : ℕ)
        → j < pmm_max_pages
        → bitmap_test p.bitmap j ≡ (if usable (regions (mmap_parse no_regions)) j then 0 else 1))
    × (p.used_pages ≡ 0)
    × (p.total_pages ≡ p.free_pages)
pmm_init_lem_example = pmm_init_lem (mmap_parse no_regions) parsed-well_placed

pmm_alloc_n_lem_example :
    ((◌≡◌ {A = ℕ} 3 0) ⊎ ((k : ℕ) → k + 3 ≤ pmm_max_pages → ¬ IsRun few_free.bitmap k 3))
      × (pmm_alloc_n 3 machine ≡ some (no_page, machine))
    ⊎ ((k : ℕ) × (k + 3 ≤ pmm_max_pages)
        × IsRun few_free.bitmap k 3
        × ((k' : ℕ) → k' < k → ¬ IsRun few_free.bitmap k' 3)
        × (pmm_alloc_n 3 machine ≡ some (k * page_size, taken_run 3 k machine))
        × IsValid (taken_run 3 k machine).pmm
        × ((j : ℕ)
            → bitmap_test (taken_run 3 k machine).pmm.bitmap j
              ≡ (if leb k j && ltb j (k + 3) then 1 else bitmap_test few_free.bitmap j)))
pmm_alloc_n_lem_example = pmm_alloc_n_lem 3 machine few_free-IsValid

-- the first run of three is pages 1 to 3
pmm_alloc_n-machine : pmm_alloc_n 3 machine ≡ some (page_size, taken_run 3 1 machine)
unfolding pmm_alloc_n alloc_n_scan bitmap_test memset phys_to_virt zeroed
pmm_alloc_n-machine = refl

pmm_free_n-pmm_alloc_n_example :
    IsSame (pmm_free_n page_size 3 (taken_run 3 1 machine).pmm) few_free
pmm_free_n-pmm_alloc_n_example =
    pmm_free_n-pmm_alloc_n 3 page_size machine (taken_run 3 1 machine) few_free-IsValid
      pmm_alloc_n-machine (omega arith)
