-- ===== src/MemoryMap/Examples.antt =====
-- The theorems on memory maps at concrete maps.
use os_kernel.Base.{ℕ, ◌+◌, ◌*◌, ◌%◌, ◌<◌, ◌≡◌, refl, []}
use os_kernel.Types.{page_size}
use os_kernel.MemoryMap.{MemoryMap, mmap_init, mmap_add_entry, mmap_parse, mmap_type_str}
use os_kernel.MemoryMap.Totals.{IsConsistent, regions, mmap_init-IsConsistent}
use os_kernel.MemoryMap.Layout.{region_end, mmap_parse-tiles}

-- a map with garbage in it
abbrev dirty : MemoryMap
dirty = record {
  entries = λ i. record { base = i; length = 7; kind = 9 };
  count = 3;
  total_free = 5;
  total_usable = 1;
}

total_free-mmap_parse : (mmap_parse dirty).total_free ≡ 0xA0000 + 0xE00000 + 0x1800000 + 0x1300000
unfolding mmap_parse mmap_init mmap_add_entry
total_free-mmap_parse = refl

mmap_type_str-acpi : mmap_type_str 3 ≡ "ACPI Reclaimable"
unfolding mmap_type_str
mmap_type_str-acpi = refl

mmap_init-IsConsistent_example : IsConsistent (mmap_init dirty) × (regions (mmap_init dirty) ≡ [])
mmap_init-IsConsistent_example = mmap_init-IsConsistent dirty

mmap_parse-tiles_example :
    let p = mmap_parse dirty in
    (p.count ≡ 9)
    × ((p.entries 0).base ≡ 0)
    × (region_end p 8 ≡ 64 * 1024 * 1024)
    × ((i : ℕ) → i < 8 → (p.entries (i + 1)).base ≡ region_end p i)
    × ((i : ℕ) → i < 9 → (p.entries i).base % page_size ≡ 0)
mmap_parse-tiles_example = mmap_parse-tiles dirty
