-- ===== src/MemoryMap/Layout.antt =====
-- The regions that `mmap_parse` reports.
use os_kernel.Base.{
  ℕ, ◌+◌, ◌*◌, ◌%◌, ◌<◌, ◌≡◌, refl, ◌==◌, ==_iff, update, all_below, all_below_sound,
}
use os_kernel.Types.{page_size}
use os_kernel.MemoryMap.{MemoryMap, mmap_init, mmap_add_entry, mmap_parse}
use os_kernel.MemoryMap.Totals.{IsConsistent, mmap_init-IsConsistent, mmap_add_entry-IsConsistent}

abbrev pub region_end : MemoryMap → ℕ → ℕ
region_end m i = (m.entries i).base + (m.entries i).length

-- Whatever the map held before, `mmap_parse` leaves a consistent map.
pub mmap_parse-IsConsistent : (m : MemoryMap) → IsConsistent (mmap_parse m)
unfolding mmap_parse
mmap_parse-IsConsistent m = add _ _ _ (
    add _ _ _ (
      add _ _ _ (
        add _ _ _ (
          add _ _ _ (add _ _ _ (add _ _ _ (add _ _ _ (add _ _ _ (mmap_init-IsConsistent m).0))))))))
  where
    add :
        {k : MemoryMap} (base len kind : ℕ)
        → IsConsistent k
        → IsConsistent (mmap_add_entry k base len kind)
    add base len kind c = mmap_add_entry-IsConsistent base len kind c

-- Whatever the map held before, the nine regions that `mmap_parse` reports follow one another from
-- address 0 to 64 MB without a gap or an overlap, and each begins on a page boundary.
pub mmap_parse-tiles :
    (m : MemoryMap)
    → let p = mmap_parse m in
      (p.count ≡ 9)
      × ((p.entries 0).base ≡ 0)
      × (region_end p 8 ≡ 64 * 1024 * 1024)
      × ((i : ℕ) → i < 8 → (p.entries (i + 1)).base ≡ region_end p i)
      × ((i : ℕ) → i < 9 → (p.entries i).base % page_size ≡ 0)
unfolding mmap_parse mmap_init mmap_add_entry update all_below
mmap_parse-tiles m = (
  refl,
  refl,
  refl,
  λ i h. (==_iff _ _).0 (all_below_sound 8 (λ i. base (i + 1) == end i) i refl h),
  λ i h. (==_iff _ _).0 (all_below_sound 9 (λ i. base i % page_size == 0) i refl h),
)
  where
    base : ℕ → ℕ
    base i = ((mmap_parse m).entries i).base

    end : ℕ → ℕ
    end i = region_end (mmap_parse m) i
