-- ===== src/MemoryMap/Totals.antt =====
-- The regions of a map as a list, and its totals as sums over that list.
use mathlib.Core.Path.{ap₂}
use os_kernel.Base.{
  ℕ, zero, suc, ◌+◌, ◌≤◌, ◌%◌, ◌^◌, ◌≡◌, refl, List, [], ◌∷◌, ◌++◌, arith, ◌==◌, ltb, if◌then◌else◌,
  update, update_self, update_ne, ap, ◌∙◌, inl, inr, Bool-cases, ltb→lt, ltb→le, lt→leb, le→leb,
}
use os_kernel.MemoryMap.{
  MmapEntry, MemoryMap, mmap_free, mmap_max_entries, mmap_init, mmap_add_entry,
}

-- the entries from index `i` on, `n` of them
unfoldable pub entries_from : (ℕ → MmapEntry) → ℕ → ℕ → List MmapEntry
entries_from entries i zero = []
entries_from entries i (suc n) = entries i ∷ entries_from entries (i + 1) n

abbrev pub regions : MemoryMap → List MmapEntry
regions m = entries_from m.entries 0 m.count

unfoldable pub free_bytes : List MmapEntry → ℕ
free_bytes [] = 0
free_bytes (e ∷ es) = (if e.kind == mmap_free then e.length else 0) + free_bytes es

pub record IsConsistent (m : MemoryMap) : Type 0 where
  pub bounded : m.count ≤ mmap_max_entries
  pub free_total : m.total_free ≡ free_bytes (regions m) % 2 ^ 64
  pub usable_total : m.total_usable ≡ m.total_free

entries_from-update :
    (f : ℕ → MmapEntry) (e : MmapEntry) (i n j : ℕ)
    → j ≡ i + n
    → entries_from (update f j e) i (suc n) ≡ entries_from f i n ++ (e ∷ [])
unfolding entries_from
entries_from-update f e i zero j h =
    let at_end : i ≡ j = omega arith in rw (at_end, update_self f j e) refl
entries_from-update f e i (suc n) j h =
    ap₂ ◌∷◌ (update_ne f j e i (omega arith)) (entries_from-update f e (i + 1) n j (omega arith))

free_bytes-append : (xs ys : List MmapEntry) → free_bytes (xs ++ ys) ≡ free_bytes xs + free_bytes ys
unfolding free_bytes
free_bytes-append [] ys = omega arith
free_bytes-append (x ∷ xs) ys = omega (arith, free_bytes-append xs ys)

-- `mmap_add_entry` appends the region while there is room, and otherwise changes nothing.
regions-mmap_add_entry :
    (m : MemoryMap) (base len kind : ℕ)
    → m.count ≤ mmap_max_entries
    → regions (mmap_add_entry m base len kind) ≡ (
        if ltb m.count mmap_max_entries
        then regions m ++ (record { base = base; length = len; kind = kind } ∷ [])
        else regions m)
unfolding mmap_add_entry
regions-mmap_add_entry m base len kind h = elim (Bool-cases (ltb m.count mmap_max_entries)) [
  | inl room ↦
      rw (room, lt→leb 64 m.count (ltb→lt _ _ room))
        (ap (entries_from _ 0) next
          ∙ entries_from-update m.entries (record { base = base; length = len; kind = kind }) 0
              m.count m.count (omega arith))
  | inr full ↦ rw (full, le→leb 64 m.count (ltb→le _ _ full)) refl
]
  where
    next : (m.count + 1) % 2 ^ 32 ≡ suc m.count
    next = omega arith

-- Whatever the map held, `mmap_init` leaves a consistent map with no region.
pub mmap_init-IsConsistent :
    (m : MemoryMap) → IsConsistent (mmap_init m) × (regions (mmap_init m) ≡ [])
unfolding mmap_init entries_from free_bytes
mmap_init-IsConsistent m =
    (record { bounded = omega arith; free_total = refl; usable_total = refl }, refl)

-- `mmap_add_entry` keeps the count within the array and both totals equal to the sum of the lengths
-- of the free regions, modulo 2 ^ 64.
pub mmap_add_entry-IsConsistent :
    {m : MemoryMap} (base len kind : ℕ)
    → IsConsistent m
    → IsConsistent (mmap_add_entry m base len kind)
mmap_add_entry-IsConsistent {m} base len kind c = record {
  bounded = unfold mmap_add_entry in ground arith;
  free_total = rw (regions-mmap_add_entry m base len kind c.bounded) (
      unfold mmap_add_entry free_bytes in
      ground (
        arith,
        free_bytes-append (regions m) (record { base = base; length = len; kind = kind } ∷ []),
      ));
  usable_total = unfold mmap_add_entry in ground arith;
}
