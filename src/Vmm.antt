-- ===== src/Vmm.antt =====
-- vmm/vmm.h and vmm.c: four-level page tables in the pages that the physical allocator hands out.
-- A `pte_t *` is the offset of a table in `phys_mem`, and `none` is NULL; the table entries are
-- 64-bit little-endian words of that buffer. The commands are those of `Pmm`, so a read or a write
-- through NULL or outside the buffer is `none`.
pub mod Word
pub mod Entry
pub mod Tree
pub mod Leaf
pub mod Access
pub mod Written
pub mod Count
pub mod Created
pub mod Grow
pub mod Translate
pub mod Print
pub mod Flags
pub mod Mapped
pub mod Levels
pub mod Pages
pub mod Map
pub mod Cleared
pub mod Unmap
pub mod MapRange
pub mod UnmapRange
pub mod RoundTrip
pub mod Printed
pub mod Frame
pub mod Init
mod Examples
use os_kernel.Base.{
  ℕ, zero, suc, ◌+◌, ◌-◌, ◌*◌, ◌/◌, ◌%◌, ◌^◌, bit_and, bit_or, Bool, true, false, not, ◌&&◌, Option,
  none, some, ◌==◌, ltb, leb, u64, sub64, if◌then◌else◌,
}
use os_kernel.Types.{page_size, align_down}
use os_kernel.Pmm.{State, M, pure, ◌>>=◌, ◌>>◌, no_page, phys_mem_size, phys_to_virt, pmm_alloc}

abbrev pub entry_mask : ℕ
entry_mask = 0x1FF

abbrev pub pml4_index : ℕ → ℕ
pml4_index va = bit_and (va / 2 ^ 39) entry_mask

abbrev pub pdpt_index : ℕ → ℕ
pdpt_index va = bit_and (va / 2 ^ 30) entry_mask

abbrev pub pd_index : ℕ → ℕ
pd_index va = bit_and (va / 2 ^ 21) entry_mask

abbrev pub pt_index : ℕ → ℕ
pt_index va = bit_and (va / 2 ^ 12) entry_mask

abbrev pub page_offset : ℕ → ℕ
page_offset va = bit_and va (page_size - 1)

abbrev pub pte_present : ℕ
pte_present = 2 ^ 0

abbrev pub pte_writable : ℕ
pte_writable = 2 ^ 1

abbrev pub pte_user : ℕ
pte_user = 2 ^ 2

abbrev pub pte_addr_mask : ℕ
pte_addr_mask = 0x000F_FFFF_FFFF_F000

-- the flags of the entries that link one table to the next
abbrev pub table_flags : ℕ
table_flags = bit_or (bit_or pte_present pte_writable) pte_user

-- `vmm_t`; the allocator behind its `pmm` pointer is part of the state.
pub record Vmm : Type 0 where
  pub pml4 : Option ℕ
  pub pml4_phys : ℕ
  pub mapped : ℕ

-- the results 0 and -1
pub data Status : Type 0 where
  success failure : Status

abbrev pub byte_of : ℕ → ℕ → ℕ
byte_of v i = v / 2 ^ (8 * i) % 2 ^ 8

unfoldable pub load64 : (ℕ → ℕ) → ℕ → ℕ
load64 mem a =
    mem a
    + 2 ^ 8 * mem (a + 1)
    + 2 ^ 16 * mem (a + 2)
    + 2 ^ 24 * mem (a + 3)
    + 2 ^ 32 * mem (a + 4)
    + 2 ^ 40 * mem (a + 5)
    + 2 ^ 48 * mem (a + 6)
    + 2 ^ 56 * mem (a + 7)

unfoldable pub store64 : (ℕ → ℕ) → ℕ → ℕ → ℕ → ℕ
store64 mem a v b = if leb a b && ltb b (a + 8) then byte_of v (b - a) else mem b

-- `table[index]`, and `table[index] = v`
unfoldable pub load_entry : Option ℕ → ℕ → M ℕ
load_entry none index s = none
load_entry (some t) index s =
    if ltb phys_mem_size (t + 8 * index + 8)
    then none
    else some (load64 s.phys_mem (t + 8 * index), s)

unfoldable pub store_entry : Option ℕ → ℕ → ℕ → M (Unit {0})
store_entry none index v s = none
store_entry (some t) index v s =
    if ltb phys_mem_size (t + 8 * index + 8)
    then none
    else some (tt, record s { phys_mem = store64 s.phys_mem (t + 8 * index) v })

abbrev pub is_present : ℕ → Bool
is_present e = not (bit_and e pte_present == 0)

-- `phys_to_virt(table[index] & PTE_ADDR_MASK)`
unfoldable pub entry_table : Option ℕ → ℕ → M (Option ℕ)
entry_table table index = do
  e ← load_entry table index
  pure (phys_to_virt (bit_and e pte_addr_mask))

unfoldable pub create_table : Option ℕ → ℕ → ℕ → M (Option ℕ)
create_table table index flags = do
  page ← pmm_alloc
  if page == no_page then pure none else do
    store_entry table index (bit_or (bit_or (bit_and page pte_addr_mask) flags) pte_present)
    entry_table table index

unfoldable pub get_or_create_table : Option ℕ → ℕ → ℕ → M (Option ℕ)
get_or_create_table table index flags = do
  e ← load_entry table index
  if is_present e then entry_table table index else create_table table index flags

-- `walk_table` from the page directory on, from the page directory pointer table on, and as a whole.
-- The out parameters, which every caller leaves NULL, are left out.
unfoldable pub walk_pd : Option ℕ → ℕ → M (Option ℕ)
walk_pd pd virt = do
  e ← load_entry pd (pd_index virt)
  if is_present e then pure (phys_to_virt (bit_and e pte_addr_mask)) else pure none

unfoldable pub walk_pdpt : Option ℕ → ℕ → M (Option ℕ)
walk_pdpt pdpt virt = do
  e ← load_entry pdpt (pdpt_index virt)
  if is_present e then walk_pd (phys_to_virt (bit_and e pte_addr_mask)) virt else pure none

unfoldable pub walk_table : Vmm → ℕ → M (Option ℕ)
walk_table vmm virt = do
  e ← load_entry vmm.pml4 (pml4_index virt)
  if is_present e then walk_pdpt (phys_to_virt (bit_and e pte_addr_mask)) virt else pure none

unfoldable pub vmm_init : M Vmm
vmm_init = do
  page ← pmm_alloc
  pure (
      if page == no_page
      then record { pml4 = none; pml4_phys = page; mapped = 0 }
      else record { pml4 = phys_to_virt page; pml4_phys = page; mapped = 0 })

-- The part of `vmm_map` behind the walk: writes the entry of the page and counts a new mapping.
unfoldable pub map_entry : Vmm → Option ℕ → ℕ → ℕ → ℕ → M (Status × Vmm)
map_entry vmm pt index phys flags = do
  e ← load_entry pt index
  store_entry pt index (bit_or (bit_or (bit_and phys pte_addr_mask) flags) pte_present)
  pure (success, (if is_present e then vmm else record vmm { mapped = u64 (vmm.mapped + 1) }))

-- The three calls of `get_or_create_table`, each followed by its test for NULL.
unfoldable pub map_pd : Vmm → Option ℕ → ℕ → ℕ → ℕ → M (Status × Vmm)
map_pd vmm pd virt phys flags = do
  pt ← get_or_create_table pd (pd_index virt) table_flags
  elim pt [
    | none ↦ pure (failure, vmm)
    | some t ↦ map_entry vmm (some t) (pt_index virt) phys flags
  ]

unfoldable pub map_pdpt : Vmm → Option ℕ → ℕ → ℕ → ℕ → M (Status × Vmm)
map_pdpt vmm pdpt virt phys flags = do
  pd ← get_or_create_table pdpt (pdpt_index virt) table_flags
  elim pd [ none ↦ pure (failure, vmm) | some t ↦ map_pd vmm (some t) virt phys flags ]

unfoldable pub map_pml4 : Vmm → Option ℕ → ℕ → ℕ → ℕ → M (Status × Vmm)
map_pml4 vmm pml4 virt phys flags = do
  pdpt ← get_or_create_table pml4 (pml4_index virt) table_flags
  elim pdpt [ none ↦ pure (failure, vmm) | some t ↦ map_pdpt vmm (some t) virt phys flags ]

-- `if (!ptr) return …` before the rest.
unfoldable pub if_null : {A : Type 0} → Option ℕ → M A → M A → M A
if_null none stop rest = stop
if_null (some _) stop rest = rest

unfoldable pub vmm_map : Vmm → ℕ → ℕ → ℕ → M (Status × Vmm)
vmm_map vmm virt phys flags =
    if_null vmm.pml4 (pure (failure, vmm))
      (map_pml4 vmm vmm.pml4 (align_down virt page_size) (align_down phys page_size) flags)

-- The loop of `vmm_map_range` at round `i`, with `left` rounds to go.
unfoldable pub map_range_loop : ℕ → ℕ → Vmm → ℕ → ℕ → ℕ → M (Status × Vmm)
map_range_loop zero i vmm virt phys flags = pure (success, vmm)
map_range_loop (suc left) i vmm virt phys flags = do
  (st, vmm') ← vmm_map vmm (u64 (virt + i * page_size)) (u64 (phys + i * page_size)) flags
  elim st [
    | success ↦ map_range_loop left (i + 1) vmm' virt phys flags
    | failure ↦ pure (failure, vmm')
  ]

unfoldable pub vmm_map_range : Vmm → ℕ → ℕ → ℕ → ℕ → M (Status × Vmm)
vmm_map_range vmm virt phys pages flags = map_range_loop pages 0 vmm virt phys flags

-- The part of `vmm_unmap` behind the walk, and the writes at its end.
unfoldable pub clear_entry : Vmm → ℕ → ℕ → M (Status × Vmm)
clear_entry vmm t index = do
  store_entry (some t) index 0
  pure (success, record vmm { mapped = sub64 vmm.mapped 1 })

unfoldable pub unmap_entry : Vmm → Option ℕ → ℕ → M (Status × Vmm)
unmap_entry vmm none index = pure (failure, vmm)
unmap_entry vmm (some t) index = do
  e ← load_entry (some t) index
  if is_present e then clear_entry vmm t index else pure (failure, vmm)

unfoldable pub vmm_unmap : Vmm → ℕ → M (Status × Vmm)
vmm_unmap vmm virt =
    let v = align_down virt page_size in
    if_null vmm.pml4 (pure (failure, vmm))
      (walk_table vmm v >>= λ pt. unmap_entry vmm pt (pt_index v))

-- The loop of `vmm_unmap_range`, which drops the results.
unfoldable pub unmap_range_loop : ℕ → ℕ → Vmm → ℕ → M (Status × Vmm)
unmap_range_loop zero i vmm virt = pure (success, vmm)
unmap_range_loop (suc left) i vmm virt = do
  (_, vmm') ← vmm_unmap vmm (u64 (virt + i * page_size))
  unmap_range_loop left (i + 1) vmm' virt

unfoldable pub vmm_unmap_range : Vmm → ℕ → ℕ → M (Status × Vmm)
vmm_unmap_range vmm virt pages = unmap_range_loop pages 0 vmm virt

-- The part of `vmm_translate` behind the walk.
unfoldable pub translate_entry : Option ℕ → ℕ → ℕ → M ℕ
translate_entry none index offset = pure no_page
translate_entry (some t) index offset = do
  e ← load_entry (some t) index
  if is_present e then pure (bit_or (bit_and e pte_addr_mask) offset) else pure no_page

unfoldable pub vmm_translate : Vmm → ℕ → M ℕ
vmm_translate vmm virt =
    if_null vmm.pml4 (pure no_page)
      (walk_table vmm virt >>= λ pt. translate_entry pt (pt_index virt) (page_offset virt))

unfoldable pub vmm_is_mapped : Vmm → ℕ → M Bool
vmm_is_mapped vmm virt = do phys ← vmm_translate vmm virt; pure (not (phys == no_page))
