-- ===== src/Vmm/Examples.antt =====
-- The address space manager's theorems at a small concrete state.
use os_kernel.Base.{
  ℕ, ◌/◌, ◌+◌, ◌-◌, ◌*◌, ◌%◌, ◌≤◌, ◌<◌, true, ◌≡◌, ◌≢◌, ◌⊎◌, inl, inr, refl, arith, ◌==◌,
  if◌then◌else◌, some, none, Bool-cases, ==_iff, false, sym, ap, ◌∙◌,
}
use os_kernel.Types.{page_size}
use os_kernel.Vmm.Frame.{SameSpace, vmm_translate-frame}
use os_kernel.Pmm.{State, no_page, pmm_max_pages, bitmap_test, pmm_alloc, pmm_free}
use os_kernel.Pmm.Count.{IsValid, free_count}
use os_kernel.Pmm.Alloc.{IsFull, taken}
use os_kernel.Vmm.{
  Vmm, Status, success, failure, is_present, load64, vmm_init, vmm_map, vmm_translate, vmm_unmap,
  vmm_is_mapped, if_null, walk_table, load_entry, translate_entry, vmm_map_range, vmm_unmap_range,
}
use os_kernel.Vmm.Tree.{Role, IsTree, entry}
use os_kernel.Vmm.Leaf.{is_present-zero, leaf-blank}
use os_kernel.Vmm.Count.{mapped_pages-zero}
use os_kernel.Vmm.Init.{vmm_init_lem}
use os_kernel.Vmm.Translate.{IsManager}
use os_kernel.Vmm.Flags.{page_flags}
use os_kernel.Vmm.Pages.{page_number}
use os_kernel.Vmm.Map.{vmm_map_lem}
use os_kernel.Vmm.Cleared.{uncounted}
use os_kernel.Vmm.Unmap.{vmm_unmap_lem}
use os_kernel.Vmm.RoundTrip.{Undone, vmm_unmap-vmm_map}
use os_kernel.Vmm.MapRange.{vmm_map_range_lem}
use os_kernel.Vmm.UnmapRange.{vmm_unmap_range_lem}

-- page 0 holds an empty PML4, pages 1 to 7 are free, and the others are reserved
abbrev machine : State
machine = record {
  pmm = record {
    bitmap = λ i. if i == 0 then 0x01 else 0xFF;
    total_pages = 8;
    free_pages = 7;
    used_pages = 1;
  };
  phys_mem = λ b. 0;
}

abbrev manager : Vmm
manager = record { pml4 = some 0; pml4_phys = 0; mapped = 0 }

abbrev only_root : Role
only_root p = if p == 0 then some (4, 0) else none

machine-IsValid : IsValid machine.pmm
unfolding free_count bitmap_test
machine-IsValid = record { counted = refl; conserved = refl; used_small = omega arith }

root_page : (p : ℕ) (r : ℕ × ℕ) → only_root p ≡ some r → p ≡ 0
root_page p r e = elim (Bool-cases (p == 0)) [
  | inl is ↦ (==_iff p 0).0 is
  | inr no_role ↦ cc (ap (λ b. if b then some (4, 0) else none) (sym no_role) ∙ e)
]

zero_entry : (p i : ℕ) → is_present (entry machine p i) ≡ false
unfolding load64
zero_entry p i = refl

entry_zero : (p i : ℕ) → entry machine p i ≡ 0
unfolding load64
entry_zero p i = refl

machine-IsTree : IsTree only_root 0 machine
unfolding bitmap_test
machine-IsTree = record {
  valid = machine-IsValid;
  top = refl;
  used = λ p k pre e. let at : p ≡ 0 = root_page p (k, pre) e in rw at (omega arith, omega arith);
  child = λ p k pre i e h there. cc (zero_entry p i);
}

manager-IsManager : IsManager manager machine
manager-IsManager = record {
  role = only_root;
  root = 0;
  tree = machine-IsTree;
  pml4_at = refl;
  counted = sym (
      mapped_pages-zero machine 0
        (λ va. is_present-zero _ (leaf-blank machine 0 (λ i h. entry_zero 0 i) 3 va)));
}

-- virtual page 0x400000 to the frame at 0x200000, writable
vmm_map_lem_example :
    (st : Status) × (vmm' : Vmm) × (t : State) × (vmm_map manager 0x400123 0x200000 3 machine
      ≡ some ((st, vmm'), t))
    × IsManager vmm' t
    × (st ≡ failure → IsFull t)
    × ((va b : ℕ)
        → (st ≡ failure) ⊎ (page_number va ≢ page_number 0x400123)
        → vmm_translate manager va machine ≡ some (b, machine)
        → vmm_translate vmm' va t ≡ some (b, t))
    × (st ≡ success
        → (va : ℕ) → page_number va ≡ page_number 0x400123
        → (vmm_translate vmm' va t ≡ some (0x200000 + va % 4096, t))
          × (page_flags vmm' va t ≡ some (3, t)))
    × ((va b : ℕ)
        → (st ≡ failure) ⊎ (page_number va ≢ page_number 0x400123)
        → page_flags manager va machine ≡ some (b, machine)
        → page_flags vmm' va t ≡ some (b, t))
vmm_map_lem_example =
    vmm_map_lem 0x400123 0x200000 3 manager-IsManager (omega arith) (omega arith) refl

vmm_init_lem_example :
    (IsFull machine
      × (vmm_init machine
          ≡ some (record { pml4 = none; pml4_phys = no_page; mapped = 0 }, machine)))
    ⊎ ((k : ℕ) × (k < pmm_max_pages)
        × (bitmap_test machine.pmm.bitmap k ≡ 0)
        × ((j : ℕ) → j < k → bitmap_test machine.pmm.bitmap j ≢ 0)
        × (vmm : Vmm) × (vmm_init machine ≡ some (vmm, taken k machine))
        × (vmm ≡ record { pml4 = some (k * page_size); pml4_phys = k * page_size; mapped = 0 })
        × IsManager vmm (taken k machine)
        × ((va : ℕ) → vmm_translate vmm va (taken k machine) ≡ some (no_page, taken k machine)))
vmm_init_lem_example = vmm_init_lem machine machine-IsValid

vmm_unmap_lem_example :
    (st : Status) × (vmm' : Vmm) × (t : State) × (vmm_unmap manager 0x400123 machine
      ≡ some ((st, vmm'), t))
    × IsManager vmm' t
    × (t.pmm ≡ machine.pmm)
    × (((st ≡ failure)
          × (vmm_is_mapped manager 0x400123 machine ≡ some (false, machine))
          × (vmm' ≡ manager)
          × (t ≡ machine))
        ⊎ ((st ≡ success)
            × (vmm_is_mapped manager 0x400123 machine ≡ some (true, machine))
            × (vmm' ≡ uncounted manager)))
    × ((va : ℕ)
        → page_number va ≡ page_number 0x400123
        → vmm_translate vmm' va t ≡ some (no_page, t))
    × ((va b : ℕ)
        → page_number va ≢ page_number 0x400123
        → vmm_translate manager va machine ≡ some (b, machine)
        → vmm_translate vmm' va t ≡ some (b, t))
vmm_unmap_lem_example = vmm_unmap_lem 0x400123 manager-IsManager

-- three pages from 0x400000 on to the frames from 0x200000 on
vmm_map_range_lem_example :
    (st : Status) × (vmm' : Vmm) × (t : State) × (k : ℕ) × (vmm_map_range manager 0x400000 0x200000
        3 3 machine
      ≡ some ((st, vmm'), t))
    × IsManager vmm' t
    × (((st ≡ success) × (k ≡ 3)) ⊎ ((st ≡ failure) × (k < 3) × IsFull t))
    × ((va : ℕ)
        → page_number 0x400000 ≤ page_number va
        → page_number va < page_number 0x400000 + k
        → vmm_translate vmm' va t
          ≡ some (0x200000 + (page_number va - page_number 0x400000) * 4096 + va % 4096, t))
    × ((va b : ℕ)
        → (page_number va < page_number 0x400000) ⊎ (page_number 0x400000 + k ≤ page_number va)
        → vmm_translate manager va machine ≡ some (b, machine)
        → vmm_translate vmm' va t ≡ some (b, t))
vmm_map_range_lem_example =
    vmm_map_range_lem 0x400000 0x200000 3 3 manager-IsManager (omega arith) (omega arith)
      (omega arith) refl

vmm_unmap_range_lem_example :
    (vmm' : Vmm) × (t : State) × (vmm_unmap_range manager 0x400000 3 machine
      ≡ some ((success, vmm'), t))
    × IsManager vmm' t
    × (t.pmm ≡ machine.pmm)
    × ((va : ℕ)
        → page_number 0x400000 ≤ page_number va
        → page_number va < page_number 0x400000 + 3
        → vmm_translate vmm' va t ≡ some (no_page, t))
    × ((va b : ℕ)
        → (page_number va < page_number 0x400000) ⊎ (page_number 0x400000 + 3 ≤ page_number va)
        → vmm_translate manager va machine ≡ some (b, machine)
        → vmm_translate vmm' va t ≡ some (b, t))
vmm_unmap_range_lem_example = vmm_unmap_range_lem 0x400000 3 manager-IsManager (omega arith)

vmm_translate-frame_example :
    ((addr : ℕ) (t : State)
      → pmm_alloc machine ≡ some (addr, t)
      → SameSpace manager machine t × ((addr ≡ no_page) ⊎ (only_root (addr / page_size) ≡ none)))
    × ((addr : ℕ)
        → only_root (addr / page_size) ≡ none
        → SameSpace manager machine (record machine { pmm = pmm_free addr machine.pmm }))
unfolding manager-IsManager
vmm_translate-frame_example = vmm_translate-frame manager-IsManager

not_mapped : vmm_is_mapped manager 0x400123 machine ≡ some (false, machine)
unfolding vmm_is_mapped vmm_translate if_null walk_table load_entry load64 translate_entry
not_mapped = refl

vmm_unmap-vmm_map_example :
    (st : Status) × (vmm' : Vmm) × (t : State) × (vmm_map manager 0x400123 0x200000 3 machine
      ≡ some ((st, vmm'), t))
    × (((st ≡ failure) × IsFull t) ⊎ ((st ≡ success) × Undone manager machine 0x400123 vmm' t))
vmm_unmap-vmm_map_example =
    vmm_unmap-vmm_map 0x400123 0x200000 3 manager-IsManager (omega arith) (omega arith) refl
      not_mapped
