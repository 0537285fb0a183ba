-- ===== src/Vmm/Print.antt =====
-- `vmm_print_mapping`, `vmm_print_stats` and `vmm_dump_pml4` of vmm/vmm.c, for any `printf`.
use os_kernel.Base.{
  ℕ, zero, suc, ◌+◌, ◌-◌, ◌^◌, bit_and, Option, none, some, ◌==◌, [], ◌∷◌, if◌then◌else◌,
}
use os_kernel.Pmm.{M, pure, ◌>>=◌, no_page}
use os_kernel.Stdio.{Value, word, Printer}
use os_kernel.Vmm.{
  Vmm, pte_present, pte_writable, pte_user, pte_addr_mask, is_present, pt_index, load_entry,
  walk_table, vmm_translate,
}

abbrev pub pte_nx : ℕ
pte_nx = 2 ^ 63

-- `entry & ~PTE_ADDR_MASK`
abbrev pub entry_flags : ℕ → ℕ
entry_flags e = bit_and e (2 ^ 64 - 1 - pte_addr_mask)

-- `(flags & flag) ? there : absent`
abbrev pub flag_char : ℕ → ℕ → ℕ → ℕ → Value
flag_char flags flag there absent = word (if bit_and flags flag == 0 then absent else there)

unfoldable pub leaf_flags : Option ℕ → ℕ → M ℕ
leaf_flags none index = pure 0
leaf_flags (some t) index = do e ← load_entry (some t) index; pure (entry_flags e)

module _ {O : Type 0} (printf : Printer O) where
  unfoldable pub print_unmapped : ℕ → O → O
  print_unmapped virt = printf "  virt=0x%016lx  →  [ NOT MAPPED ]\n" (word virt ∷ [])

  unfoldable pub print_mapped : ℕ → ℕ → ℕ → O → O
  print_mapped virt phys flags = printf "  virt=0x%016lx  →  phys=0x%016lx  [%c%c%c%c]\n" (
      word virt
      ∷ word phys
      ∷ flag_char flags pte_present b'P' b'-'
      ∷ flag_char flags pte_writable b'W' b'R'
      ∷ flag_char flags pte_user b'U' b'K'
      ∷ flag_char flags pte_nx b'X' b'-'
      ∷ [])

  unfoldable pub vmm_print_mapping : Vmm → ℕ → O → M O
  vmm_print_mapping vmm virt out = do
    phys ← vmm_translate vmm virt
    if phys == no_page then pure (print_unmapped virt out) else do
      pt ← walk_table vmm virt
      flags ← leaf_flags pt (pt_index virt)
      pure (print_mapped virt phys flags out)

  unfoldable pub vmm_print_stats : Vmm → O → O
  vmm_print_stats vmm out =
      let o1 = printf "\n┌─────────────────────────────────┐\n" [] out in
      let o2 = printf "│         VMM Statistics          │\n" [] o1 in
      let o3 = printf "├─────────────────────────────────┤\n" [] o2 in
      let o4 = printf "│ PML4 phys : 0x%-18lx │\n" (word vmm.pml4_phys ∷ []) o3 in
      let o5 = printf "│ Pages mapped : %-18llu │\n" (word vmm.mapped ∷ []) o4 in
      printf "└─────────────────────────────────┘\n\n" [] o5

  unfoldable pub dump_entry : ℕ → ℕ → O → O
  dump_entry i e = printf "  PML4[%3d] = 0x%016llx  phys=0x%012llx  [%c%c%c]\n" (
      word i
      ∷ word e
      ∷ word (bit_and e pte_addr_mask)
      ∷ flag_char e pte_writable b'W' b'R'
      ∷ flag_char e pte_user b'U' b'K'
      ∷ flag_char e pte_nx b'X' b'-'
      ∷ [])

  -- The loop of `vmm_dump_pml4` at entry `i`, with `left` entries to go.
  unfoldable pub dump_loop : ℕ → ℕ → Vmm → O → M O
  dump_loop zero i vmm out = pure out
  dump_loop (suc left) i vmm out = do
    e ← load_entry vmm.pml4 i
    dump_loop left (i + 1) vmm (if is_present e then dump_entry i e out else out)

  unfoldable pub vmm_dump_pml4 : Vmm → O → M O
  vmm_dump_pml4 vmm out = do
    o ← dump_loop 512 0 vmm (printf "\n=== PML4 Dump ===\n" [] out)
    pure (printf "=================\n\n" [] o)
