-- ===== src/MemoryMap/Print.antt =====
-- `mmap_print` of memory_map/memory_map.c, for any `printf`.
use os_kernel.Base.{ℕ, zero, suc, ◌+◌, [], ◌∷◌}
use os_kernel.Stdio.{word, text, Printer}
use os_kernel.MemoryMap.{MemoryMap, MmapEntry, mmap_type_str}

module _ {O : Type 0} (printf : Printer O) where
  unfoldable pub print_entry : MmapEntry → O → O
  print_entry e =
      printf "║ 0x%014llx ║ 0x%014llx ║ %-22s ║\n"
        (word e.base ∷ word e.length ∷ text (mmap_type_str e.kind) ∷ [])

  -- The loop of `mmap_print` at entry `i`, with `left` entries to go.
  unfoldable pub print_entries : ℕ → ℕ → MemoryMap → O → O
  print_entries zero i mmap out = out
  print_entries (suc left) i mmap out =
      print_entries left (i + 1) mmap (print_entry (mmap.entries i) out)

  unfoldable pub mmap_print : MemoryMap → O → O
  mmap_print mmap out =
      let o1 = printf "\n" [] out in
      let o2 = printf "╔══════════════════════════════════════════════════════════════╗\n" [] o1 in
      let o3 =
        printf "║              MEMORY MAP  (%2u entries)                       ║\n"
          (word mmap.count ∷ []) o2 in
      let o4 = printf "╠══════════════════╦══════════════════╦════════════════════════╣\n" [] o3 in
      let o5 = printf "║ Base             ║ Length           ║ Type                   ║\n" [] o4 in
      let o6 = printf "╠══════════════════╬══════════════════╬════════════════════════╣\n" [] o5 in
      let o7 = print_entries mmap.count 0 mmap o6 in
      let o8 = printf "╠══════════════════╩══════════════════╩════════════════════════╣\n" [] o7 in
      let o9 = printf "║ Total Free : %-48llu ║\n" (word mmap.total_free ∷ []) o8 in
      printf "╚══════════════════════════════════════════════════════════════╝\n\n" [] o9
