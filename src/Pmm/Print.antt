-- ===== src/Pmm/Print.antt =====
-- `pmm_print_stats` of pmm/pmm.c, for any `printf`.
use os_kernel.Base.{ℕ, ◌*◌, ◌/◌, u64, [], ◌∷◌}
use os_kernel.Types.{page_size}
use os_kernel.Pmm.{Pmm}
use os_kernel.Stdio.{word, Printer}

-- `(pages * PAGE_SIZE) / (1024 * 1024)`
abbrev pub megabytes : ℕ → ℕ
megabytes pages = u64 (pages * page_size) / (1024 * 1024)

module _ {O : Type 0} (printf : Printer O) where
  unfoldable pub pmm_print_stats : Pmm → O → O
  pmm_print_stats pmm out =
      let o1 = printf "\n┌─────────────────────────────────┐\n" [] out in
      let o2 = printf "│         PMM Statistics          │\n" [] o1 in
      let o3 = printf "├─────────────────────────────────┤\n" [] o2 in
      let o4 =
        printf "│ Total : %6llu pages  (%4llu MB) │\n"
          (word pmm.total_pages ∷ word (megabytes pmm.total_pages) ∷ []) o3 in
      let o5 =
        printf "│ Free  : %6llu pages  (%4llu MB) │\n"
          (word pmm.free_pages ∷ word (megabytes pmm.free_pages) ∷ []) o4 in
      let o6 =
        printf "│ Used  : %6llu pages  (%4llu MB) │\n"
          (word pmm.used_pages ∷ word (megabytes pmm.used_pages) ∷ []) o5 in
      printf "└─────────────────────────────────┘\n\n" [] o6
