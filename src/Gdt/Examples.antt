-- ===== src/Gdt/Examples.antt =====
-- The theorems on the descriptor table at concrete tables.
use os_kernel.Base.{◌+◌, ◌≡◌, refl, update}
use os_kernel.Gdt.{Gdt, gdt_set_entry, gdt_init}
use os_kernel.Gdt.Segment.{descriptor, IsFlat, gdt_init_lem}

-- the table before `gdt_init`
abbrev blank : Gdt
blank = record {
  gdt = λ i. record {
    limit_low = 0;
    base_low = 0;
    base_mid = 0;
    access = 0;
    granularity = 0;
    base_high = 0;
  };
  gdt_ptr = record { limit = 0; base = 0 };
}

gdt_init_lem_example :
    let t = gdt_init 0x100000 blank in
    (t.gdt_ptr.limit + 1 ≡ 40)
    × (descriptor (t.gdt 0) ≡ 0)
    × IsFlat 0 1 (descriptor (t.gdt 1))
    × IsFlat 0 0 (descriptor (t.gdt 2))
    × IsFlat 3 1 (descriptor (t.gdt 3))
    × IsFlat 3 0 (descriptor (t.gdt 4))
gdt_init_lem_example = gdt_init_lem 0x100000 blank

-- the kernel's code segment, as the processor's manual writes it
gdt_init-kernel_code : descriptor ((gdt_init 0x100000 blank).gdt 1) ≡ 0x00CF9A000000FFFF
unfolding gdt_init gdt_set_entry update
gdt_init-kernel_code = refl
