-- ===== src/Gdt.antt =====
-- gdt_and_idt/gdt.h and gdt.c: the global descriptor table.
pub mod Segment
mod Examples
use os_kernel.Base.{ℕ, ◌+◌, ◌-◌, ◌*◌, ◌/◌, ◌^◌, bit_and, bit_or, u8, u16, update}

-- `gdt_entry_t`
pub record GdtEntry : Type 0 where
  pub limit_low : ℕ
  pub base_low : ℕ
  pub base_mid : ℕ
  pub access : ℕ
  pub granularity : ℕ
  pub base_high : ℕ

-- `gdt_ptr_t`
pub record GdtPtr : Type 0 where
  pub limit : ℕ
  pub base : ℕ

-- The static variables `gdt` and `gdt_ptr`.
pub record Gdt : Type 0 where
  pub gdt : ℕ → GdtEntry
  pub gdt_ptr : GdtPtr

abbrev pub gdt_access_present : ℕ
gdt_access_present = 1 * 2 ^ 7

abbrev pub gdt_access_ring0 : ℕ
gdt_access_ring0 = 0 * 2 ^ 5

abbrev pub gdt_access_ring3 : ℕ
gdt_access_ring3 = 3 * 2 ^ 5

abbrev pub gdt_access_descriptor : ℕ
gdt_access_descriptor = 1 * 2 ^ 4

abbrev pub gdt_access_executable : ℕ
gdt_access_executable = 1 * 2 ^ 3

abbrev pub gdt_access_rw : ℕ
gdt_access_rw = 1 * 2 ^ 1

abbrev pub gdt_kernel_code_access : ℕ
gdt_kernel_code_access =
    bit_or
      (bit_or (bit_or (bit_or gdt_access_present gdt_access_ring0) gdt_access_descriptor)
        gdt_access_executable)
      gdt_access_rw

abbrev pub gdt_kernel_data_access : ℕ
gdt_kernel_data_access =
    bit_or (bit_or (bit_or gdt_access_present gdt_access_ring0) gdt_access_descriptor) gdt_access_rw

abbrev pub gdt_user_code_access : ℕ
gdt_user_code_access =
    bit_or
      (bit_or (bit_or (bit_or gdt_access_present gdt_access_ring3) gdt_access_descriptor)
        gdt_access_executable)
      gdt_access_rw

abbrev pub gdt_user_data_access : ℕ
gdt_user_data_access =
    bit_or (bit_or (bit_or gdt_access_present gdt_access_ring3) gdt_access_descriptor) gdt_access_rw

abbrev pub gdt_gran_4k : ℕ
gdt_gran_4k = 1 * 2 ^ 7

abbrev pub gdt_gran_32bit : ℕ
gdt_gran_32bit = 1 * 2 ^ 6

abbrev pub gdt_flags : ℕ
gdt_flags = bit_or gdt_gran_4k gdt_gran_32bit

abbrev pub gdt_entry_count : ℕ
gdt_entry_count = 5

-- `sizeof(gdt_entry_t)`, a packed structure of 8 bytes
abbrev pub gdt_entry_size : ℕ
gdt_entry_size = 8

unfoldable pub gdt_set_entry : Gdt → ℕ → ℕ → ℕ → ℕ → ℕ → Gdt
gdt_set_entry g index base limit access granularity = record g {
  gdt = update g.gdt index (record {
    base_low = u16 (bit_and base 0xFFFF);
    base_mid = u8 (bit_and (base / 2 ^ 16) 0xFF);
    base_high = u8 (bit_and (base / 2 ^ 24) 0xFF);
    limit_low = u16 (bit_and limit 0xFFFF);
    granularity = u8 (bit_or (u8 (bit_and (limit / 2 ^ 16) 0x0F)) (bit_and granularity 0xF0));
    access = access;
  });
}

-- `address` is that of the array `gdt`. The last call, of `gdt_flush`, is assembly and left out.
unfoldable pub gdt_init : ℕ → Gdt → Gdt
gdt_init address g =
    let g0 = record g {
      gdt_ptr = record { limit = u16 (gdt_entry_size * gdt_entry_count - 1); base = address };
    } in
    let g1 = gdt_set_entry g0 0 0x00000000 0x00000000 0x00 0x00 in
    let g2 = gdt_set_entry g1 1 0x00000000 0x000FFFFF gdt_kernel_code_access gdt_flags in
    let g3 = gdt_set_entry g2 2 0x00000000 0x000FFFFF gdt_kernel_data_access gdt_flags in
    let g4 = gdt_set_entry g3 3 0x00000000 0x000FFFFF gdt_user_code_access gdt_flags in
    gdt_set_entry g4 4 0x00000000 0x000FFFFF gdt_user_data_access gdt_flags
