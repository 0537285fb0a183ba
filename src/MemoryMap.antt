-- ===== src/MemoryMap.antt =====
-- memory_map/memory_map.h and memory_map.c: the table of memory regions.
pub mod Totals
pub mod Layout
pub mod Print
mod Examples
use Prim.Native.String.{String}
use os_kernel.Base.{ℕ, ◌+◌, ◌==◌, leb, u32, u64, if◌then◌else◌, update}

abbrev pub mmap_max_entries : ℕ
mmap_max_entries = 64

-- `mmap_type_t`; a C enumeration holds any integer, and `mmap_init` leaves 0 in it.
abbrev pub mmap_free : ℕ
mmap_free = 1

abbrev pub mmap_reserved : ℕ
mmap_reserved = 2

abbrev pub mmap_acpi : ℕ
mmap_acpi = 3

abbrev pub mmap_nvs : ℕ
mmap_nvs = 4

abbrev pub mmap_badram : ℕ
mmap_badram = 5

abbrev pub mmap_kernel : ℕ
mmap_kernel = 6

-- `mmap_entry_t`
pub record MmapEntry : Type 0 where
  pub base : ℕ
  pub length : ℕ
  pub kind : ℕ

-- `memory_map_t`
pub record MemoryMap : Type 0 where
  pub entries : ℕ → MmapEntry
  pub count : ℕ
  pub total_free : ℕ
  pub total_usable : ℕ

unfoldable pub mmap_type_str : ℕ → String
mmap_type_str kind =
    if kind == mmap_free
    then "Free RAM"
    else if kind == mmap_reserved
    then "Reserved"
    else if kind == mmap_acpi
    then "ACPI Reclaimable"
    else if kind == mmap_nvs
    then "ACPI NVS"
    else if kind == mmap_badram
    then "Bad RAM"
    else if kind == mmap_kernel
    then "Kernel"
    else "Unknown"

-- The `memset` of the whole structure to 0.
unfoldable pub mmap_init : MemoryMap → MemoryMap
mmap_init m = record {
  entries = λ i. record { base = 0; length = 0; kind = 0 };
  count = 0;
  total_free = 0;
  total_usable = 0;
}

unfoldable pub mmap_add_entry : MemoryMap → ℕ → ℕ → ℕ → MemoryMap
mmap_add_entry m base length kind = if leb mmap_max_entries m.count then m else record m {
  entries = update m.entries m.count (record { base = base; length = length; kind = kind });
  count = u32 (m.count + 1);
  total_free = if kind == mmap_free then u64 (m.total_free + length) else m.total_free;
  total_usable = if kind == mmap_free then u64 (m.total_usable + length) else m.total_usable;
}

unfoldable pub mmap_parse : MemoryMap → MemoryMap
mmap_parse m =
    let m0 = mmap_init m in
    let m1 = mmap_add_entry m0 0x00000000 0x000A0000 mmap_free in
    let m2 = mmap_add_entry m1 0x000A0000 0x00020000 mmap_reserved in
    let m3 = mmap_add_entry m2 0x000C0000 0x00040000 mmap_reserved in
    let m4 = mmap_add_entry m3 0x00100000 0x00E00000 mmap_free in
    let m5 = mmap_add_entry m4 0x00F00000 0x00100000 mmap_reserved in
    let m6 = mmap_add_entry m5 0x01000000 0x01800000 mmap_free in
    let m7 = mmap_add_entry m6 0x02800000 0x00100000 mmap_acpi in
    let m8 = mmap_add_entry m7 0x02900000 0x01300000 mmap_free in
    mmap_add_entry m8 0x03C00000 0x00400000 mmap_reserved
