-- ===== src/Gdt/Segment.antt =====
-- Segment descriptors the way the processor reads them, against gdt_and_idt/gdt.c.
use os_kernel.Base.{
  ℕ, ◌+◌, ◌*◌, ◌/◌, ◌%◌, ◌^◌, ◌<◌, ◌≡◌, ◌≢◌, refl, arith, bit_or, bit_and, ap, ◌∙◌, u8, u16, update,
  update_self, update_ne,
}
use os_kernel.Base.Bits.{bit}
use os_kernel.Base.Fields.{bit_and_low, bit_and_field, bit_or_add, bit_or_comm}
use os_kernel.Gdt.{Gdt, GdtEntry, gdt_set_entry, gdt_init, gdt_entry_count, gdt_entry_size}

-- the eight bytes of a descriptor as a little-endian number, in the order of the structure's fields
abbrev pub descriptor : GdtEntry → ℕ
descriptor e =
    e.limit_low
    + 2 ^ 16 * e.base_low
    + 2 ^ 32 * e.base_mid
    + 2 ^ 40 * e.access
    + 2 ^ 48 * e.granularity
    + 2 ^ 56 * e.base_high

-- What the processor's manual takes from a descriptor: the base in the bits 16-39 and 56-63, the
-- limit in the bits 0-15 and 48-51, the access byte in the bits 40-47, the flags in the bits 52-55.
abbrev pub segment_base : ℕ → ℕ
segment_base d = d / 2 ^ 16 % 2 ^ 24 + 2 ^ 24 * (d / 2 ^ 56 % 2 ^ 8)

abbrev pub segment_limit : ℕ → ℕ
segment_limit d = d % 2 ^ 16 + 2 ^ 16 * (d / 2 ^ 48 % 2 ^ 4)

abbrev pub segment_access : ℕ → ℕ
segment_access d = d / 2 ^ 40 % 2 ^ 8

abbrev pub segment_flags : ℕ → ℕ
segment_flags d = d / 2 ^ 52 % 2 ^ 4

-- what `gdt_set_entry` stores, as arithmetic
packed : ℕ → ℕ → ℕ → ℕ → GdtEntry
packed base limit access granularity = record {
  limit_low = limit % 2 ^ 16;
  base_low = base % 2 ^ 16;
  base_mid = base / 2 ^ 16 % 2 ^ 8;
  access = access;
  granularity = granularity / 2 ^ 4 % 2 ^ 4 * 2 ^ 4 + limit / 2 ^ 16 % 2 ^ 4;
  base_high = base / 2 ^ 24 % 2 ^ 8;
}

granularity_byte :
    (l g : ℕ)
    → u8 (bit_or (u8 (bit_and l 0x0F)) (bit_and g 0xF0)) ≡ g / 2 ^ 4 % 2 ^ 4 * 2 ^ 4 + l % 2 ^ 4
granularity_byte l g =
    rw
      (
        bit_and_low 4 l,
        bit_and_field 4 4 g,
        bit_or_comm,
        bit_or_add 4 (g / 2 ^ 4 % 2 ^ 4) (l % 2 ^ 4 % 2 ^ 8) (omega arith),
      )
      (omega arith)

low16 : (x : ℕ) → u16 (bit_and x 0xFFFF) ≡ x % 2 ^ 16
low16 x = rw (bit_and_low 16 x) (omega arith)

low8 : (x : ℕ) → u8 (bit_and x 0xFF) ≡ x % 2 ^ 8
low8 x = rw (bit_and_low 8 x) (omega arith)

gdt_set_entry-packed :
    (g : Gdt) (index base limit access granularity : ℕ)
    → (gdt_set_entry g index base limit access granularity).gdt
      ≡ update g.gdt index (packed base limit access granularity)
unfolding gdt_set_entry packed
gdt_set_entry-packed g index base limit access granularity =
    rw
      (
        low16 base,
        low8 (base / 2 ^ 16),
        low8 (base / 2 ^ 24),
        low16 limit,
        granularity_byte (limit / 2 ^ 16) granularity,
      )
      refl

gdt_set_entry_self :
    (g : Gdt) (index base limit access granularity : ℕ)
    → (gdt_set_entry g index base limit access granularity).gdt index
      ≡ packed base limit access granularity
gdt_set_entry_self g index base limit access granularity =
    ap (λ (t : ℕ → GdtEntry). t index) (gdt_set_entry-packed g index base limit access granularity)
    ∙ update_self g.gdt index (packed base limit access granularity)

packed-fields :
    (base limit access granularity : ℕ)
    → base < 2 ^ 32
    → limit < 2 ^ 20
    → access < 2 ^ 8
    → granularity < 2 ^ 8
    → (let d = descriptor (packed base limit access granularity) in
        (segment_base d ≡ base)
        × (segment_limit d ≡ limit)
        × (segment_access d ≡ access)
        × (segment_flags d ≡ granularity / 2 ^ 4))
unfolding packed
packed-fields base limit access granularity hb hl ha hg =
    (omega arith, omega arith, omega arith, omega arith)

-- The descriptor that `gdt_set_entry` packs has the base, the limit, the access byte and the high
-- four bits of the granularity byte that it was given, and every other entry stays as it was.
gdt_set_entry_lem :
    (g : Gdt) (index base limit access granularity : ℕ)
    → base < 2 ^ 32
    → limit < 2 ^ 20
    → access < 2 ^ 8
    → granularity < 2 ^ 8
    → (let g' = gdt_set_entry g index base limit access granularity in
        (segment_base (descriptor (g'.gdt index)) ≡ base)
        × (segment_limit (descriptor (g'.gdt index)) ≡ limit)
        × (segment_access (descriptor (g'.gdt index)) ≡ access)
        × (segment_flags (descriptor (g'.gdt index)) ≡ granularity / 2 ^ 4)
        × ((other : ℕ) → other ≢ index → g'.gdt other ≡ g.gdt other))
gdt_set_entry_lem g index base limit access granularity hb hl ha hg =
    let (b, l, a, f) = packed-fields base limit access granularity hb hl ha hg in
    let here = gdt_set_entry_self g index base limit access granularity in
    (
      ap (λ e. segment_base (descriptor e)) here ∙ b,
      ap (λ e. segment_limit (descriptor e)) here ∙ l,
      ap (λ e. segment_access (descriptor e)) here ∙ a,
      ap (λ e. segment_flags (descriptor e)) here ∙ f,
      λ other ne.
          ap (λ (t : ℕ → GdtEntry). t other)
            (gdt_set_entry-packed g index base limit access granularity)
          ∙ update_ne g.gdt index _ other ne,
    )

-- A present code or data segment with base 0 that covers 4 GB in pages of 4 KB with 32-bit operands,
-- readable or writable, in the ring given and executable or not.
abbrev pub IsFlat : ℕ → ℕ → ℕ → Type 0
IsFlat ring executable d =
    (segment_base d ≡ 0)
    × ((segment_limit d + 1) * 4096 ≡ 2 ^ 32)
    × (segment_flags d ≡ 0xC)
    × (bit (segment_access d) 7 ≡ 1)
    × (segment_access d / 2 ^ 5 % 2 ^ 2 ≡ ring)
    × (bit (segment_access d) 4 ≡ 1)
    × (bit (segment_access d) 3 ≡ executable)
    × (bit (segment_access d) 1 ≡ 1)

-- Whatever the table held before, `gdt_init` sets the limit of the table to its size less 1, makes
-- entry 0 the null descriptor, and makes the entries 1 to 4 present code or data segments with base 0
-- that cover 4 GB in pages of 4 KB with 32-bit operands: ring 0 for the entries 1 and 2 and ring 3
-- for the others, executable for the entries 1 and 3 alone, and all four readable or writable.
pub gdt_init_lem :
    (address : ℕ) (g : Gdt)
    → (let t = gdt_init address g in
        (t.gdt_ptr.limit + 1 ≡ gdt_entry_size * gdt_entry_count)
        × (descriptor (t.gdt 0) ≡ 0)
        × IsFlat 0 1 (descriptor (t.gdt 1))
        × IsFlat 0 0 (descriptor (t.gdt 2))
        × IsFlat 3 1 (descriptor (t.gdt 3))
        × IsFlat 3 0 (descriptor (t.gdt 4)))
unfolding gdt_init gdt_set_entry update bit
gdt_init_lem address g = (
  refl,
  refl,
  (refl, refl, refl, refl, refl, refl, refl, refl),
  (refl, refl, refl, refl, refl, refl, refl, refl),
  (refl, refl, refl, refl, refl, refl, refl, refl),
  (refl, refl, refl, refl, refl, refl, refl, refl),
)
