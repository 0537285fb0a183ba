-- ===== src/Idt/Packed.antt =====
-- A gate that `idt_set_entry` of gdt_and_idt/idt.c packs, and its fields.
use os_kernel.Base.{
  ℕ, ◌+◌, ◌*◌, ◌/◌, ◌%◌, ◌^◌, ◌<◌, ◌≡◌, ◌≢◌, refl, arith, update, update_self, update_ne, ap, ◌∙◌,
  bit_and, u16,
}
use os_kernel.Base.Fields.{bit_and_low}
use os_kernel.Idt.{Idt, IdtEntry, idt_set_entry}

-- the eight bytes of a gate as a little-endian number, in the order of the structure's fields
abbrev pub descriptor : IdtEntry → ℕ
descriptor e =
    e.offset_low
    + 2 ^ 16 * e.selector
    + 2 ^ 32 * e.reserved
    + 2 ^ 40 * e.type_attr
    + 2 ^ 48 * e.offset_high

-- What the processor's manual takes from a gate: the address of the handler in the bits 0-15 and
-- 48-63, the selector in the bits 16-31, the type in the bits 40-47.
abbrev pub gate_offset : ℕ → ℕ
gate_offset d = d % 2 ^ 16 + 2 ^ 16 * (d / 2 ^ 48 % 2 ^ 16)

abbrev pub gate_selector : ℕ → ℕ
gate_selector d = d / 2 ^ 16 % 2 ^ 16

abbrev pub gate_type : ℕ → ℕ
gate_type d = d / 2 ^ 40 % 2 ^ 8

low16 : (x : ℕ) → u16 (bit_and x 0xFFFF) ≡ x % 2 ^ 16
low16 x = rw (bit_and_low 16 x) (omega arith)

pub packed : ℕ → ℕ → ℕ → IdtEntry
packed handler selector type_attr = record {
  offset_low = handler % 2 ^ 16;
  offset_high = handler / 2 ^ 16 % 2 ^ 16;
  selector = selector;
  reserved = 0;
  type_attr = type_attr;
}

pub idt_set_entry-packed :
    (t : Idt) (vector handler selector type_attr : ℕ)
    → (idt_set_entry t vector handler selector type_attr).idt
      ≡ update t.idt vector (packed handler selector type_attr)
unfolding idt_set_entry packed
idt_set_entry-packed t vector handler selector type_attr =
    rw (low16 handler, low16 (handler / 2 ^ 16)) refl

idt_set_entry_self :
    (t : Idt) (vector handler selector type_attr : ℕ)
    → (idt_set_entry t vector handler selector type_attr).idt vector
      ≡ packed handler selector type_attr
idt_set_entry_self t vector handler selector type_attr =
    ap (λ (f : ℕ → IdtEntry). f vector) (idt_set_entry-packed t vector handler selector type_attr)
    ∙ update_self t.idt vector (packed handler selector type_attr)

pub packed-fields :
    (handler selector type_attr : ℕ)
    → handler < 2 ^ 32
    → selector < 2 ^ 16
    → type_attr < 2 ^ 8
    → (let d = descriptor (packed handler selector type_attr) in
        (gate_offset d ≡ handler) × (gate_selector d ≡ selector) × (gate_type d ≡ type_attr))
unfolding packed
packed-fields handler selector type_attr hh hs ht = (omega arith, omega arith, omega arith)

-- The gate that `idt_set_entry` packs has the address, the selector and the type that it was given,
-- and every other gate and all handlers stay as they were.
idt_set_entry_lem :
    (t : Idt) (vector handler selector type_attr : ℕ)
    → handler < 2 ^ 32
    → selector < 2 ^ 16
    → type_attr < 2 ^ 8
    → (let t' = idt_set_entry t vector handler selector type_attr in
        (gate_offset (descriptor (t'.idt vector)) ≡ handler)
        × (gate_selector (descriptor (t'.idt vector)) ≡ selector)
        × (gate_type (descriptor (t'.idt vector)) ≡ type_attr)
        × ((other : ℕ) → other ≢ vector → t'.idt other ≡ t.idt other)
        × (t'.isr_handlers ≡ t.isr_handlers))
unfolding idt_set_entry
idt_set_entry_lem t vector handler selector type_attr hh hs ht =
    let (o, s, a) = packed-fields handler selector type_attr hh hs ht in
    let here = idt_set_entry_self t vector handler selector type_attr in
    (
      ap (λ e. gate_offset (descriptor e)) here ∙ o,
      ap (λ e. gate_selector (descriptor e)) here ∙ s,
      ap (λ e. gate_type (descriptor e)) here ∙ a,
      λ other ne.
          ap (λ (f : ℕ → IdtEntry). f other)
            (idt_set_entry-packed t vector handler selector type_attr)
          ∙ update_ne t.idt vector _ other ne,
      refl,
    )
