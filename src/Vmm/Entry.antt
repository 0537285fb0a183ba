-- ===== src/Vmm/Entry.antt =====
-- Page table entries: the bits that `vmm_map` packs and the walk takes apart again.
use os_kernel.Base.{
  ℕ, ◌+◌, ◌*◌, ◌/◌, ◌%◌, ◌^◌, ◌<◌, ◌≡◌, refl, true, arith, bit_and, bit_or, ◌==◌, not,
}
use os_kernel.Base.Bits.{bit-zero, bit-bit_or}
use os_kernel.Base.Fields.{
  bit_and_low, bit_and_field, bit_and-bit_or, bit_and_assoc, bit_or_add, bit_or-zero, bit_or-lt,
}
use os_kernel.Vmm.{pte_present, pte_addr_mask, is_present}

-- the address part of an entry, as arithmetic
pub bit_and-pte_addr_mask : (x : ℕ) → bit_and x pte_addr_mask ≡ x / 4096 % 2 ^ 40 * 4096
bit_and-pte_addr_mask x = bit_and_field 12 40 x

pub is_present-iff_odd : (e : ℕ) → is_present e ≡ not (e % 2 == 0)
is_present-iff_odd e = rw (bit_and_low 1 e) refl

-- `(a & PTE_ADDR_MASK) | flags | PTE_PRESENT`
abbrev pub make_entry : ℕ → ℕ → ℕ
make_entry a flags = bit_or (bit_or (bit_and a pte_addr_mask) flags) pte_present

pub is_present-make_entry : (a flags : ℕ) → is_present (make_entry a flags) ≡ true
is_present-make_entry a flags =
    let x = bit_or (bit_and a pte_addr_mask) flags in
    rw (is_present-iff_odd (make_entry a flags))
      (ground (arith, bit-zero (bit_or x 1), bit-bit_or x 1 0, bit-zero 1, bit-zero x))

-- An entry holds the address that was put in, if the flags have no bit of the address field.
pub bit_and-make_entry :
    (a flags : ℕ)
    → bit_and flags pte_addr_mask ≡ 0
    → bit_and (make_entry a flags) pte_addr_mask ≡ bit_and a pte_addr_mask
bit_and-make_entry a flags h =
    rw
      (
        bit_and-bit_or (bit_or (bit_and a pte_addr_mask) flags) pte_present pte_addr_mask,
        bit_and-bit_or (bit_and a pte_addr_mask) flags pte_addr_mask,
        bit_and_assoc a pte_addr_mask pte_addr_mask,
        h,
        bit_or-zero (bit_and a pte_addr_mask),
        bit_or-zero (bit_and a pte_addr_mask),
      )
      refl

pub make_entry-lt : (a flags : ℕ) → flags < 2 ^ 64 → make_entry a flags < 2 ^ 64
make_entry-lt a flags h =
    bit_or-lt 64 (bit_or (bit_and a pte_addr_mask) flags) 1
      (bit_or-lt 64 (bit_and a pte_addr_mask) flags (omega (arith, bit_and-pte_addr_mask a)) h)
      (omega arith)

-- The address part and the offset in the page do not overlap.
pub bit_or_offset :
    (x off : ℕ) → off < 4096 → bit_or (bit_and x pte_addr_mask) off ≡ x / 4096 % 2 ^ 40 * 4096 + off
bit_or_offset x off h = rw (bit_and-pte_addr_mask x) (bit_or_add 12 (x / 4096 % 2 ^ 40) off h)
