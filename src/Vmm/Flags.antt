-- ===== src/Vmm/Flags.antt =====
-- The flags of a page in the tables of vmm/vmm.c, as `vmm_print_mapping` reads them.
use os_kernel.Base.{
  ℕ, ◌-◌, ◌*◌, ◌/◌, ◌^◌, ◌<◌, ◌≡◌, inl, inr, refl, arith, Bool-cases, ltb, some, ap, ◌∙◌, bit_and,
  bit_or, sym,
}
use os_kernel.Base.Bits.{bit, bit_ext, bit-bit_and, zero-bit, bit-lt}
use os_kernel.Base.Fields.{
  bit-complement, bit_of_lt, bit_and_low, bit_and-bit_or, bit_and_assoc, bit_or-zero, bit_or_comm,
}
use os_kernel.Pmm.{State, M, ◌>>=◌}
use os_kernel.Vmm.{Vmm, pte_present, pte_addr_mask, pt_index, walk_table}
use os_kernel.Vmm.Entry.{make_entry}
use os_kernel.Vmm.Print.{entry_flags, leaf_flags}
use os_kernel.Vmm.Tree.{Role, IsTree, leaf, index}
use os_kernel.Vmm.Leaf.{index-lt}
use os_kernel.Vmm.Access.{load_entry-some}
use os_kernel.Vmm.Translate.{walk_table_lem}

-- The flags of the entry at the end of the walk, and 0 where the walk stops before.
abbrev pub page_flags : Vmm → ℕ → M ℕ
page_flags vmm va = walk_table vmm va >>= λ pt. leaf_flags pt (pt_index va)

-- Flags outside the address field are all that is left of an entry without it.
bit_and-flags :
    (flags : ℕ) → flags < 2 ^ 64 → bit_and flags pte_addr_mask ≡ 0 → entry_flags flags ≡ flags
bit_and-flags flags small none_there = bit_ext _ _ λ j.
    let apart =
      sym (bit-bit_and flags pte_addr_mask j) ∙ ap (λ x. bit x j) none_there ∙ zero-bit j in
    elim (Bool-cases (ltb j 64)) [
      | inl low ↦ ground (
        arith,
        apart,
        bit-bit_and flags (2 ^ 64 - 1 - pte_addr_mask) j,
        bit-complement 64 pte_addr_mask j (omega arith),
        bit-lt flags j,
        bit-lt pte_addr_mask j,
      )
      | inr high ↦
          ground
            (arith, bit-bit_and flags (2 ^ 64 - 1 - pte_addr_mask) j, bit_of_lt 64 flags j small)
    ]

pub entry_flags-make_entry :
    (a flags : ℕ)
    → flags < 2 ^ 64
    → bit_and flags pte_addr_mask ≡ 0
    → entry_flags (make_entry a flags) ≡ bit_or flags pte_present
entry_flags-make_entry a flags small none_there =
    let n = 2 ^ 64 - 1 - pte_addr_mask in
    let nothing : bit_and a (bit_and pte_addr_mask n) ≡ 0 =
      bit_ext _ _ (λ j. omega (arith, bit-bit_and a 0 j, zero-bit j)) in
    rw
      (
        bit_and-bit_or (bit_or (bit_and a pte_addr_mask) flags) pte_present n,
        bit_and-bit_or (bit_and a pte_addr_mask) flags n,
        bit_and_assoc a pte_addr_mask n,
        nothing,
        bit_and-flags flags small none_there,
        bit_or_comm 0 flags,
        bit_or-zero flags,
      )
      refl

-- Reading the flags never faults and changes nothing.
pub page_flags-leaf :
    {role : Role} {root : ℕ} {s : State} (tree : IsTree role root s) (vmm : Vmm) (va : ℕ)
    → vmm.pml4 ≡ some (root * 4096)
    → page_flags vmm va s ≡ some (entry_flags (leaf s 3 root va), s)
unfolding leaf_flags
page_flags-leaf {s = s} tree vmm va at_root = elim (walk_table_lem tree va vmm at_root) [
  | inl (stops, l) ↦ rw (stops, ◌>>=◌, l) refl
  | inr (q, ends, rq, l, _) ↦
      rw
        (
          ends,
          ◌>>=◌,
          bit_and_low 9 (va / 2 ^ 12),
          l,
          load_entry-some s q (index 0 va) (tree.used q _ _ rq).0 (index-lt 0 va),
          ◌>>=◌,
        )
        refl
]
