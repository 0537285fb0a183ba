-- ===== src/Vmm/Printed.antt =====
-- What `vmm_print_mapping` of vmm/vmm.c prints.
use mathlib.Core.Bool.{false≢true}
use os_kernel.Base.{
  ℕ, ◌+◌, ◌*◌, ◌/◌, ◌%◌, ◌^◌, ◌<◌, ◌≡◌, ◌⊎◌, inl, inr, refl, arith, true, Bool-cases, if◌then◌else◌,
  some, Option, ap, ◌∙◌, bit_and, bit_or, sym, ne→==,
}
use os_kernel.Base.Fields.{bit_and_low}
use os_kernel.Pmm.{State, M, ◌>>=◌, no_page}
use os_kernel.Stdio.{Printer}
use os_kernel.Vmm.{
  Vmm, Status, success, failure, vmm_map, pte_present, pte_addr_mask, is_present, page_offset,
  pt_index, walk_table, vmm_translate,
}
use os_kernel.Vmm.Entry.{
  make_entry, is_present-make_entry, bit_and-make_entry, bit_and-pte_addr_mask, bit_or_offset,
}
use os_kernel.Vmm.Pages.{page_number}
use os_kernel.Vmm.Map.{pml4_after, leaf_here, vmm_map-Mapped}
use os_kernel.Types.{page_size, align_down}
use os_kernel.Types.Align.{align_down_page}
use os_kernel.Pmm.Alloc.{IsFull}
use os_kernel.Vmm.Print.{entry_flags, leaf_flags, vmm_print_mapping, print_mapped, print_unmapped}
use os_kernel.Vmm.Flags.{page_flags-leaf, entry_flags-make_entry}
use os_kernel.Vmm.Tree.{Role, IsTree, leaf}
use os_kernel.Vmm.Leaf.{is_present-zero}
use os_kernel.Vmm.Translate.{IsManager, translation, vmm_translate-leaf, walk_table_lem}

bind-some :
    {A B : Type 0} (m : M A) (k : A → M B) (s : State) (a : A)
    → m s ≡ some (a, s)
    → (m >>= k) s ≡ k a s
bind-some m k s a e = rw (◌>>=◌, e) refl

module _ {O : Type 0} (printf : Printer O) (vmm : Vmm) (va : ℕ) (out : O) where
  -- the line for an address whose last-level entry is `e`
  abbrev pub line_of : ℕ → O
  line_of e =
      if is_present e
      then print_mapped printf va (e / 4096 % 2 ^ 40 * 4096 + va % 4096) (entry_flags e) out
      else print_unmapped printf va out

  module _ {role : Role} {root : ℕ} {s : State} (tree : IsTree role root s)
      (at_root : vmm.pml4 ≡ some (root * 4096)) where
    pub vmm_print_mapping-leaf :
        vmm_print_mapping printf vmm va out s ≡ some (line_of (leaf s 3 root va), s)
    unfolding vmm_print_mapping
    vmm_print_mapping-leaf = elim (Bool-cases (is_present (leaf s 3 root va))) [
      | inr absent ↦
          let untranslated : vmm_translate vmm va s ≡ some (no_page, s) =
            vmm_translate-leaf tree vmm va at_root ∙ (unfold translation in rw absent refl) in
          rw (untranslated, ◌>>=◌, absent) refl
      | inl there ↦ elim (walk_table_lem tree va vmm at_root) [
        | inl (stops, l) ↦ absurd (false≢true (sym (is_present-zero _ l) ∙ there))
        | inr (q, runs, _, _, _) ↦
            rw
              (
                vmm_translate-leaf tree vmm va at_root ∙ ap (λ a. some (a, s)) (address there),
                ◌>>=◌,
                ne→== (leaf s 3 root va / 4096 % 2 ^ 40 * 4096 + va % 4096) no_page (omega arith),
                runs,
                ◌>>=◌,
                read_flags (some (q * 4096)) runs,
                ◌>>=◌,
                there,
              )
              refl
      ]
    ]
      where
        read_flags :
            (pt : Option ℕ)
            → walk_table vmm va s ≡ some (pt, s)
            → leaf_flags pt (pt_index va) s ≡ some (entry_flags (leaf s 3 root va), s)
        read_flags pt runs =
            sym (bind-some (walk_table vmm va) (λ o. leaf_flags o (pt_index va)) s pt runs)
            ∙ page_flags-leaf tree vmm va at_root

        address :
            is_present (leaf s 3 root va) ≡ true
            → translation (leaf s 3 root va) (page_offset va)
              ≡ leaf s 3 root va / 4096 % 2 ^ 40 * 4096 + va % 4096
        address there =
            unfold translation in
            rw there (
              bit_or_offset (leaf s 3 root va) (page_offset va) (omega (arith, bit_and_low 12 va))
              ∙ omega (arith, bit_and_low 12 va))

-- `vmm_print_mapping` after `vmm_map` on a well-formed manager, with a frame below 2 ^ 52 and flags outside the
-- address field: unless `vmm_map` fails, and no page is free, `vmm_print_mapping` of any address of the page
-- changes nothing and prints the address in the frame and the flags asked for, with the present bit.
pub vmm_print_mapping-vmm_map :
    {O : Type 0} (printf : Printer O) {vmm : Vmm} {s : State} (virt phys flags : ℕ)
    → IsManager vmm s
    → phys < 2 ^ 52
    → flags < 2 ^ 64
    → bit_and flags pte_addr_mask ≡ 0
    → (st : Status) × (vmm' : Vmm) × (t : State) × (vmm_map vmm virt phys flags s
        ≡ some ((st, vmm'), t))
      × (((st ≡ failure) × IsFull t)
          ⊎ ((st ≡ success)
              × ((va : ℕ) (out : O)
                  → page_number va ≡ page_number virt
                  → vmm_print_mapping printf vmm' va out t
                    ≡ some (
                      print_mapped printf va
                          (phys / 4096 * 4096 + va % 4096)
                          (bit_or flags pte_present)
                          out,
                      t,
                    ))))
vmm_print_mapping-vmm_map printf virt phys flags w small_phys small none_there =
    let (st, vmm', t, runs, m) = vmm_map-Mapped virt phys flags w small in
    let a = align_down phys page_size in
    let address : make_entry a flags / 4096 % 2 ^ 40 * 4096 ≡ phys / 4096 * 4096 =
      sym (bit_and-pte_addr_mask (make_entry a flags))
      ∙ bit_and-make_entry a flags none_there
      ∙ bit_and-pte_addr_mask a
      ∙ omega (arith, align_down_page phys) in
    (
      st,
      vmm',
      t,
      runs,
      elim m.outcome [
        | inl (failed, full, _, _) ↦ inl (failed, full)
        | inr (done, _, _) ↦ inr (
          done,
          λ va out here.
              vmm_print_mapping-leaf printf vmm' va out m.tree
                (pml4_after virt phys flags m w.pml4_at)
              ∙ ap (λ e. some (line_of printf vmm' va out e, t))
                  (leaf_here virt phys flags m w.pml4_at va done here)
              ∙ rw
                  (
                    is_present-make_entry a flags,
                    address,
                    entry_flags-make_entry a flags small none_there,
                  )
                  refl,
        )
      ],
    )
