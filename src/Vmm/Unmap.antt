-- ===== src/Vmm/Unmap.antt =====
-- `vmm_unmap` of vmm/vmm.c.
use os_kernel.Base.{
  ℕ, ◌+◌, ◌*◌, ◌/◌, ◌%◌, ◌^◌, ◌<◌, ◌≡◌, ◌≢◌, ◌⊎◌, inl, inr, refl, arith, true, false, not,
  Bool-cases, ◌==◌, some, ap, ◌∙◌, bit_and, bit_or, sym, ne→==,
}
use os_kernel.Base.Fields.{bit_and_low}
use os_kernel.Types.{page_size, align_down}
use os_kernel.Pmm.{State, ◌>>=◌, no_page}
use os_kernel.Vmm.{
  Vmm, Status, success, failure, pte_addr_mask, is_present, page_offset, vmm_unmap, vmm_translate,
  vmm_is_mapped,
}
use os_kernel.Vmm.Entry.{bit_or_offset}
use os_kernel.Vmm.Tree.{Role, IsTree, leaf}
use os_kernel.Vmm.Leaf.{leaf_ext}
use os_kernel.Vmm.Count.{mapped_pages, mapped_pages-one_less, mapped_pages-le}
use os_kernel.Vmm.Translate.{IsManager, translation, if_null-some, vmm_translate-leaf}
use os_kernel.Vmm.Pages.{page_number, page_number-align_down, translate-same}
use os_kernel.Vmm.Cleared.{uncounted, Unmapped, unmap-Unmaps}

-- `vmm_is_mapped` tells whether the last-level entry is present.
pub vmm_is_mapped-leaf :
    {role : Role} {root : ℕ} {s : State} (tree : IsTree role root s) (vmm : Vmm) (va : ℕ)
    → vmm.pml4 ≡ some (root * 4096)
    → vmm_is_mapped vmm va s ≡ some (is_present (leaf s 3 root va), s)
unfolding vmm_is_mapped
vmm_is_mapped-leaf {root} {s} tree vmm va at_root =
    rw (vmm_translate-leaf tree vmm va at_root, ◌>>=◌) (ap (λ b. some (b, s)) tells)
  where
    e : ℕ
    e = leaf s 3 root va

    opened :
        is_present e ≡ true
        → translation e (page_offset va) ≡ bit_or (bit_and e pte_addr_mask) (page_offset va)
    opened there = unfold translation in rw there refl

    tells : not (translation e (page_offset va) == no_page) ≡ is_present e
    tells = elim (Bool-cases (is_present e)) [
      | inl there ↦
          let small : page_offset va < 4096 = omega (arith, bit_and_low 12 va) in
          let is : translation e (page_offset va) ≡ e / 4096 % 2 ^ 40 * 4096 + page_offset va =
            opened there ∙ bit_or_offset e (page_offset va) small in
          rw (there, ne→== (translation e (page_offset va)) no_page (omega (arith, is, small))) refl
      | inr absent ↦ rw absent (unfold translation in rw absent refl)
    ]

module _ {role : Role} {root : ℕ} {s t : State} {vmm vmm' : Vmm} {st : Status} (virt : ℕ)
    (m : Unmapped role root s (align_down virt page_size) vmm st vmm' t)
    (at : vmm.pml4 ≡ some (root * 4096)) where
  unmapped_pml4 : vmm'.pml4 ≡ some (root * 4096)
  unmapped_pml4 = elim m.outcome [
    | inl (e, f, g) ↦ ap (λ v. v.pml4) f ∙ at
    | inr (e, f, g) ↦ ap (λ v. v.pml4) f ∙ at
  ]

  unmapped_count : vmm.mapped ≡ mapped_pages s root → vmm'.mapped ≡ mapped_pages t root
  unmapped_count before = elim m.outcome [
    | inl (e, f, g) ↦ ap (λ v. v.mapped) f ∙ before ∙ ap (λ u. mapped_pages u root) (sym g)
    | inr (e, f, there) ↦
        let less = mapped_pages-one_less s t root _ m.others there m.absent in
        ap (λ v. v.mapped) f ∙ omega (arith, before, less, mapped_pages-le s root)
  ]

  same_page :
      (u : State) (va : ℕ)
      → page_number va ≡ page_number virt
      → leaf u 3 root va ≡ leaf u 3 root (align_down virt page_size)
  same_page u va here =
      leaf_ext u 3 root va _ (omega arith) (here ∙ sym (page_number-align_down virt))

  unmapped_here :
      (va : ℕ) → page_number va ≡ page_number virt → vmm_translate vmm' va t ≡ some (no_page, t)
  unmapped_here va here =
      let gone : is_present (leaf t 3 root va) ≡ false =
        ap is_present (same_page t va here) ∙ m.absent in
      vmm_translate-leaf m.tree vmm' va unmapped_pml4 ∙ (unfold translation in rw gone refl)

-- `vmm_unmap` on a well-formed manager, in full. It never faults, leaves a well-formed manager, whose
-- counter is thus again the number of mapped pages, and takes and gives back no page of the
-- allocator. It fails, and changes nothing, when the page of the address is not mapped, and otherwise
-- succeeds and counts one page less. After it no address of the page translates, and the translations
-- of all other pages stay.
pub vmm_unmap_lem :
    {vmm : Vmm} {s : State} (virt : ℕ)
    → IsManager vmm s
    → (st : Status) × (vmm' : Vmm) × (t : State) × (vmm_unmap vmm virt s ≡ some ((st, vmm'), t))
      × IsManager vmm' t
      × (t.pmm ≡ s.pmm)
      × (((st ≡ failure) × (vmm_is_mapped vmm virt s ≡ some (false, s)) × (vmm' ≡ vmm) × (t ≡ s))
          ⊎ ((st ≡ success) × (vmm_is_mapped vmm virt s ≡ some (true, s)) × (vmm' ≡ uncounted vmm)))
      × ((va : ℕ) → page_number va ≡ page_number virt → vmm_translate vmm' va t ≡ some (no_page, t))
      × ((va b : ℕ)
          → page_number va ≢ page_number virt
          → vmm_translate vmm va s ≡ some (b, s)
          → vmm_translate vmm' va t ≡ some (b, t))
unfolding vmm_unmap
vmm_unmap_lem {vmm} {s} virt w =
    let (st, vmm', t, runs, m) = unmap-Unmaps w.tree vmm (align_down virt page_size) w.pml4_at in
    let at' = unmapped_pml4 virt m w.pml4_at in
    let is_mapped : vmm_is_mapped vmm virt s
        ≡ some (is_present (leaf s 3 w.root (align_down virt page_size)), s) =
      vmm_is_mapped-leaf w.tree vmm virt w.pml4_at
      ∙ ap (λ e. some (is_present e, s)) (same_page virt m w.pml4_at s virt refl) in
    (
      st,
      vmm',
      t,
      if_null-some vmm.pml4 _ _ s w.pml4_at ∙ runs,
      record {
        role = w.role;
        root = w.root;
        tree = m.tree;
        pml4_at = at';
        counted = unmapped_count virt m w.pml4_at w.counted;
      },
      m.pmm_same,
      elim m.outcome [
        | inl (e, f, g) ↦ inl (
          e,
          is_mapped
              ∙ ap (λ b. some (b, s))
                  (ap (λ u. is_present (leaf u 3 w.root (align_down virt page_size))) (sym g)
                    ∙ m.absent),
          f,
          g,
        )
        | inr (e, f, there) ↦ inr (e, is_mapped ∙ ap (λ b. some (b, s)) there, f)
      ],
      unmapped_here virt m w.pml4_at,
      λ va b ne old.
          translate-same vmm vmm' va b w.tree m.tree w.pml4_at at'
            (m.others va (λ e. ne (e ∙ page_number-align_down virt))) old,
    )
