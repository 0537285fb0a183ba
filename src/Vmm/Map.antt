-- ===== src/Vmm/Map.antt =====
-- `vmm_map`, from the page directory up to the whole function.
use os_kernel.Base.{
  ℕ, ◌+◌, ◌*◌, ◌/◌, ◌%◌, ◌^◌, ◌<◌, ◌≡◌, ◌≢◌, ◌⊎◌, inl, inr, arith, true, Bool-cases, ◌==◌, ==_iff,
  ==→ne, some, ap, ◌∙◌, bit_and, bit_or, sym,
}
use os_kernel.Base.Fields.{bit_and_low}
use os_kernel.Types.{page_size, align_down}
use os_kernel.Types.Align.{align_down_page}
use os_kernel.Pmm.{State}
use os_kernel.Pmm.Alloc.{IsFull}
use os_kernel.Vmm.{
  Vmm, Status, success, failure, pte_addr_mask, pte_present, is_present, page_offset, map_pml4,
  vmm_map, vmm_translate,
}
use os_kernel.Vmm.Entry.{make_entry, is_present-make_entry}
use os_kernel.Vmm.Tree.{Role, prefix, leaf}
use os_kernel.Vmm.Leaf.{leaf_ext}
use os_kernel.Vmm.Count.{mapped_pages, mapped_pages-same, mapped_pages-one_more, mapped_pages-le}
use os_kernel.Vmm.Translate.{IsManager, translation, if_null-some, vmm_translate-leaf}
use os_kernel.Vmm.Print.{entry_flags}
use os_kernel.Vmm.Flags.{page_flags, page_flags-leaf, entry_flags-make_entry}
use os_kernel.Vmm.Mapped.{Mapped}
use os_kernel.Vmm.Levels.{map_pml4-Maps}
use os_kernel.Vmm.Pages.{
  page_number, page_number-align_down, pml4-counted, translate-same, flags-same,
  translation-make_entry,
}

-- What the composed outcome says of the translations.
module _ {role : Role} {root : ℕ} {s t : State} {vmm vmm' : Vmm} {st : Status} (virt phys flags : ℕ)
    (m : Mapped role root s 3 root
      (align_down virt page_size)
      (align_down phys page_size)
      flags
      vmm
      st
      vmm'
      t)
    (at : vmm.pml4 ≡ some (root * 4096)) where
  pub pml4_after : vmm'.pml4 ≡ some (root * 4096)
  pml4_after = elim m.outcome [
    | inl (e, full, f, l) ↦ ap (λ v. v.pml4) f ∙ at
    | inr (e, f, l) ↦ ap (λ v. v.pml4) f ∙ pml4-counted _ vmm ∙ at
  ]

  counted_after : vmm.mapped ≡ mapped_pages s root → vmm'.mapped ≡ mapped_pages t root
  counted_after before = elim m.outcome [
    | inl (e, full, f, l) ↦
        ap (λ v. v.mapped) f
        ∙ before
        ∙ sym (mapped_pages-same s t root _ m.others (ap is_present l))
    | inr (e, f, l) ↦ elim (Bool-cases (is_present (leaf s 3 root (align_down virt page_size)))) [
      | inl there ↦
          ap (λ v. v.mapped) f
          ∙ rw there before
          ∙ sym (
              mapped_pages-same s t root _ m.others (
                ap is_present l
                ∙ is_present-make_entry (align_down phys page_size) flags
                ∙ sym there))
      | inr absent ↦
          let more =
            mapped_pages-one_more s t root _ m.others absent
              (ap is_present l ∙ is_present-make_entry (align_down phys page_size) flags) in
          ap (λ v. v.mapped) f ∙ rw absent (omega (arith, before, more, mapped_pages-le s root))
    ]
  ]

  IsFull-outcome : st ≡ failure → IsFull t
  IsFull-outcome failed = elim m.outcome [ inl (_, full, _, _) ↦ full | inr (e, _, _) ↦ cc ]

  leaf_elsewhere :
      (va : ℕ)
      → (st ≡ failure) ⊎ (page_number va ≢ page_number virt)
      → leaf t 3 root va ≡ leaf s 3 root va
  leaf_elsewhere va h = elim (Bool-cases (page_number va == page_number virt)) [
    | inr other ↦ m.others va (λ e. ==→ne _ _ other (e ∙ page_number-align_down virt))
    | inl here ↦
        let e : prefix 0 va ≡ prefix 0 (align_down virt page_size) =
          (==_iff _ _).0 here ∙ sym (page_number-align_down virt) in
        leaf_ext t 3 root va _ (omega arith) e
        ∙ unchanged h here
        ∙ sym (leaf_ext s 3 root va _ (omega arith) e)
  ]
    where
      unchanged :
          (st ≡ failure) ⊎ (page_number va ≢ page_number virt)
          → (page_number va == page_number virt) ≡ true
          → leaf t 3 root (align_down virt page_size) ≡ leaf s 3 root (align_down virt page_size)
      unchanged (inr ne) here = absurd (ne ((==_iff _ _).0 here))
      unchanged (inl failed) here = elim m.outcome [ inl (_, _, _, l) ↦ l | inr (e, _, _) ↦ cc ]

  pub leaf_here :
      (va : ℕ)
      → st ≡ success
      → page_number va ≡ page_number virt
      → leaf t 3 root va ≡ make_entry (align_down phys page_size) flags
  leaf_here va done here =
      leaf_ext t 3 root va _ (omega arith) (here ∙ sym (page_number-align_down virt))
      ∙ elim m.outcome [ inl (e, _, _, _) ↦ cc | inr (_, _, l) ↦ l ]

-- `vmm_map` never faults, and its outcome is that of the levels.
pub vmm_map-Mapped :
    {vmm : Vmm} {s : State} (virt phys flags : ℕ) (w : IsManager vmm s)
    → flags < 2 ^ 64
    → (st : Status) × (vmm' : Vmm) × (t : State) × (vmm_map vmm virt phys flags s
        ≡ some ((st, vmm'), t))
      × Mapped w.role w.root s 3 w.root
          (align_down virt page_size)
          (align_down phys page_size)
          flags
          vmm
          st
          vmm'
          t
vmm_map-Mapped {vmm} {s} virt phys flags w small =
    let (st, vmm', t, runs, m) =
      map_pml4-Maps w.root (align_down virt page_size) (align_down phys page_size) flags small vmm
        w.tree in
    (
      st,
      vmm',
      t,
      unfold vmm_map in
          (if_null-some vmm.pml4 _ _ s w.pml4_at
            ∙ ap
                (λ o.
                  map_pml4 vmm o (align_down virt page_size) (align_down phys page_size) flags s)
                w.pml4_at
            ∙ runs),
      m,
    )

-- `vmm_map` on a well-formed manager, in full. With a frame below 2 ^ 52 and flags outside the address
-- field it never faults and leaves a well-formed manager. The translations and the flags of all other
-- pages stay. On success the addresses of the page translate to the frame plus their offset, and its
-- flags are those asked for with the present bit; on failure the allocator has no free page, and the
-- translations and the flags of the page stay too.
pub vmm_map_lem :
    {vmm : Vmm} {s : State} (virt phys flags : ℕ)
    → IsManager vmm s
    → phys < 2 ^ 52
    → flags < 2 ^ 64
    → bit_and flags pte_addr_mask ≡ 0
    → (st : Status) × (vmm' : Vmm) × (t : State) × (vmm_map vmm virt phys flags s
        ≡ some ((st, vmm'), t))
      × IsManager vmm' t
      × (st ≡ failure → IsFull t)
      × ((va b : ℕ)
          → (st ≡ failure) ⊎ (page_number va ≢ page_number virt)
          → vmm_translate vmm va s ≡ some (b, s)
          → vmm_translate vmm' va t ≡ some (b, t))
      × (st ≡ success
          → (va : ℕ) → page_number va ≡ page_number virt
          → (vmm_translate vmm' va t ≡ some (phys / 4096 * 4096 + va % 4096, t))
            × (page_flags vmm' va t ≡ some (bit_or flags pte_present, t)))
      × ((va b : ℕ)
          → (st ≡ failure) ⊎ (page_number va ≢ page_number virt)
          → page_flags vmm va s ≡ some (b, s)
          → page_flags vmm' va t ≡ some (b, t))
vmm_map_lem {vmm} {s} virt phys flags w small_phys small no_addr =
    let (st, vmm', t, runs, m) = vmm_map-Mapped virt phys flags w small in
    let at' = pml4_after virt phys flags m w.pml4_at in
    (
      st,
      vmm',
      t,
      runs,
      record {
        role = m.role';
        root = w.root;
        tree = m.tree;
        pml4_at = at';
        counted = counted_after virt phys flags m w.pml4_at w.counted;
      },
      IsFull-outcome virt phys flags m w.pml4_at,
      λ va b h old.
          translate-same vmm vmm' va b w.tree m.tree w.pml4_at at'
            (leaf_elsewhere virt phys flags m w.pml4_at va h) old,
      λ done va here.
          let written = leaf_here virt phys flags m w.pml4_at va done here in
          (
            vmm_translate-leaf m.tree vmm' va at'
                ∙ ap (λ z. some (z, t))
                    (ap (λ e. translation e (page_offset va)) written
                      ∙ translation-make_entry (align_down phys page_size) flags (page_offset va)
                          no_addr (omega (arith, bit_and_low 12 va))
                      ∙ omega (arith, bit_and_low 12 va, align_down_page phys)),
            page_flags-leaf m.tree vmm' va at'
                ∙ ap (λ z. some (z, t))
                    (ap entry_flags written
                      ∙ entry_flags-make_entry (align_down phys page_size) flags small no_addr),
          ),
      λ va b h old.
          flags-same vmm vmm' va b w.tree m.tree w.pml4_at at'
            (leaf_elsewhere virt phys flags m w.pml4_at va h) old,
    )
