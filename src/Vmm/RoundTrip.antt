-- ===== src/Vmm/RoundTrip.antt =====
-- `vmm_unmap` of vmm/vmm.c after `vmm_map`.
use mathlib.Core.Path.{subst}
use os_kernel.Base.{
  ℕ, ◌+◌, ◌*◌, ◌/◌, ◌%◌, ◌^◌, ◌<◌, ◌≡◌, ◌≢◌, ◌⊎◌, inl, inr, refl, arith, true, false, Bool-cases,
  Option, ◌==◌, ==_iff, ==→ne, ne→==, some, ap, ◌∙◌, bit_and, sym, u64,
}
use os_kernel.Types.{page_size, align_down}
use os_kernel.Pmm.{State, ◌>>=◌, no_page}
use os_kernel.Pmm.Alloc.{IsFull}
use os_kernel.Vmm.{
  Vmm, Status, success, failure, pte_addr_mask, is_present, vmm_map, vmm_unmap, vmm_translate,
  vmm_is_mapped,
}
use os_kernel.Vmm.Tree.{leaf}
use os_kernel.Vmm.Leaf.{leaf_ext}
use os_kernel.Vmm.Count.{mapped_pages-le}
use os_kernel.Vmm.Translate.{IsManager, translation, vmm_translate-leaf}
use os_kernel.Vmm.Pages.{page_number, page_number-align_down}
use os_kernel.Vmm.Map.{vmm_map-Mapped, vmm_map_lem}
use os_kernel.Vmm.Cleared.{uncounted}
use os_kernel.Vmm.Unmap.{vmm_is_mapped-leaf, vmm_unmap_lem}

same_result :
    {A : Type 0} {r : Option (A × State)} {x y : A} {t u : State}
    → r ≡ some (x, t)
    → r ≡ some (y, u)
    → (x ≡ y) × (t ≡ u)
same_result p q = (cc, cc)

failure-ne-success : ¬ (failure ≡ success)
failure-ne-success e = cc e

true-ne-false : ¬ (true ≡ false)
true-ne-false e = cc e

-- `vmm_unmap` of `virt` leads from `vmm'` and `t` back to the counter and the translations of `vmm`
-- and `s`, and leaves the allocator alone.
abbrev pub Undone : Vmm → State → ℕ → Vmm → State → Type 0
Undone vmm s virt vmm' t =
    (vmm'' : Vmm) × (u : State) × (vmm_unmap vmm' virt t ≡ some ((success, vmm''), u))
    × IsManager vmm'' u
    × (vmm''.mapped ≡ vmm.mapped)
    × (u.pmm ≡ t.pmm)
    × ((va b : ℕ) → vmm_translate vmm va s ≡ some (b, s) → vmm_translate vmm'' va u ≡ some (b, u))

module _ {vmm vmm' : Vmm} {s t : State} (virt phys flags : ℕ) (w : IsManager vmm s)
    (small : flags < 2 ^ 64) (absent : vmm_is_mapped vmm virt s ≡ some (false, s))
    (runs : vmm_map vmm virt phys flags s ≡ some ((success, vmm'), t)) where
  leaf_absent : is_present (leaf s 3 w.root virt) ≡ false
  leaf_absent = (same_result (vmm_is_mapped-leaf w.tree vmm virt w.pml4_at) absent).0

  page_absent : is_present (leaf s 3 w.root (align_down virt page_size)) ≡ false
  page_absent =
      ap is_present (
        leaf_ext s 3 w.root (align_down virt page_size) virt (omega arith)
          (page_number-align_down virt))
      ∙ leaf_absent

  -- A page that was not mapped is counted.
  vmm_map-mapped : vmm'.mapped ≡ u64 (vmm.mapped + 1)
  vmm_map-mapped =
      let (st, vmm1, t1, started, m) = vmm_map-Mapped virt phys flags w small in
      let same = same_result started runs in
      elim m.outcome [
        | inl (e, full, f, l) ↦ absurd (failure-ne-success (sym e ∙ ap (λ r. r.0) (same.0)))
        | inr (e, f, l) ↦
            sym (ap (λ r. r.1.mapped) (same.0)) ∙ ap (λ v. v.mapped) f ∙ rw page_absent refl
      ]

  -- Before, no address of the page translates.
  untranslated :
      (va : ℕ) → page_number va ≡ page_number virt → vmm_translate vmm va s ≡ some (no_page, s)
  untranslated va here =
      let gone : is_present (leaf s 3 w.root va) ≡ false =
        ap is_present (leaf_ext s 3 w.root va virt (omega arith) here) ∙ leaf_absent in
      vmm_translate-leaf w.tree vmm va w.pml4_at ∙ (unfold translation in rw gone refl)

  module _ (small_phys : phys < 2 ^ 52) (no_addr : bit_and flags pte_addr_mask ≡ 0) where
    abbrev Between : Vmm → State → Type 0
    Between v z =
        IsManager v z
        × ((va b : ℕ)
            → page_number va ≢ page_number virt
            → vmm_translate vmm va s ≡ some (b, s)
            → vmm_translate v va z ≡ some (b, z))
        × (vmm_is_mapped v virt z ≡ some (true, z))

    between : Between vmm' t
    between =
        let (st1, vmm1, t1, runs1, w1, _, others1, here1, _) =
          vmm_map_lem virt phys flags w small_phys small no_addr in
        let same = same_result runs1 runs in
        let done : st1 ≡ success = ap (λ r. r.0) (same.0) in
        let ended : vmm1 ≡ vmm' = ap (λ r. r.1) (same.0) in
        let there : vmm_is_mapped vmm1 virt t1 ≡ some (true, t1) =
          unfold vmm_is_mapped in
          rw
            (
              (here1 done virt refl).0,
              ◌>>=◌,
              ne→== (phys / 4096 * 4096 + virt % 4096) no_page (omega arith),
            )
            refl in
        subst (λ v. Between v t) ended
          (subst (Between vmm1) (same.1) (w1, λ va b ne. others1 va b (inr ne), there))

    unmapped : Undone vmm s virt vmm' t
    unmapped =
        let (w', others', there) = between in
        let (st, vmm'', u, runs2, w'', same_pmm, outcome, gone, others'') = vmm_unmap_lem virt w' in
        let (done, less) : (st ≡ success) × (vmm'' ≡ uncounted vmm') = elim outcome [
          | inl (_, away, _, _) ↦ absurd (true-ne-false ((same_result there away).0))
          | inr (e, _, f) ↦ (e, f)
        ] in
        (
          vmm'',
          u,
          runs2 ∙ ap (λ r. some ((r, vmm''), u)) done,
          w'',
          ap (λ v. v.mapped) less
              ∙ omega (arith, vmm_map-mapped, w.counted, mapped_pages-le s w.root),
          same_pmm,
          λ va b old. elim (Bool-cases (page_number va == page_number virt)) [
            | inl here ↦
                let here' = (==_iff _ _).0 here in
                gone va here' ∙ ap (λ a. some (a, u)) ((same_result (untranslated va here') old).0)
            | inr other ↦ let ne = ==→ne _ _ other in others'' va b ne (others' va b ne old)
          ],
        )

-- On a well-formed manager, `vmm_map` of a page that is not mapped, with a frame below 2 ^ 52 and flags
-- outside the address field, either fails, and then no page is free, or `vmm_unmap` undoes it: that
-- succeeds, and the manager is well-formed, its counter and all translations are those before
-- `vmm_map`, and the allocator is as `vmm_map` left it, the tables being kept.
pub vmm_unmap-vmm_map :
    {vmm : Vmm} {s : State} (virt phys flags : ℕ)
    → IsManager vmm s
    → phys < 2 ^ 52
    → flags < 2 ^ 64
    → bit_and flags pte_addr_mask ≡ 0
    → vmm_is_mapped vmm virt s ≡ some (false, s)
    → (st : Status) × (vmm' : Vmm) × (t : State) × (vmm_map vmm virt phys flags s
        ≡ some ((st, vmm'), t))
      × (((st ≡ failure) × IsFull t) ⊎ ((st ≡ success) × Undone vmm s virt vmm' t))
vmm_unmap-vmm_map {vmm} {s} virt phys flags w small_phys small no_addr absent =
    let (st, vmm', t, runs, _, full, _, _, _) =
      vmm_map_lem virt phys flags w small_phys small no_addr in
    (st, vmm', t, runs, either st runs full)
  where
    either :
        (st : Status) {vmm' : Vmm} {t : State}
        → vmm_map vmm virt phys flags s ≡ some ((st, vmm'), t)
        → (st ≡ failure → IsFull t)
        → ((st ≡ failure) × IsFull t) ⊎ ((st ≡ success) × Undone vmm s virt vmm' t)
    either failure runs full = inl (refl, full refl)
    either success runs full =
        inr (refl, unmapped virt phys flags w small absent runs small_phys no_addr)
