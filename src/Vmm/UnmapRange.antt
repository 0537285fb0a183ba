-- ===== src/Vmm/UnmapRange.antt =====
-- `vmm_unmap_range` of vmm/vmm.c.
use os_kernel.Base.{
  ℕ, zero, suc, ◌+◌, ◌*◌, ◌^◌, ◌≤◌, ◌<◌, ◌≡◌, ◌⊎◌, inl, inr, refl, arith, u64, Bool-cases, ◌==◌,
  ==_iff, ==→ne, some, ◌∙◌, sym,
}
use os_kernel.Types.{page_size}
use os_kernel.Pmm.{State, ◌>>=◌, no_page}
use os_kernel.Vmm.{Vmm, success, vmm_translate, unmap_range_loop, vmm_unmap_range}
use os_kernel.Vmm.Translate.{IsManager}
use os_kernel.Vmm.Pages.{page_number}
use os_kernel.Vmm.Unmap.{vmm_unmap_lem}
use os_kernel.Vmm.MapRange.{AddressFits, page_at}

-- The outcome of unmapping the pages `i` to `last` of the range.
record RangeUnmapped (virt i last : ℕ) (vmm : Vmm) (s : State) (vmm' : Vmm) (t : State)
    : Type 0 where
  manager : IsManager vmm' t
  pmm_same : t.pmm ≡ s.pmm
  inside :
      (va : ℕ)
      → page_number virt + i ≤ page_number va
      → page_number va < page_number virt + last
      → vmm_translate vmm' va t ≡ some (no_page, t)
  outside :
      (va b : ℕ)
      → (page_number va < page_number virt + i) ⊎ (page_number virt + last ≤ page_number va)
      → vmm_translate vmm va s ≡ some (b, s)
      → vmm_translate vmm' va t ≡ some (b, t)

unmap_range_loop-Unmaps :
    (virt left i last : ℕ) {vmm : Vmm} {s : State}
    → i + left ≡ last
    → AddressFits virt last 48
    → IsManager vmm s
    → (vmm' : Vmm) × (t : State) × (unmap_range_loop left i vmm virt s ≡ some ((success, vmm'), t))
      × RangeUnmapped virt i last vmm s vmm' t
unfolding unmap_range_loop
unmap_range_loop-Unmaps virt zero i last {vmm} {s} e fv w = (
  vmm,
  s,
  refl,
  record {
    manager = w;
    pmm_same = refl;
    inside = λ va lo hi. absurd (omega arith);
    outside = λ va b h old. old;
  },
)
unmap_range_loop-Unmaps virt (suc left) i last {vmm} {s} e fv w =
    let here = page_at virt i last (omega arith) fv in
    let (st, vmm1, t1, runs, w1, same, _, gone, others) =
      vmm_unmap_lem (u64 (virt + i * page_size)) w in
    let (vmm', t, runs', m) = unmap_range_loop-Unmaps virt left (i + 1) last (omega arith) fv w1 in
    (
      vmm',
      t,
      rw (runs, ◌>>=◌) runs',
      record {
        manager = m.manager;
        pmm_same = m.pmm_same ∙ same;
        inside = λ va lo hi. elim (Bool-cases (page_number va == page_number virt + i)) [
          | inr later ↦ m.inside va (omega (arith, ==→ne _ _ later)) hi
          | inl now ↦
              let is : page_number va ≡ page_number virt + i = (==_iff _ _).0 now in
              m.outside va _ (inl (omega (arith, is))) (gone va (is ∙ sym here))
        ];
        outside = λ va b h old.
            m.outside va b (ground arith) (others va b (λ same. absurd (ground arith)) old);
      },
    )

-- `vmm_unmap_range` on a well-formed manager, for ranges that do not leave the 48-bit address space: it
-- reports success, whether the pages were mapped or not, leaves a well-formed manager and the allocator as
-- it was; no page of the range translates any more, and all other pages translate as before.
pub vmm_unmap_range_lem :
    {vmm : Vmm} {s : State} (virt pages : ℕ)
    → IsManager vmm s
    → virt + pages * page_size ≤ 2 ^ 48
    → (vmm' : Vmm) × (t : State) × (vmm_unmap_range vmm virt pages s ≡ some ((success, vmm'), t))
      × IsManager vmm' t
      × (t.pmm ≡ s.pmm)
      × ((va : ℕ)
          → page_number virt ≤ page_number va
          → page_number va < page_number virt + pages
          → vmm_translate vmm' va t ≡ some (no_page, t))
      × ((va b : ℕ)
          → (page_number va < page_number virt) ⊎ (page_number virt + pages ≤ page_number va)
          → vmm_translate vmm va s ≡ some (b, s)
          → vmm_translate vmm' va t ≡ some (b, t))
unfolding vmm_unmap_range
vmm_unmap_range_lem virt pages w fv =
    let (vmm', t, runs, m) = unmap_range_loop-Unmaps virt pages 0 pages (omega arith) fv w in
    (
      vmm',
      t,
      runs,
      m.manager,
      m.pmm_same,
      λ va lo hi. m.inside va (omega arith) hi,
      λ va b h old. m.outside va b (ground arith) old,
    )
