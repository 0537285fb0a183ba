-- ===== src/Vmm/MapRange.antt =====
-- `vmm_map_range` of vmm/vmm.c.
use os_kernel.Base.{
  ℕ, zero, suc, ◌+◌, ◌-◌, ◌*◌, ◌/◌, ◌%◌, ◌^◌, ◌≤◌, ◌<◌, ◌≡◌, ◌⊎◌, inl, inr, refl, arith, u64,
  Bool-cases, ◌==◌, ==_iff, ==→ne, some, Option, ap, ◌∙◌, bit_and, sym,
}
use os_kernel.Types.{page_size}
use os_kernel.Pmm.{State, ◌>>=◌}
use os_kernel.Pmm.Alloc.{IsFull}
use os_kernel.Vmm.{
  Vmm, Status, success, failure, pte_addr_mask, vmm_translate, map_range_loop, vmm_map_range,
}
use os_kernel.Vmm.Translate.{IsManager}
use os_kernel.Vmm.Pages.{page_number}
use os_kernel.Vmm.Map.{vmm_map_lem}

-- the address of `virt + i * PAGE_SIZE`, where it does not wrap round
abbrev pub AddressFits : ℕ → ℕ → ℕ → Type 0
AddressFits virt i width = virt + i * page_size ≤ 2 ^ width

-- The outcome of mapping the pages `i` to `last` of the range; the pages `i` to `k` are done.
pub record RangeMapped (virt phys i last : ℕ) (vmm : Vmm) (s : State) (st : Status) (vmm' : Vmm)
    (t : State) (k : ℕ) : Type 0 where
  pub manager : IsManager vmm' t
  pub from : i ≤ k
  pub to : k ≤ last
  pub outcome : ((st ≡ success) × (k ≡ last)) ⊎ ((st ≡ failure) × (k < last) × IsFull t)
  pub inside :
      (va : ℕ)
      → page_number virt + i ≤ page_number va
      → page_number va < page_number virt + k
      → vmm_translate vmm' va t
        ≡ some (phys / 4096 * 4096 + (page_number va - page_number virt) * 4096 + va % 4096, t)
  pub outside :
      (va b : ℕ)
      → (page_number va < page_number virt + i) ⊎ (page_number virt + k ≤ page_number va)
      → vmm_translate vmm va s ≡ some (b, s)
      → vmm_translate vmm' va t ≡ some (b, t)

-- Within the range the page numbers count up.
pub page_at :
    (virt i last : ℕ)
    → i < last
    → AddressFits virt last 48
    → page_number (u64 (virt + i * page_size)) ≡ page_number virt + i
page_at virt i last lt fits = omega arith

module _ (virt phys flags : ℕ) (small : flags < 2 ^ 64)
    (no_addr : bit_and flags pte_addr_mask ≡ 0) where
  abbrev MapsRange : ℕ → ℕ → Vmm → State → Option ((Status × Vmm) × State) → Type 0
  MapsRange i last vmm s r =
      (st : Status) × (vmm' : Vmm) × (t : State) × (k : ℕ) × (r ≡ some ((st, vmm'), t))
      × RangeMapped virt phys i last vmm s st vmm' t k

  map_range_loop-MapsRange :
      (left i last : ℕ) {vmm : Vmm} {s : State}
      → i + left ≡ last
      → AddressFits virt last 48
      → AddressFits phys last 52
      → IsManager vmm s
      → MapsRange i last vmm s (map_range_loop left i vmm virt phys flags s)
  unfolding map_range_loop
  map_range_loop-MapsRange zero i last {vmm} {s} e fv fp w = (
    success,
    vmm,
    s,
    i,
    refl,
    record {
      manager = w;
      from = omega arith;
      to = omega arith;
      outcome = inl (refl, omega arith);
      inside = λ va lo hi. absurd (omega arith);
      outside = λ va b h old. old;
    },
  )
  map_range_loop-MapsRange (suc left) i last {vmm} {s} e fv fp w =
      let lt : i < last = omega arith in
      let here = page_at virt i last lt fv in
      let (st, vmm1, t1, runs, w1, full, others, at, _) =
        vmm_map_lem (u64 (virt + i * page_size)) (u64 (phys + i * page_size)) flags w (omega arith)
          small no_addr in
      elim (Status-cases st) [
        | inr failed ↦ (
          failure,
          vmm1,
          t1,
          i,
          rw (runs, ◌>>=◌, failed) refl,
          record {
            manager = w1;
            from = omega arith;
            to = omega arith;
            outcome = inr (refl, lt, full failed);
            inside = λ va lo hi. absurd (omega arith);
            outside = λ va b h old. others va b (inl failed) old;
          },
        )
        | inl done ↦
            let (st', vmm', t, k, runs', m) =
              map_range_loop-MapsRange left (i + 1) last (omega arith) fv fp w1 in
            (
              st',
              vmm',
              t,
              k,
              rw (runs, ◌>>=◌, done) runs',
              record {
                manager = m.manager;
                from = omega (arith, m.from);
                to = m.to;
                outcome = m.outcome;
                inside = λ va lo hi. elim (Bool-cases (page_number va == page_number virt + i)) [
                  | inr later ↦ m.inside va (omega (arith, ==→ne _ _ later)) hi
                  | inl now ↦
                      let is : page_number va ≡ page_number virt + i = (==_iff _ _).0 now in
                      m.outside va _ (inl (omega (arith, is))) (
                        (at done va (is ∙ sym here)).0 ∙ ap (λ b. some (b, t1)) (omega (arith, is)))
                ];
                outside = λ va b h old.
                    m.outside va b (ground arith)
                      (others va b (inr (λ same. absurd (ground (arith, m.from)))) old);
              },
            )
      ]
    where
      Status-cases : (st : Status) → (st ≡ success) ⊎ (st ≡ failure)
      Status-cases success = inl refl
      Status-cases failure = inr refl

-- `vmm_map_range` on a well-formed manager, for ranges that do not leave the 48-bit address space, frames
-- below 2 ^ 52 and flags outside the address field: it ends without a fault and leaves a well-formed
-- manager. The first `k` pages of the range translate to the frames, in their order, and all other
-- pages as before. On success `k` is the number of pages asked for; it fails only when the allocator has no
-- free page, with the pages done so far left mapped.
pub vmm_map_range_lem :
    {vmm : Vmm} {s : State} (virt phys pages flags : ℕ)
    → IsManager vmm s
    → virt + pages * page_size ≤ 2 ^ 48
    → phys + pages * page_size ≤ 2 ^ 52
    → flags < 2 ^ 64
    → bit_and flags pte_addr_mask ≡ 0
    → (st : Status) × (vmm' : Vmm) × (t : State) × (k : ℕ) × (vmm_map_range vmm virt phys pages
          flags s
        ≡ some ((st, vmm'), t))
      × IsManager vmm' t
      × (((st ≡ success) × (k ≡ pages)) ⊎ ((st ≡ failure) × (k < pages) × IsFull t))
      × ((va : ℕ)
          → page_number virt ≤ page_number va
          → page_number va < page_number virt + k
          → vmm_translate vmm' va t
            ≡ some (phys / 4096 * 4096 + (page_number va - page_number virt) * 4096 + va % 4096, t))
      × ((va b : ℕ)
          → (page_number va < page_number virt) ⊎ (page_number virt + k ≤ page_number va)
          → vmm_translate vmm va s ≡ some (b, s)
          → vmm_translate vmm' va t ≡ some (b, t))
unfolding vmm_map_range
vmm_map_range_lem virt phys pages flags w fv fp small no_addr =
    let (st, vmm', t, k, runs, m) =
      map_range_loop-MapsRange virt phys flags small no_addr pages 0 pages (omega arith) fv fp w in
    (
      st,
      vmm',
      t,
      k,
      runs,
      m.manager,
      m.outcome,
      λ va lo hi. m.inside va (omega arith) hi,
      λ va b h old. m.outside va b (ground arith) old,
    )
