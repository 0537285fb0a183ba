-- ===== src/Vmm/Translate.antt =====
-- `walk_table` and `vmm_translate` of vmm/vmm.c on well-formed tables.
use os_kernel.Base.{
  ℕ, suc, ◌*◌, ◌/◌, ◌^◌, ◌<◌, ◌≡◌, ◌⊎◌, inl, inr, refl, arith, true, some, none, Option,
  if◌then◌else◌, ap, ◌∙◌, Bool-cases, bit_and, bit_or, sym,
}
use os_kernel.Base.Fields.{bit_and_low}
use os_kernel.Pmm.{State, M, ◌>>=◌, no_page, pmm_max_pages}
use os_kernel.Pmm.Alloc.{phys_to_virt-some}
use os_kernel.Vmm.{
  Vmm, pte_addr_mask, is_present, page_offset, pt_index, if_null, load_entry, walk_pd, walk_pdpt,
  walk_table, translate_entry, vmm_translate,
}
use os_kernel.Vmm.Tree.{Role, IsTree, entry, index, prefix, leaf, last_table}
use os_kernel.Vmm.Leaf.{
  prefix-step, index-lt, is_present-zero, leaf-present, leaf-absent, page_of-mul,
}
use os_kernel.Vmm.Access.{load_entry-some}
use os_kernel.Vmm.Count.{mapped_pages}

-- A manager whose PML4 is the root of well-formed tables, and whose counter is the number of pages
-- that they map.
pub record IsManager (vmm : Vmm) (s : State) : Type 0 where
  pub role : Role
  pub root : ℕ
  pub tree : IsTree role root s
  pub pml4_at : vmm.pml4 ≡ some (root * 4096)
  pub counted : vmm.mapped ≡ mapped_pages s root

module _ {role : Role} {root : ℕ} {s : State} (tree : IsTree role root s) (va : ℕ) where
  child_page :
      (k p : ℕ)
      → k < 3
      → role p ≡ some (suc (suc k), prefix (suc (suc k)) va)
      → is_present (entry s p (index (suc k) va)) ≡ true
      → (q : ℕ) × (bit_and (entry s p (index (suc k) va)) pte_addr_mask ≡ q * 4096)
        × (role q ≡ some (suc k, prefix (suc k) va))
        × (q < pmm_max_pages)
        × (leaf s (suc k) p va ≡ leaf s k q va)
        × (last_table s (suc k) p va ≡ last_table s k q va)
  child_page k p h rp there =
      let (q, at, rq) = tree.child p k _ (index (suc k) va) rp (index-lt (suc k) va) there in
      (
        q,
        at,
        rq ∙ ap (λ x. some (suc k, x)) (prefix-step (suc k) va (omega arith)),
        (tree.used q _ _ rq).0,
        leaf-present s k p va there ∙ ap (λ z. leaf s k z va) (page_of-mul _ q at),
        unfold last_table in ap (λ z. last_table s k z va) (page_of-mul _ q at),
      )

  -- Either the walk stops and the last-level entry counts as 0, or it ends in a page table.
  abbrev pub WalkResult : Option (Option ℕ × State) → ℕ → ℕ → Type 0
  WalkResult r l last =
      ((r ≡ some (none, s)) × (l ≡ 0))
      ⊎ ((q : ℕ) × (r ≡ some (some (q * 4096), s))
          × (role q ≡ some (1, prefix 1 va))
          × (l ≡ entry s q (index 0 va))
          × (q ≡ last))

  walk_pd_lem :
      (p : ℕ)
      → role p ≡ some (2, prefix 2 va)
      → WalkResult (walk_pd (some (p * 4096)) va s) (leaf s 1 p va) (last_table s 1 p va)
  walk_pd_lem p rp = elim (Bool-cases (is_present (entry s p (index 1 va)))) [
    | inr absent ↦ inl (
      unfold walk_pd in rw (bit_and_low 9 (va / 2 ^ 21), reads, ◌>>=◌, absent) refl,
      leaf-absent s 0 p va absent,
    )
    | inl there ↦
        let (q, at, rq, q_lt, down, ends) = child_page 0 p (omega arith) rp there in
        inr (
          q,
          unfold walk_pd in
              rw
                (
                  bit_and_low 9 (va / 2 ^ 21),
                  reads,
                  ◌>>=◌,
                  there,
                  at,
                  phys_to_virt-some (q * 4096) (omega arith),
                )
                refl,
          rq,
          down ∙ (unfold leaf in refl),
          sym (ends ∙ (unfold last_table in refl)),
        )
  ]
    where
      reads : load_entry (some (p * 4096)) (index 1 va) s ≡ some (entry s p (index 1 va), s)
      reads = load_entry-some s p (index 1 va) (tree.used p _ _ rp).0 (index-lt 1 va)

  walk_pdpt_lem :
      (p : ℕ)
      → role p ≡ some (3, prefix 3 va)
      → WalkResult (walk_pdpt (some (p * 4096)) va s) (leaf s 2 p va) (last_table s 2 p va)
  walk_pdpt_lem p rp = elim (Bool-cases (is_present (entry s p (index 2 va)))) [
    | inr absent ↦ inl (
      unfold walk_pdpt in rw (bit_and_low 9 (va / 2 ^ 30), reads, ◌>>=◌, absent) refl,
      leaf-absent s 1 p va absent,
    )
    | inl there ↦
        let (q, at, rq, q_lt, down, ends) = child_page 1 p (omega arith) rp there in
        let runs : walk_pdpt (some (p * 4096)) va s ≡ walk_pd (some (q * 4096)) va s =
          unfold walk_pdpt in
          rw
            (
              bit_and_low 9 (va / 2 ^ 30),
              reads,
              ◌>>=◌,
              there,
              at,
              phys_to_virt-some (q * 4096) (omega arith),
            )
            refl in
        rw (runs, down, ends) (walk_pd_lem q rq)
  ]
    where
      reads : load_entry (some (p * 4096)) (index 2 va) s ≡ some (entry s p (index 2 va), s)
      reads = load_entry-some s p (index 2 va) (tree.used p _ _ rp).0 (index-lt 2 va)

  pub walk_table_lem :
      (vmm : Vmm)
      → vmm.pml4 ≡ some (root * 4096)
      → WalkResult (walk_table vmm va s) (leaf s 3 root va) (last_table s 3 root va)
  walk_table_lem vmm at_root = elim (Bool-cases (is_present (entry s root (index 3 va)))) [
    | inr absent ↦ inl (
      unfold walk_table in rw (at_root, bit_and_low 9 (va / 2 ^ 39), reads, ◌>>=◌, absent) refl,
      leaf-absent s 2 root va absent,
    )
    | inl there ↦
        let (q, at, rq, q_lt, down, ends) = child_page 2 root (omega arith) top there in
        let runs : walk_table vmm va s ≡ walk_pdpt (some (q * 4096)) va s =
          unfold walk_table in
          rw
            (
              at_root,
              bit_and_low 9 (va / 2 ^ 39),
              reads,
              ◌>>=◌,
              there,
              at,
              phys_to_virt-some (q * 4096) (omega arith),
            )
            refl in
        rw (runs, down, ends) (walk_pdpt_lem q rq)
  ]
    where
      top : role root ≡ some (4, prefix 4 va)
      top = tree.top ∙ ap (λ x. some (4, x)) (omega arith)

      reads : load_entry (some (root * 4096)) (index 3 va) s ≡ some (entry s root (index 3 va), s)
      reads = load_entry-some s root (index 3 va) (tree.used root _ _ tree.top).0 (index-lt 3 va)

-- what a last-level entry says of the address with offset `off` in the page
unfoldable pub translation : ℕ → ℕ → ℕ
translation e off = if is_present e then bit_or (bit_and e pte_addr_mask) off else no_page

pub if_null-some :
    {A : Type 0} (o : Option ℕ) {a : ℕ} (stop rest : M A) (s : State)
    → o ≡ some a
    → if_null o stop rest s ≡ rest s
unfolding if_null
if_null-some none stop rest s e = cc
if_null-some (some x) stop rest s e = refl

translate_entry-some :
    (s : State) (q i off : ℕ)
    → q < pmm_max_pages
    → i < 512
    → translate_entry (some (q * 4096)) i off s ≡ some (translation (entry s q i) off, s)
unfolding translate_entry translation
translate_entry-some s q i off hq hi = elim (Bool-cases (is_present (entry s q i))) [
  | inl there ↦ rw (load_entry-some s q i hq hi, ◌>>=◌, there) refl
  | inr absent ↦ rw (load_entry-some s q i hq hi, ◌>>=◌, absent) refl
]

-- `vmm_translate` never faults, changes nothing, and returns the translation of the last-level entry.
pub vmm_translate-leaf :
    {role : Role} {root : ℕ} {s : State} (tree : IsTree role root s) (vmm : Vmm) (va : ℕ)
    → vmm.pml4 ≡ some (root * 4096)
    → vmm_translate vmm va s ≡ some (translation (leaf s 3 root va) (page_offset va), s)
vmm_translate-leaf {root} {s} tree vmm va at_root =
    unfold vmm_translate in
    (if_null-some vmm.pml4 _ _ s at_root ∙ behind (walk_table_lem tree va vmm at_root))
  where
    behind :
        WalkResult tree va (walk_table vmm va s) (leaf s 3 root va) (last_table s 3 root va)
        → (walk_table vmm va >>= λ pt. translate_entry pt (pt_index va) (page_offset va)) s
          ≡ some (translation (leaf s 3 root va) (page_offset va), s)
    behind (inl (stops, l)) =
        rw (stops, ◌>>=◌) (unfold translate_entry translation in rw (is_present-zero _ l) refl)
    behind (inr (q, ends, rq, l, _)) =
        rw (ends, ◌>>=◌, bit_and_low 9 (va / 2 ^ 12), l)
          (translate_entry-some s q (index 0 va) (page_offset va) (tree.used q _ _ rq).0
            (index-lt 0 va))
