-- ===== src/Vmm/Cleared.antt =====
-- What `vmm_unmap` of vmm/vmm.c does to the tables.
use os_kernel.Base.{
  ℕ, zero, suc, ◌*◌, ◌/◌, ◌^◌, ◌<◌, ◌≡◌, ◌≢◌, ◌⊎◌, inl, inr, refl, arith, true, false, Bool-cases,
  some, Option, ap, ◌∙◌, bit_and, sub64,
}
use os_kernel.Base.Fields.{bit_and_low}
use os_kernel.Pmm.{State, ◌>>=◌, pmm_max_pages}
use os_kernel.Vmm.{
  Vmm, Status, success, failure, pte_addr_mask, is_present, pt_index, walk_table, clear_entry,
  unmap_entry,
}
use os_kernel.Vmm.Tree.{Role, IsTree, entry, index, prefix, leaf, last_table}
use os_kernel.Vmm.Leaf.{
  prefix-step, index-lt, is_present-zero, leaf-zero, leaf-present, leaf-absent, page-ne,
  page_of-mul,
}
use os_kernel.Vmm.Access.{
  written, load_entry-some, store_entry-some, entry-written_self, entry-written_ne,
}
use os_kernel.Vmm.Written.{written-IsTree, leaf-written_ne}
use os_kernel.Vmm.Translate.{WalkResult, walk_table_lem}

-- the manager after one page less is mapped
abbrev pub uncounted : Vmm → Vmm
uncounted vmm = record vmm { mapped = sub64 vmm.mapped 1 }

module _ {role : Role} {root : ℕ} {s : State} (tree : IsTree role root s) (va : ℕ) where
  -- Clearing the entry at the end of the walk leaves no entry for the address.
  leaf-cleared :
      (k p q : ℕ)
      → k < 4
      → role p ≡ some (suc k, prefix (suc k) va)
      → role q ≡ some (1, prefix 1 va)
      → q ≡ last_table s k p va
      → leaf (written s q (index 0 va) 0) k p va ≡ 0
  leaf-cleared zero p q lt rp rq e =
      let at : q ≡ p = e ∙ (unfold last_table in refl) in
      leaf-zero (written s q (index 0 va) 0) p va
      ∙ ap (λ z. entry (written s z (index 0 va) 0) p (index 0 va)) at
      ∙ entry-written_self s p (index 0 va) 0 (omega arith)
  leaf-cleared (suc k) p q lt rp rq e =
      elim (Bool-cases (is_present (entry s p (index (suc k) va)))) [
        | inr absent ↦ leaf-absent t k p va (ap is_present same ∙ absent)
        | inl there ↦
            let (q', at, rq') =
              tree.child p k _ (index (suc k) va) rp (index-lt (suc k) va) there in
            leaf-present t k p va (ap is_present same ∙ there)
            ∙ ap (λ z. leaf t k z va)
                (page_of-mul _ q' (ap (λ e. bit_and e pte_addr_mask) same ∙ at))
            ∙ leaf-cleared k q' q (omega arith)
                (rq' ∙ ap (λ x. some (suc k, x)) (prefix-step (suc k) va (omega arith))) rq
                (e ∙ (unfold last_table in ap (λ z. last_table s k z va) (page_of-mul _ q' at)))
      ]
    where
      t : State
      t = written s q (index 0 va) 0

      same : entry t p (index (suc k) va) ≡ entry s p (index (suc k) va)
      same =
          entry-written_ne s q (index 0 va) 0 p (index (suc k) va) (index-lt 0 va)
            (index-lt (suc k) va) (inl (page-ne role p q (suc (suc k)) 1 _ _ rp rq (omega arith)))

-- What `vmm_unmap` does to the tables, for an address of the page.
pub record Unmapped (role : Role) (root : ℕ) (s : State) (va : ℕ) (vmm : Vmm) (st : Status)
    (vmm' : Vmm) (t : State) : Type 0 where
  pub tree : IsTree role root t
  pub pmm_same : t.pmm ≡ s.pmm
  pub others : (va' : ℕ) → prefix 0 va' ≢ prefix 0 va → leaf t 3 root va' ≡ leaf s 3 root va'
  pub absent : is_present (leaf t 3 root va) ≡ false
  pub outcome :
      ((st ≡ failure) × (vmm' ≡ vmm) × (t ≡ s))
      ⊎ ((st ≡ success) × (vmm' ≡ uncounted vmm) × (is_present (leaf s 3 root va) ≡ true))

module _ {role : Role} {root : ℕ} {s : State} (tree : IsTree role root s) (vmm : Vmm) (va : ℕ) where
  abbrev Unmaps : Option ((Status × Vmm) × State) → Type 0
  Unmaps r =
      (st : Status) × (vmm' : Vmm) × (t : State) × (r ≡ some ((st, vmm'), t))
      × Unmapped role root s va vmm st vmm' t

  -- The page is not mapped.
  nothing-Unmaps :
      (r : Option ((Status × Vmm) × State))
      → r ≡ some ((failure, vmm), s)
      → is_present (leaf s 3 root va) ≡ false
      → Unmaps r
  nothing-Unmaps r e absent = (
    failure,
    vmm,
    s,
    e,
    record {
      tree = tree;
      pmm_same = refl;
      others = λ va' ne. refl;
      absent = absent;
      outcome = inl (refl, refl, refl);
    },
  )

  module _ (q : ℕ) (rq : role q ≡ some (1, prefix 1 va)) (e : q ≡ last_table s 3 root va)
      (l : leaf s 3 root va ≡ entry s q (index 0 va)) where
    q-lt : q < pmm_max_pages
    q-lt = (tree.used q _ _ rq).0

    unmap_entry-Unmaps : Unmaps (unmap_entry vmm (some (q * 4096)) (index 0 va) s)
    unfolding unmap_entry
    unmap_entry-Unmaps = elim (Bool-cases (is_present (entry s q (index 0 va)))) [
      | inr absent ↦
          nothing-Unmaps _
            (rw (load_entry-some s q (index 0 va) q-lt (index-lt 0 va), ◌>>=◌, absent) refl)
            (ap is_present l ∙ absent)
      | inl there ↦ (
        success,
        uncounted vmm,
        written s q (index 0 va) 0,
        rw (load_entry-some s q (index 0 va) q-lt (index-lt 0 va), ◌>>=◌, there)
            (unfold clear_entry in
              rw (store_entry-some s q (index 0 va) q-lt (index-lt 0 va) 0, ◌>>=◌) refl),
        record {
          tree = written-IsTree tree q _ (index 0 va) 0 rq (index-lt 0 va);
          pmm_same = refl;
          others = λ va' ne.
              leaf-written_ne tree q _ (index 0 va) 0 rq (index-lt 0 va) va'
                (λ f. ne (omega (arith, f, prefix-step 0 va (omega arith))));
          absent = is_present-zero _ (
              leaf-cleared tree va 3 root q (omega arith)
                (tree.top ∙ ap (λ x. some (4, x)) (omega arith)) rq e);
          outcome = inr (refl, refl, ap is_present l ∙ there);
        },
      )
    ]

  pub unmap-Unmaps :
      vmm.pml4 ≡ some (root * 4096)
      → Unmaps ((walk_table vmm va >>= λ pt. unmap_entry vmm pt (pt_index va)) s)
  unmap-Unmaps at_root = behind (walk_table_lem tree va vmm at_root)
    where
      behind :
          WalkResult tree va (walk_table vmm va s) (leaf s 3 root va) (last_table s 3 root va)
          → Unmaps ((walk_table vmm va >>= λ pt. unmap_entry vmm pt (pt_index va)) s)
      behind (inl (stops, l)) =
          nothing-Unmaps _ (rw (stops, ◌>>=◌) (unfold unmap_entry in refl)) (is_present-zero _ l)
      behind (inr (q, ends, rq, l, e)) =
          rw (ends, ◌>>=◌, bit_and_low 9 (va / 2 ^ 12)) (unmap_entry-Unmaps q rq e l)
