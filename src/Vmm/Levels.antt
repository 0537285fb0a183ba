-- ===== src/Vmm/Levels.antt =====
-- `vmm_map` of vmm/vmm.c, level by level of the tables.
use os_kernel.Base.{
  ℕ, suc, ◌*◌, ◌/◌, ◌^◌, ◌<◌, ◌≡◌, inl, inr, refl, arith, some, none, Option, ap, ◌∙◌,
}
use os_kernel.Base.Fields.{bit_and_low}
use os_kernel.Pmm.{State, ◌>>=◌}
use os_kernel.Vmm.{
  Vmm, Status, failure, map_entry, map_pd, map_pdpt, map_pml4, get_or_create_table, table_flags,
}
use os_kernel.Vmm.Tree.{Role, IsTree, index, prefix, leaf}
use os_kernel.Vmm.Leaf.{prefix-step, index-lt}
use os_kernel.Vmm.Created.{Grown}
use os_kernel.Vmm.Grow.{get_or_create_table_lem}
use os_kernel.Vmm.Mapped.{Maps, map_entry-Maps, below-Maps, below_path, stopped-Mapped}

-- the role of a table behind an entry of `va`'s path
role_below :
    {role : Role} {root : ℕ} {s t : State} {p q : ℕ} (k va : ℕ)
    → k < 3
    → (g : Grown role root s p (index (suc k) va) k (prefix (suc (suc k)) va) t q)
    → g.role' q ≡ some (suc k, prefix (suc k) va)
role_below k va lt g = g.role_q ∙ ap (λ x. some (suc k, x)) (prefix-step (suc k) va (omega arith))

-- What each level does once its call of `get_or_create_table` has returned.
module _ (vmm : Vmm) (p va a flags : ℕ) (s t : State) (q : ℕ) where
  map_pd-goes :
      get_or_create_table (some (p * 4096)) (index 1 va) table_flags s ≡ some (some (q * 4096), t)
      → map_pd vmm (some (p * 4096)) va a flags s
        ≡ map_entry vmm (some (q * 4096)) (index 0 va) a flags t
  unfolding map_pd
  map_pd-goes e = rw (bit_and_low 9 (va / 2 ^ 21), e, ◌>>=◌, bit_and_low 9 (va / 2 ^ 12)) refl

  map_pdpt-goes :
      get_or_create_table (some (p * 4096)) (index 2 va) table_flags s ≡ some (some (q * 4096), t)
      → map_pdpt vmm (some (p * 4096)) va a flags s ≡ map_pd vmm (some (q * 4096)) va a flags t
  unfolding map_pdpt
  map_pdpt-goes e = rw (bit_and_low 9 (va / 2 ^ 30), e, ◌>>=◌) refl

  map_pml4-goes :
      get_or_create_table (some (p * 4096)) (index 3 va) table_flags s ≡ some (some (q * 4096), t)
      → map_pml4 vmm (some (p * 4096)) va a flags s ≡ map_pdpt vmm (some (q * 4096)) va a flags t
  unfolding map_pml4
  map_pml4-goes e = rw (bit_and_low 9 (va / 2 ^ 39), e, ◌>>=◌) refl

module _ (root va a flags : ℕ) (small : flags < 2 ^ 64) (vmm : Vmm) {role : Role} {s : State}
    (tree : IsTree role root s) (p : ℕ) where
  -- One level: the table below is found or linked in, or no page is left for it.
  level-Maps :
      (k : ℕ) (r : Option ((Status × Vmm) × State))
      → k < 3
      → role p ≡ some (suc (suc k), prefix (suc (suc k)) va)
      → leaf s 3 root va ≡ leaf s (suc k) p va
      → (get_or_create_table (some (p * 4096)) (index (suc k) va) table_flags s ≡ some (none, s)
          → r ≡ some ((failure, vmm), s))
      → ((q : ℕ) (t : State)
          → get_or_create_table (some (p * 4096)) (index (suc k) va) table_flags s
            ≡ some (some (q * 4096), t)
          → (role' : Role) → IsTree role' root t
          → role' q ≡ some (suc k, prefix (suc k) va)
          → leaf t 3 root va ≡ leaf t k q va
          → Maps root va a flags small vmm role' t k q r)
      → Maps root va a flags small vmm role s (suc k) p r
  level-Maps k r lt rp path stop go =
      elim (get_or_create_table_lem tree p (index (suc k) va) k (prefix (suc (suc k)) va) rp
        (index-lt (suc k) va)) [
          | inl (stops, full) ↦ (
            failure,
            vmm,
            s,
            stop stops,
            stopped-Mapped root va a flags small vmm tree (suc k) p full,
          )
          | inr (q, t1, goes, g) ↦
              let (st, vmm', t, runs, m) =
                go q t1 goes g.role' g.tree (role_below k va lt g)
                  (below_path root va a flags small vmm tree k p q t1 rp path g) in
              (
                st,
                vmm',
                t,
                runs,
                below-Maps root va a flags small vmm tree k p q t1 lt rp path g st vmm' t m,
              )
        ]

  map_pd-Maps :
      role p ≡ some (2, prefix 2 va)
      → leaf s 3 root va ≡ leaf s 1 p va
      → Maps root va a flags small vmm role s 1 p (map_pd vmm (some (p * 4096)) va a flags s)
  map_pd-Maps rp path =
      level-Maps 0 _ (omega arith) rp path
        (λ e. unfold map_pd in rw (bit_and_low 9 (va / 2 ^ 21), e, ◌>>=◌) refl)
        (λ q t e role' tree' rq path'.
          rw (map_pd-goes vmm p va a flags s t q e)
            (map_entry-Maps root va a flags small vmm tree' q rq path'))

module _ (root va a flags : ℕ) (small : flags < 2 ^ 64) (vmm : Vmm) {role : Role} {s : State}
    (tree : IsTree role root s) where
  map_pdpt-Maps :
      (p : ℕ)
      → role p ≡ some (3, prefix 3 va)
      → leaf s 3 root va ≡ leaf s 2 p va
      → Maps root va a flags small vmm role s 2 p (map_pdpt vmm (some (p * 4096)) va a flags s)
  map_pdpt-Maps p rp path =
      level-Maps root va a flags small vmm tree p 1 _ (omega arith) rp path
        (λ e. unfold map_pdpt in rw (bit_and_low 9 (va / 2 ^ 30), e, ◌>>=◌) refl)
        (λ q t e role' tree' rq path'.
          rw (map_pdpt-goes vmm p va a flags s t q e)
            (map_pd-Maps root va a flags small vmm tree' q rq path'))

module _ (root va a flags : ℕ) (small : flags < 2 ^ 64) (vmm : Vmm) {role : Role} {s : State}
    (tree : IsTree role root s) where
  pub map_pml4-Maps :
      Maps root va a flags small vmm role s 3 root (map_pml4 vmm (some (root * 4096)) va a flags s)
  map_pml4-Maps =
      level-Maps root va a flags small vmm tree root 2 _ (omega arith)
        (tree.top ∙ ap (λ x. some (4, x)) (omega arith)) refl
        (λ e. unfold map_pml4 in rw (bit_and_low 9 (va / 2 ^ 39), e, ◌>>=◌) refl)
        (λ q t e role' tree' rq path'.
          rw (map_pml4-goes vmm root va a flags s t q e)
            (map_pdpt-Maps root va a flags small vmm tree' q rq path'))
