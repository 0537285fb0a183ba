-- ===== src/Vmm/Grow.antt =====
-- `get_or_create_table` on well-formed tables.
use os_kernel.Base.{
  ℕ, suc, ◌*◌, ◌<◌, ◌≡◌, ◌⊎◌, inl, inr, refl, true, false, some, none, Option, Bool-cases,
}
use os_kernel.Pmm.{State, ◌>>=◌, no_page, pmm_max_pages, pmm_alloc}
use os_kernel.Pmm.Alloc.{IsFull, pmm_alloc_lem}
use os_kernel.Vmm.{table_flags, is_present, entry_table, create_table, get_or_create_table}
use os_kernel.Vmm.Tree.{Role, IsTree, entry}
use os_kernel.Vmm.Access.{load_entry-some}
use os_kernel.Vmm.Created.{Grown, entry_table-some, here, grown, create_table-some, grown-Grown}

module _ {role : Role} {root : ℕ} {s : State} (tree : IsTree role root s) (p0 i0 k0 pre0 : ℕ)
    (r0 : role p0 ≡ some (suc (suc k0), pre0)) (lt : i0 < 512) where
  at_p0 : p0 < pmm_max_pages
  at_p0 = here tree p0 i0 k0 pre0 r0 lt

  -- An entry that is present: nothing changes.
  same-Grown :
      is_present (entry s p0 i0) ≡ true
      → (q : ℕ) × (entry_table (some (p0 * 4096)) i0 s ≡ some (some (q * 4096), s))
        × Grown role root s p0 i0 k0 pre0 s q
  same-Grown there =
      let (q, at, rq) = tree.child p0 k0 pre0 i0 r0 lt there in
      (
        q,
        entry_table-some s p0 i0 q at_p0 lt (tree.used q _ _ rq).0 at,
        record {
          role' = role;
          tree = tree;
          keeps = λ p r e. e;
          same = λ p r i e h ne. refl;
          linked = there;
          points = at;
          role_q = rq;
          leaves = λ k' p pre' va e. refl;
        },
      )

  -- Either the allocator has no page and nothing changes, or the next table is there afterwards.
  pub get_or_create_table_lem :
      ((get_or_create_table (some (p0 * 4096)) i0 table_flags s ≡ some (none, s)) × IsFull s)
      ⊎ ((q : ℕ) × (t : State) × (get_or_create_table (some (p0 * 4096)) i0 table_flags s
            ≡ some (some (q * 4096), t))
          × Grown role root s p0 i0 k0 pre0 t q)
  get_or_create_table_lem = elim (Bool-cases (is_present (entry s p0 i0))) [
    | inl there ↦ let (q, runs, g) = same-Grown there in inr (q, s, found there runs, g)
    | inr absent ↦ elim (pmm_alloc_lem s tree.valid) [
      | inl (full, stops) ↦ inl (missing absent (exhausted stops), full)
      | inr (k, k_lt, free, _, got, valid) ↦ inr (
        k,
        grown tree p0 i0 k0 pre0 r0 lt absent k k_lt free valid,
        missing absent (create_table-some tree p0 i0 k0 pre0 r0 lt absent k k_lt free valid got),
        grown-Grown tree p0 i0 k0 pre0 r0 lt absent k k_lt free valid,
      )
    ]
  ]
    where
      found :
          {r : Option (Option ℕ × State)}
          → is_present (entry s p0 i0) ≡ true
          → entry_table (some (p0 * 4096)) i0 s ≡ r
          → get_or_create_table (some (p0 * 4096)) i0 table_flags s ≡ r
      found there e =
          unfold get_or_create_table in rw (load_entry-some s p0 i0 at_p0 lt, ◌>>=◌, there) e

      missing :
          {r : Option (Option ℕ × State)}
          → is_present (entry s p0 i0) ≡ false
          → create_table (some (p0 * 4096)) i0 table_flags s ≡ r
          → get_or_create_table (some (p0 * 4096)) i0 table_flags s ≡ r
      missing absent e =
          unfold get_or_create_table in rw (load_entry-some s p0 i0 at_p0 lt, ◌>>=◌, absent) e

      exhausted :
          pmm_alloc s ≡ some (no_page, s)
          → create_table (some (p0 * 4096)) i0 table_flags s ≡ some (none, s)
      exhausted e = unfold create_table in rw (e, ◌>>=◌) refl
