-- ===== src/Vmm/Init.antt =====
-- `vmm_init` of vmm/vmm.c: the address space that it sets up.
use mathlib.Core.Bool.{false≢true}
use os_kernel.Base.{
  ℕ, suc, ◌*◌, ◌<◌, ◌≡◌, ◌≢◌, ◌⊎◌, inl, inr, refl, arith, some, none, if◌then◌else◌, ap, ◌∙◌, sym,
  ◌==◌, Bool-cases, ==_iff, ne→==,
}
use os_kernel.Types.{page_size}
use os_kernel.Pmm.{State, ◌>>=◌, no_page, pmm_max_pages, bitmap_test, take_page}
use os_kernel.Pmm.Bitmap.{bitmap_test-bitmap_set}
use os_kernel.Pmm.Count.{IsValid}
use os_kernel.Pmm.Alloc.{IsFull, taken, pmm_alloc_lem, phys_to_virt-some}
use os_kernel.Vmm.{Vmm, vmm_init, vmm_translate}
use os_kernel.Vmm.Tree.{Role, IsTree, entry, leaf}
use os_kernel.Vmm.Leaf.{leaf-blank, is_present-zero}
use os_kernel.Vmm.Access.{entry-taken_self}
use os_kernel.Vmm.Count.{mapped_pages-zero}
use os_kernel.Vmm.Translate.{IsManager, translation, vmm_translate-leaf}

module _ (s : State) (k : ℕ) (k_lt : k < pmm_max_pages) (valid : IsValid (taken k s).pmm) where
  -- page `k` is the PML4, and there is no other table
  abbrev root_role : Role
  root_role p = if p == k then some (4, 0) else none

  root_only : (p : ℕ) (r : ℕ × ℕ) → root_role p ≡ some r → p ≡ k
  root_only p r e = elim (Bool-cases (p == k)) [
    | inl is ↦ (==_iff p k).0 is
    | inr no_role ↦ cc (ap (λ b. if b then some (4, 0) else none) (sym no_role) ∙ e)
  ]

  root_used : bitmap_test (taken k s).pmm.bitmap k ≢ 0
  unfolding take_page
  root_used e =
      let one : bitmap_test (taken k s).pmm.bitmap k ≡ 1 =
        bitmap_test-bitmap_set s.pmm.bitmap k k ∙ rw ((==_iff k k).1 refl) refl in
      omega (arith, one)

  root-IsTree : IsTree root_role k (taken k s)
  root-IsTree = record {
    valid = valid;
    top = rw ((==_iff k k).1 refl) refl;
    used = λ p l pre e. let at = root_only p (l, pre) e in rw at (k_lt, root_used);
    child = λ p l pre i e h there.
        let at = root_only p (suc (suc l), pre) e in
        let blank : entry (taken k s) p i ≡ 0 =
          ap (λ x. entry (taken k s) x i) at ∙ entry-taken_self k i s h in
        absurd (false≢true (sym (is_present-zero _ blank) ∙ there));
  }

-- On a valid allocator `vmm_init` returns a manager without tables and changes nothing when no page is
-- free; otherwise it takes the first free page, zeroed, for the root table, whose physical address the
-- manager records. The tables are well-formed, and no page is mapped: `vmm_translate` fails on every
-- address.
pub vmm_init_lem :
    (s : State)
    → IsValid s.pmm
    → (IsFull s × (vmm_init s ≡ some (record { pml4 = none; pml4_phys = no_page; mapped = 0 }, s)))
      ⊎ ((k : ℕ) × (k < pmm_max_pages)
          × (bitmap_test s.pmm.bitmap k ≡ 0)
          × ((j : ℕ) → j < k → bitmap_test s.pmm.bitmap j ≢ 0)
          × (vmm : Vmm) × (vmm_init s ≡ some (vmm, taken k s))
          × (vmm ≡ record { pml4 = some (k * page_size); pml4_phys = k * page_size; mapped = 0 })
          × IsManager vmm (taken k s)
          × ((va : ℕ) → vmm_translate vmm va (taken k s) ≡ some (no_page, taken k s)))
unfolding vmm_init translation
vmm_init_lem s v = elim (pmm_alloc_lem s v) [
  | inl (full, r) ↦ inl (full, rw (r, ◌>>=◌) refl)
  | inr (k, k_lt, free, before, r, valid) ↦
      let vmm : Vmm = record { pml4 = some (k * 4096); pml4_phys = k * 4096; mapped = 0 } in
      let tree = root-IsTree s k k_lt valid in
      let empty : (va : ℕ) → leaf (taken k s) 3 k va ≡ 0 =
        λ va. leaf-blank (taken k s) k (λ i h. entry-taken_self k i s h) 3 va in
      inr (
        k,
        k_lt,
        free,
        before,
        vmm,
        rw
            (
              r,
              ◌>>=◌,
              ne→== (k * page_size) no_page (omega arith),
              phys_to_virt-some (k * page_size) (omega arith),
            )
            refl,
        refl,
        record {
          role = root_role s k k_lt valid;
          root = k;
          tree = tree;
          pml4_at = refl;
          counted = sym (mapped_pages-zero (taken k s) k (λ va. is_present-zero _ (empty va)));
        },
        λ va. vmm_translate-leaf tree vmm va refl ∙ rw (empty va) refl,
      )
]
