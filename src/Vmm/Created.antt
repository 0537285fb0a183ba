-- ===== src/Vmm/Created.antt =====
-- `create_table` on well-formed tables: the state with the new table.
use mathlib.Core.Path.{subst}
use mathlib.Core.Bool.{false≢true}
use os_kernel.Base.{
  ℕ, suc, ◌+◌, ◌*◌, ◌/◌, ◌<◌, ◌≡◌, ◌≢◌, ◌⊎◌, inl, inr, refl, arith, true, false, some, none,
  Option-cases, if◌then◌else◌, ap, ◌∙◌, ◌==◌, Bool-cases, ==_iff, ==→ne, ne→==, bit_and, sym,
  update, update_self, update_ne,
}
use os_kernel.Types.{page_size}
use os_kernel.Pmm.{State, ◌>>=◌, no_page, pmm_max_pages, bitmap_test, pmm_alloc, take_page}
use os_kernel.Pmm.Bitmap.{bitmap_test-bitmap_set}
use os_kernel.Pmm.Count.{IsValid}
use os_kernel.Pmm.Alloc.{taken, phys_to_virt-some}
use os_kernel.Vmm.{pte_addr_mask, table_flags, is_present, entry_table, create_table}
use os_kernel.Vmm.Entry.{
  make_entry, is_present-make_entry, bit_and-make_entry, make_entry-lt, bit_and-pte_addr_mask,
}
use os_kernel.Vmm.Tree.{Role, IsTree, entry, page_of, leaf}
use os_kernel.Vmm.Leaf.{SameBut, leaf-grow}
use os_kernel.Vmm.Access.{
  written, load_entry-some, store_entry-some, entry-written_self, entry-written_ne,
  entry-taken_self, entry-taken_ne,
}

-- `t` is `s` with the table in page `q` behind entry `i0` of page `p0`.
pub record Grown (role : Role) (root : ℕ) (s : State) (p0 i0 k pre : ℕ) (t : State) (q : ℕ)
    : Type 0 where
  pub role' : Role
  pub tree : IsTree role' root t
  pub keeps : (p : ℕ) (r : ℕ × ℕ) → role p ≡ some r → role' p ≡ some r
  pub same :
      (p : ℕ) (r : ℕ × ℕ) (i : ℕ)
      → role p ≡ some r
      → i < 512
      → (p ≢ p0) ⊎ (i ≢ i0)
      → entry t p i ≡ entry s p i
  pub linked : is_present (entry t p0 i0) ≡ true
  pub points : bit_and (entry t p0 i0) pte_addr_mask ≡ q * 4096
  pub role_q : role' q ≡ some (suc k, pre * 512 + i0)
  pub leaves : (k' p pre' va : ℕ) → role p ≡ some (suc k', pre') → leaf t k' p va ≡ leaf s k' p va

pub entry_table-some :
    (s : State) (p i q : ℕ)
    → p < pmm_max_pages
    → i < 512
    → q < pmm_max_pages
    → bit_and (entry s p i) pte_addr_mask ≡ q * 4096
    → entry_table (some (p * 4096)) i s ≡ some (some (q * 4096), s)
unfolding entry_table
entry_table-some s p i q hp hi hq e =
    rw (load_entry-some s p i hp hi, ◌>>=◌, e, phys_to_virt-some (q * 4096) (omega arith)) refl

module _ {role : Role} {root : ℕ} {s : State} (tree : IsTree role root s) (p0 i0 k0 pre0 : ℕ)
    (r0 : role p0 ≡ some (suc (suc k0), pre0)) (lt : i0 < 512) where
  pub here : p0 < pmm_max_pages
  here = (tree.used p0 _ _ r0).0

  module _ (no_entry : is_present (entry s p0 i0) ≡ false) (k : ℕ) (k_lt : k < pmm_max_pages)
      (k_free : bitmap_test s.pmm.bitmap k ≡ 0) (valid : IsValid (taken k s).pmm) where
    abbrev pub link : ℕ
    link = make_entry (k * page_size) table_flags

    abbrev pub grown : State
    grown = written (taken k s) p0 i0 link

    abbrev pub role_after : Role
    role_after = update role k (some (suc k0, pre0 * 512 + i0))

    no_role : role k ≡ none
    no_role = elim (Option-cases (role k)) [
      | inl e ↦ e
      | inr ((a, b), e) ↦ absurd ((tree.used k a b e).1 k_free)
    ]

    role-ne : (p : ℕ) (r : ℕ × ℕ) → role p ≡ some r → p ≢ k
    role-ne p r e f = ground (arith, no_role)

    link-addr : bit_and link pte_addr_mask ≡ k * 4096
    link-addr =
        bit_and-make_entry (k * page_size) table_flags refl
        ∙ omega (arith, bit_and-pte_addr_mask (k * page_size))

    entry-link : entry grown p0 i0 ≡ link
    entry-link =
        entry-written_self (taken k s) p0 i0 link
          (make_entry-lt (k * page_size) table_flags (omega arith))

    grown-same : SameBut tree grown p0 i0
    grown-same p r i e h ne =
        entry-written_ne (taken k s) p0 i0 link p i lt h ne
        ∙ entry-taken_ne k i s p h (role-ne p r e)

    grown-blank : (i : ℕ) → i < 512 → entry grown k i ≡ 0
    grown-blank i h =
        entry-written_ne (taken k s) p0 i0 link k i lt h (inl (λ e. role-ne p0 _ r0 (sym e)))
        ∙ entry-taken_self k i s h

    pub create_table-some :
        pmm_alloc s ≡ some (k * page_size, taken k s)
        → create_table (some (p0 * 4096)) i0 table_flags s ≡ some (some (k * 4096), grown)
    unfolding create_table
    create_table-some e =
        rw
          (
            e,
            ◌>>=◌,
            ne→== (k * page_size) no_page (omega arith),
            store_entry-some (taken k s) p0 i0 here lt link,
            ◌>>=◌,
          )
          (entry_table-some grown p0 i0 k here lt k_lt
            (ap (λ x. bit_and x pte_addr_mask) entry-link ∙ link-addr))

    page-link : page_of (entry grown p0 i0) ≡ k
    page-link = ap (λ x. bit_and x pte_addr_mask / 4096) entry-link ∙ omega (arith, link-addr)

    bits :
        (p : ℕ)
        → bitmap_test grown.pmm.bitmap p ≡ (if p == k then 1 else bitmap_test s.pmm.bitmap p)
    unfolding take_page
    bits p = bitmap_test-bitmap_set s.pmm.bitmap k p

    role_after-ne : (p : ℕ) → (p == k) ≡ false → role_after p ≡ role p
    role_after-ne p ne = update_ne role k _ p (==→ne _ _ ne)

    grown-used :
        (p k' pre' : ℕ)
        → role_after p ≡ some (k', pre')
        → (p < pmm_max_pages) × (bitmap_test grown.pmm.bitmap p ≢ 0)
    grown-used p k' pre' e = elim (Bool-cases (p == k)) [
      | inl is_k ↦ (ground arith, ground (arith, bits p))
      | inr ne ↦
          let old = tree.used p k' pre' (sym (role_after-ne p ne) ∙ e) in
          (old.0, ground (arith, bits p))
    ]

    -- an entry of an old table that was there before
    old_child :
        (p k' pre' i : ℕ)
        → role p ≡ some (suc (suc k'), pre')
        → i < 512
        → (p ≢ p0) ⊎ (i ≢ i0)
        → is_present (entry grown p i) ≡ true
        → (q : ℕ) × (bit_and (entry grown p i) pte_addr_mask ≡ q * 4096)
          × (role_after q ≡ some (suc k', pre' * 512 + i))
    old_child p k' pre' i e h ne there =
        let same = grown-same p _ i e h ne in
        let (q, at, rq) = tree.child p k' pre' i e h (ap is_present (sym same) ∙ there) in
        (q, ap (λ x. bit_and x pte_addr_mask) same ∙ at, update_ne role k _ q (role-ne q _ rq) ∙ rq)

    new_child :
        (p k' pre' i : ℕ)
        → role p ≡ some (suc (suc k'), pre')
        → p ≡ p0
        → i ≡ i0
        → (q : ℕ) × (bit_and (entry grown p i) pte_addr_mask ≡ q * 4096)
          × (role_after q ≡ some (suc k', pre' * 512 + i))
    new_child p k' pre' i e at_p0 at_i0 =
        let role_p0 : role p0 ≡ some (suc (suc k'), pre') = rw (← at_p0) e in
        (
          k,
          rw (at_p0, at_i0) (ap (λ x. bit_and x pte_addr_mask) entry-link ∙ link-addr),
          update_self role k _ ∙ ground (arith, r0, role_p0),
        )

    grown-child :
        (p k' pre' i : ℕ)
        → role_after p ≡ some (suc (suc k'), pre')
        → i < 512
        → is_present (entry grown p i) ≡ true
        → (q : ℕ) × (bit_and (entry grown p i) pte_addr_mask ≡ q * 4096)
          × (role_after q ≡ some (suc k', pre' * 512 + i))
    grown-child p k' pre' i e h there = elim (Bool-cases (p == k)) [
      | inl is_k ↦
          let zero_entry : entry grown p i ≡ 0 = rw ((==_iff p k).0 is_k) (grown-blank i h) in
          absurd (false≢true (sym (ap is_present zero_entry) ∙ there))
      | inr ne ↦
          let role_p : role p ≡ some (suc (suc k'), pre') = sym (role_after-ne p ne) ∙ e in
          elim (Bool-cases (p == p0)) [
            | inr other ↦ old_child p k' pre' i role_p h (inl (==→ne _ _ other)) there
            | inl at_p0 ↦ elim (Bool-cases (i == i0)) [
              | inr other ↦ old_child p k' pre' i role_p h (inr (==→ne _ _ other)) there
              | inl at_i0 ↦
                  new_child p k' pre' i role_p ((==_iff p p0).0 at_p0) ((==_iff i i0).0 at_i0)
            ]
          ]
    ]

    grown-IsTree : IsTree role_after root grown
    grown-IsTree = record {
      valid = valid;
      top = update_ne role k _ root (role-ne root _ tree.top) ∙ tree.top;
      used = grown-used;
      child = grown-child;
    }

    pub grown-Grown : Grown role root s p0 i0 k0 pre0 grown k
    grown-Grown = record {
      role' = role_after;
      tree = grown-IsTree;
      keeps = λ p r e. update_ne role k _ p (role-ne p r e) ∙ e;
      same = grown-same;
      linked = ap is_present entry-link ∙ is_present-make_entry (k * page_size) table_flags;
      points = ap (λ x. bit_and x pte_addr_mask) entry-link ∙ link-addr;
      role_q = update_self role k _;
      leaves =
          leaf-grow tree grown p0 i0 grown-same k0 pre0 r0 no_entry
            (subst (λ z. (i : ℕ) → i < 512 → entry grown z i ≡ 0) (sym page-link) grown-blank);
    }
