-- ===== src/Vmm/Frame.antt =====
-- What the page allocator's other clients do to an address space: pages that `pmm_alloc` hands out are not its
-- tables, and giving back a page that is not one of its tables changes no translation.
use mathlib.Core.Path.{subst}
use os_kernel.Base.{
  ℕ, zero, suc, ◌+◌, ◌*◌, ◌/◌, ◌<◌, ◌≡◌, ◌≢◌, ◌⊎◌, inl, inr, refl, none, some, ap, ◌∙◌, sym,
  bit_and, Option-cases, arith,
}
use os_kernel.Types.{page_size}
use os_kernel.Pmm.{Pmm, State, no_page, bitmap_test, take_page, pmm_alloc, pmm_free}
use os_kernel.Pmm.Bitmap.{bitmap_test-bitmap_set, bitmap_test-bitmap_clear}
use os_kernel.Pmm.Count.{IsValid}
use os_kernel.Pmm.Alloc.{taken, pmm_alloc_lem}
use os_kernel.Pmm.Free.{pmm_free_cases, pmm_free-IsValid, released}
use os_kernel.Vmm.{Vmm, pte_addr_mask, is_present, vmm_translate}
use os_kernel.Vmm.Tree.{Role, IsTree, entry, index, leaf}
use os_kernel.Vmm.Leaf.{index-lt, leaf-zero, leaf-step}
use os_kernel.Vmm.Access.{entry-taken_ne}
use os_kernel.Vmm.Count.{mapped_pages-same}
use os_kernel.Vmm.Translate.{IsManager}
use os_kernel.Vmm.Pages.{translate-same}

module _ {role : Role} {root : ℕ} {s : State} (tree : IsTree role root s) (t : State)
    (same : (p : ℕ) (r : ℕ × ℕ) (i : ℕ)
      → role p ≡ some r
      → i < 512
      → entry t p i ≡ entry s p i) where
  -- Walks through tables that are the same end the same.
  leaf-same : (k p pre va : ℕ) → role p ≡ some (suc k, pre) → leaf t k p va ≡ leaf s k p va
  leaf-same zero p pre va rp =
      leaf-zero t p va ∙ same p _ (index 0 va) rp (index-lt 0 va) ∙ sym (leaf-zero s p va)
  leaf-same (suc k) p pre va rp =
      leaf-step tree t k p pre va rp (same p _ (index (suc k) va) rp (index-lt (suc k) va))
        (λ q rq. leaf-same k q (pre * 512 + index (suc k) va) va rq)

  -- The tables are well-formed in any state that has them, with an allocator that has them in use.
  tables-IsTree :
      IsValid t.pmm
      → ((p : ℕ) (r : ℕ × ℕ) → role p ≡ some r → bitmap_test t.pmm.bitmap p ≢ 0)
      → IsTree role root t
  tables-IsTree valid used = record {
    valid = valid;
    top = tree.top;
    used = λ p k pre e. ((tree.used p k pre e).0, used p _ e);
    child = λ p k pre i e h there.
        let (q, at, rq) = tree.child p k pre i e h (ap is_present (sym (same p _ i e h)) ∙ there) in
        (q, ap (λ x. bit_and x pte_addr_mask) (same p _ i e h) ∙ at, rq);
  }

-- `t` has a well-formed manager, and every address translates as in `s`.
abbrev pub SameSpace : Vmm → State → State → Type 0
SameSpace vmm s t =
    IsManager vmm t
    × ((va b : ℕ) → vmm_translate vmm va s ≡ some (b, s) → vmm_translate vmm va t ≡ some (b, t))

tables-SameSpace :
    {vmm : Vmm} {s : State} (t : State) (w : IsManager vmm s)
    → ((p : ℕ) (r : ℕ × ℕ) (i : ℕ) → w.role p ≡ some r → i < 512 → entry t p i ≡ entry s p i)
    → IsValid t.pmm
    → ((p : ℕ) (r : ℕ × ℕ) → w.role p ≡ some r → bitmap_test t.pmm.bitmap p ≢ 0)
    → SameSpace vmm s t
tables-SameSpace {vmm} {s} t w same valid used =
    let leaves = λ (va : ℕ). leaf-same w.tree t same 3 w.root 0 va w.tree.top in
    let tree' = tables-IsTree w.tree t same valid used in
    (
      record {
        role = w.role;
        root = w.root;
        tree = tree';
        pml4_at = w.pml4_at;
        counted =
            w.counted
            ∙ sym (mapped_pages-same s t w.root 0 (λ va ne. leaves va) (ap is_present (leaves 0)));
      },
      λ va b old. translate-same vmm vmm va b w.tree tree' w.pml4_at w.pml4_at (leaves va) old,
    )

-- a page that is free is not a table
free_not_table :
    {vmm : Vmm} {s : State} (w : IsManager vmm s) (k : ℕ)
    → bitmap_test s.pmm.bitmap k ≡ 0
    → (p : ℕ) (r : ℕ × ℕ) → w.role p ≡ some r
    → p ≢ k
free_not_table {s = s} w k free p (l, pre) e at =
    (w.tree.used p l pre e).1 (ap (bitmap_test s.pmm.bitmap) at ∙ free)

role_none : (role : Role) (k : ℕ) → ((p : ℕ) (r : ℕ × ℕ) → role p ≡ some r → p ≢ k) → role k ≡ none
role_none role k no_table = elim (Option-cases (role k)) [
  | inl e ↦ e
  | inr (r, e) ↦ absurd (no_table k r e refl)
]

-- Taking a page, or giving one back, keeps the bits of the others.
still_used :
    (m : Pmm) (k p : ℕ)
    → p ≢ k
    → bitmap_test m.bitmap p ≢ 0
    → bitmap_test (take_page k m).bitmap p ≢ 0
unfolding take_page
still_used m k p ne u = ground (arith, bitmap_test-bitmap_set m.bitmap k p)

kept_used :
    (m : Pmm) (k p : ℕ)
    → p ≢ k
    → bitmap_test m.bitmap p ≢ 0
    → bitmap_test (released k m).bitmap p ≢ 0
kept_used m k p ne u = ground (arith, bitmap_test-bitmap_clear m.bitmap k p)

-- Whoever else takes a page by `pmm_alloc` leaves an address space as it is, and is never given one of its tables:
-- the manager stays well-formed, and every address translates as before. So does giving back, by `pmm_free`, the
-- page of any address that is not one of its tables, also where `pmm_free` rejects the address.
pub vmm_translate-frame :
    {vmm : Vmm} {s : State} (w : IsManager vmm s)
    → ((addr : ℕ) (t : State)
        → pmm_alloc s ≡ some (addr, t)
        → SameSpace vmm s t × ((addr ≡ no_page) ⊎ (w.role (addr / page_size) ≡ none)))
      × ((addr : ℕ)
          → w.role (addr / page_size) ≡ none
          → SameSpace vmm s (record s { pmm = pmm_free addr s.pmm }))
vmm_translate-frame {vmm} {s} w = (
  λ addr t e. elim (pmm_alloc_lem s w.tree.valid) [
    | inl (full, r) ↦
        let none_left : addr ≡ no_page = cc in
        let unchanged : s ≡ t = cc in
        (subst (SameSpace vmm s) unchanged (w, λ va b old. old), inl none_left)
    | inr (k, k_lt, free, _, r, valid) ↦
        let at : addr ≡ k * page_size = cc in
        let after : taken k s ≡ t = cc in
        let others = free_not_table w k free in
        (
          subst (SameSpace vmm s) after (
              tables-SameSpace (taken k s) w (λ p r i e h. entry-taken_ne k i s p h (others p r e))
                valid (λ p r e. still_used s.pmm k p (others p r e) (used p r e))),
          inr (
              role_none w.role (addr / page_size)
                (λ p r e same. others p r e (omega (arith, same, at)))),
        )
  ],
  λ addr no_table.
      tables-SameSpace (record s { pmm = pmm_free addr s.pmm }) w (λ p r i e h. refl)
        (pmm_free-IsValid addr w.tree.valid)
        (λ p r e. elim (pmm_free_cases addr s.pmm) [
          | inl same ↦ rw same (used p r e)
          | inr (_, same) ↦
              rw same (kept_used s.pmm (addr / page_size) p (λ at. cc (ap w.role at)) (used p r e))
        ]),
)
  where
    used : (p : ℕ) (r : ℕ × ℕ) → w.role p ≡ some r → bitmap_test s.pmm.bitmap p ≢ 0
    used p (l, pre) e = (w.tree.used p l pre e).1
