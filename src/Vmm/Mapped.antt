-- ===== src/Vmm/Mapped.antt =====
-- The outcome of `vmm_map` from one level of the tables on, composed level by level.
use os_kernel.Base.{
  ℕ, suc, ◌+◌, ◌*◌, ◌^◌, ◌<◌, ◌≡◌, ◌≢◌, ◌⊎◌, inl, inr, refl, arith, some, Option, if◌then◌else◌, ap,
  ◌∙◌, bit_and, sym, u64,
}
use os_kernel.Pmm.{State, ◌>>=◌, pmm_max_pages}
use os_kernel.Pmm.Alloc.{IsFull}
use os_kernel.Vmm.{Vmm, Status, success, failure, pte_addr_mask, is_present, map_entry}
use os_kernel.Vmm.Entry.{make_entry, make_entry-lt}
use os_kernel.Vmm.Tree.{Role, IsTree, entry, index, prefix, leaf}
use os_kernel.Vmm.Leaf.{prefix-step, index-lt, leaf-zero, leaf-present, page_of-mul, page-ne}
use os_kernel.Vmm.Access.{
  written, load_entry-some, store_entry-some, entry-written_self, entry-written_ne,
}
use os_kernel.Vmm.Written.{written-IsTree, leaf-written_ne}
use os_kernel.Vmm.Created.{Grown}

-- the manager's counter after `vmm_map` on a page whose entry was `e`
abbrev pub counted : ℕ → Vmm → Vmm
counted e vmm = if is_present e then vmm else record vmm { mapped = u64 (vmm.mapped + 1) }

-- The outcome of mapping `va` to `a` from the table of level `k + 1` in page `p` on.
pub record Mapped (role : Role) (root : ℕ) (s : State) (k p va a flags : ℕ) (vmm : Vmm)
    (st : Status) (vmm' : Vmm) (t : State) : Type 0 where
  pub role' : Role
  pub tree : IsTree role' root t
  pub above :
      (p' k' x i : ℕ) → role p' ≡ some (k', x) → suc k < k' → i < 512 → entry t p' i ≡ entry s p' i
  pub others : (va' : ℕ) → prefix 0 va' ≢ prefix 0 va → leaf t 3 root va' ≡ leaf s 3 root va'
  pub outcome :
      ((st ≡ failure) × IsFull t × (vmm' ≡ vmm) × (leaf t 3 root va ≡ leaf s 3 root va))
      ⊎ ((st ≡ success)
          × (vmm' ≡ counted (leaf s 3 root va) vmm)
          × (leaf t k p va ≡ make_entry a flags))

module _ (root va a flags : ℕ) (small : flags < 2 ^ 64) (vmm : Vmm) where
  abbrev pub Maps : Role → State → ℕ → ℕ → Option ((Status × Vmm) × State) → Type 0
  Maps role s k p r =
      (st : Status) × (vmm' : Vmm) × (t : State) × (r ≡ some ((st, vmm'), t))
      × Mapped role root s k p va a flags vmm st vmm' t

  module _ {role : Role} {s : State} (tree : IsTree role root s) (p : ℕ) where
    pub map_entry-Maps :
        role p ≡ some (1, prefix 1 va)
        → leaf s 3 root va ≡ leaf s 0 p va
        → Maps role s 0 p (map_entry vmm (some (p * 4096)) (index 0 va) a flags s)
    map_entry-Maps rp path = (
      success,
      counted (entry s p i) vmm,
      written s p i (make_entry a flags),
      (unfold map_entry in
          rw
            (
              load_entry-some s p i hp hi,
              ◌>>=◌,
              store_entry-some s p i hp hi (make_entry a flags),
              ◌>>=◌,
            )
            refl),
      record {
        role' = role;
        tree = written-IsTree tree p (prefix 1 va) i (make_entry a flags) rp hi;
        above = λ p' k' x i' e h h'.
            entry-written_ne s p i _ p' i' hi h'
              (inl (page-ne role p' p k' 1 x (prefix 1 va) e rp (omega arith)));
        others = λ va' ne.
            leaf-written_ne tree p (prefix 1 va) i (make_entry a flags) rp hi va'
              (λ e. ne (omega (arith, e, prefix-step 0 va (omega arith))));
        outcome = inr (
          refl,
          ap (λ e. counted e vmm) (sym (path ∙ leaf-zero s p va)),
          leaf-zero (written s p i (make_entry a flags)) p va
              ∙ entry-written_self s p i (make_entry a flags) (make_entry-lt a flags small),
        );
      },
    )
      where
        i : ℕ
        i = index 0 va

        hp : p < pmm_max_pages
        hp = (tree.used p _ _ rp).0

        hi : index 0 va < 512
        hi = index-lt 0 va

  -- One level up: a table that is there already or has just been linked in.
  pub below-Maps :
      {role : Role} {s : State}
      → IsTree role root s
      → (k p q : ℕ) (t1 : State) → k < 3
      → role p ≡ some (suc (suc k), prefix (suc (suc k)) va)
      → leaf s 3 root va ≡ leaf s (suc k) p va
      → (g : Grown role root s p (index (suc k) va) k (prefix (suc (suc k)) va) t1 q)
      → (st : Status) (vmm' : Vmm) (t : State) → Mapped g.role' root t1 k q va a flags vmm st vmm' t
      → Mapped role root s (suc k) p va a flags vmm st vmm' t
  below-Maps {role} {s} tree k p q t1 lt rp path g st vmm' t m = record {
    role' = m.role';
    tree = m.tree;
    above = λ p' k' x i e lt' h.
        m.above p' k' x i (g.keeps p' _ e) (omega arith) h
        ∙ g.same p' _ i e h (inl (page-ne role p' p k' (suc (suc k)) x _ e rp (omega arith)));
    others = λ va' ne. m.others va' ne ∙ root_same va';
    outcome = step m.outcome;
  }
    where
      root_same : (va' : ℕ) → leaf t1 3 root va' ≡ leaf s 3 root va'
      root_same va' = g.leaves 3 root 0 va' tree.top

      -- the link survives what happens below
      link_same : entry t p (index (suc k) va) ≡ entry t1 p (index (suc k) va)
      link_same =
          m.above p (suc (suc k)) _ (index (suc k) va) (g.keeps p _ rp) (omega arith)
            (index-lt (suc k) va)

      down : leaf t (suc k) p va ≡ leaf t k q va
      down =
          leaf-present t k p va (ap is_present link_same ∙ g.linked)
          ∙ ap (λ z. leaf t k z va)
              (page_of-mul _ q (ap (λ e. bit_and e pte_addr_mask) link_same ∙ g.points))

      step :
          ((st ≡ failure) × IsFull t × (vmm' ≡ vmm) × (leaf t 3 root va ≡ leaf t1 3 root va))
            ⊎ ((st ≡ success)
                × (vmm' ≡ counted (leaf t1 3 root va) vmm)
                × (leaf t k q va ≡ make_entry a flags))
          → ((st ≡ failure) × IsFull t × (vmm' ≡ vmm) × (leaf t 3 root va ≡ leaf s 3 root va))
            ⊎ ((st ≡ success)
                × (vmm' ≡ counted (leaf s 3 root va) vmm)
                × (leaf t (suc k) p va ≡ make_entry a flags))
      step (inl (e, full, f, l)) = inl (e, full, f, l ∙ root_same va)
      step (inr (e, f, l)) = inr (e, f ∙ ap (λ z. counted z vmm) (root_same va), down ∙ l)

  -- The path from the root goes on through the table that is there now.
  pub below_path :
      {role : Role} {s : State}
      → IsTree role root s
      → (k p q : ℕ) (t1 : State) → role p ≡ some (suc (suc k), prefix (suc (suc k)) va)
      → leaf s 3 root va ≡ leaf s (suc k) p va
      → Grown role root s p (index (suc k) va) k (prefix (suc (suc k)) va) t1 q
      → leaf t1 3 root va ≡ leaf t1 k q va
  below_path {role} {s} tree k p q t1 rp path g =
      g.leaves 3 root 0 va tree.top
      ∙ path
      ∙ sym (g.leaves (suc k) p _ va rp)
      ∙ leaf-present t1 k p va g.linked
      ∙ ap (λ z. leaf t1 k z va) (page_of-mul _ q g.points)

  -- No page for a table: nothing has changed.
  pub stopped-Mapped :
      {role : Role} {s : State} (tree : IsTree role root s) (k p : ℕ)
      → IsFull s
      → Mapped role root s k p va a flags vmm failure vmm s
  stopped-Mapped {role} tree k p full = record {
    role' = role;
    tree = tree;
    above = λ p' k' x i e lt h. refl;
    others = λ va' ne. refl;
    outcome = inl (refl, full, refl, refl);
  }
