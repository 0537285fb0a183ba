-- ===== src/Vmm/Leaf.antt =====
-- What a change of the tables does to the last-level entries that the walks find.
use os_kernel.Base.{
  ℕ, zero, suc, ◌+◌, ◌*◌, ◌<◌, ◌≡◌, ◌≢◌, ◌⊎◌, inl, inr, refl, arith, true, false, some, ap, ◌∙◌,
  ◌==◌, Bool-cases, ==_iff, ==→ne, bit_and, sym,
}
use os_kernel.Pmm.{State}
use os_kernel.Vmm.{is_present, pte_addr_mask}
use os_kernel.Vmm.Entry.{is_present-iff_odd}
use os_kernel.Vmm.Tree.{Role, IsTree, entry, index, prefix, page_of, leaf}

pub prefix-step : (k va : ℕ) → k < 4 → prefix (suc k) va * 512 + index k va ≡ prefix k va
prefix-step zero va h = omega arith
prefix-step (suc zero) va h = omega arith
prefix-step (suc (suc zero)) va h = omega arith
prefix-step (suc (suc (suc zero))) va h = omega arith
prefix-step (suc (suc (suc (suc k)))) va h = absurd (omega arith)

pub index-lt : (k va : ℕ) → index k va < 512
index-lt k va = omega arith

pub is_present-zero : (e : ℕ) → e ≡ 0 → is_present e ≡ false
is_present-zero e h = rw (is_present-iff_odd e) (ground arith)

pub leaf-zero : (s : State) (p va : ℕ) → leaf s 0 p va ≡ entry s p (index 0 va)
unfolding leaf
leaf-zero s p va = refl

pub leaf-present :
    (s : State) (k p va : ℕ)
    → is_present (entry s p (index (suc k) va)) ≡ true
    → leaf s (suc k) p va ≡ leaf s k (page_of (entry s p (index (suc k) va))) va
unfolding leaf
leaf-present s k p va h = rw h refl

pub leaf-absent :
    (s : State) (k p va : ℕ)
    → is_present (entry s p (index (suc k) va)) ≡ false
    → leaf s (suc k) p va ≡ 0
unfolding leaf
leaf-absent s k p va h = rw h refl

-- A table with no entry leads nowhere.
pub leaf-blank :
    (t : State) (q : ℕ) → ((i : ℕ) → i < 512 → entry t q i ≡ 0) → (k va : ℕ) → leaf t k q va ≡ 0
leaf-blank t q blank zero va = unfold leaf in blank (index 0 va) (index-lt 0 va)
leaf-blank t q blank (suc k) va =
    leaf-absent t k q va (is_present-zero _ (blank (index (suc k) va) (index-lt (suc k) va)))

pub page_of-mul : (e q : ℕ) → bit_and e pte_addr_mask ≡ q * 4096 → page_of e ≡ q
page_of-mul e q h = omega (arith, h)

-- Tables of different levels are different pages.
pub page-ne :
    (role : Role) (p p' k k' x x' : ℕ)
    → role p ≡ some (k, x)
    → role p' ≡ some (k', x')
    → k ≢ k'
    → p ≢ p'
page-ne role p p' k k' x x' h h' ne e = ground arith

pub role-injective :
    (role : Role) (p k k' x x' : ℕ)
    → role p ≡ some (k, x)
    → role p ≡ some (k', x')
    → (k ≡ k') × (x ≡ x')
role-injective role p k k' x x' h h' = ground arith

module _ {role : Role} {root : ℕ} {s : State} (tree : IsTree role root s) (t : State) where
  -- the tables of `t` are those of `s` but for entry `i0` of page `p0`
  abbrev pub SameBut : ℕ → ℕ → Type 0
  SameBut p0 i0 =
      (p : ℕ) (r : ℕ × ℕ) (i : ℕ)
      → role p ≡ some r
      → i < 512
      → (p ≢ p0) ⊎ (i ≢ i0)
      → entry t p i ≡ entry s p i

  pub leaf-step :
      (k p pre va : ℕ)
      → role p ≡ some (suc (suc k), pre)
      → entry t p (index (suc k) va) ≡ entry s p (index (suc k) va)
      → ((q : ℕ)
          → role q ≡ some (suc k, pre * 512 + index (suc k) va)
          → leaf t k q va ≡ leaf s k q va)
      → leaf t (suc k) p va ≡ leaf s (suc k) p va
  leaf-step k p pre va rp same ih = elim (Bool-cases (is_present (entry s p (index (suc k) va)))) [
    | inr no_entry ↦
        leaf-absent t k p va (ap is_present same ∙ no_entry) ∙ sym (leaf-absent s k p va no_entry)
    | inl there ↦
        let (q, at, rq) = tree.child p k pre (index (suc k) va) rp (index-lt (suc k) va) there in
        leaf-present t k p va (ap is_present same ∙ there)
        ∙ ap (λ e. leaf t k (page_of e) va) same
        ∙ ap (λ z. leaf t k z va) (page_of-mul _ q at)
        ∙ ih q rq
        ∙ ap (λ z. leaf s k z va) (sym (page_of-mul _ q at))
        ∙ sym (leaf-present s k p va there)
  ]

  module _ (p0 i0 : ℕ) (same : SameBut p0 i0) where
    module _ (k0 pre0 : ℕ) (r0 : role p0 ≡ some (suc (suc k0), pre0))
        (no_entry : is_present (entry s p0 i0) ≡ false)
        (blank : (i : ℕ) → i < 512 → entry t (page_of (entry t p0 i0)) i ≡ 0) where
      leaf-linked : (k va : ℕ) → index (suc k) va ≡ i0 → leaf t (suc k) p0 va ≡ leaf s (suc k) p0 va
      leaf-linked k va e = after ∙ sym (leaf-absent s k p0 va (rw e no_entry))
        where
          after : leaf t (suc k) p0 va ≡ 0
          after = elim (Bool-cases (is_present (entry t p0 (index (suc k) va)))) [
            | inl there ↦ leaf-present t k p0 va there ∙ leaf-blank t _ (rw e blank) k va
            | inr absent ↦ leaf-absent t k p0 va absent
          ]

      leaf-grow-step :
          (k p pre va : ℕ)
          → role p ≡ some (suc (suc k), pre)
          → ((q : ℕ)
              → role q ≡ some (suc k, pre * 512 + index (suc k) va)
              → leaf t k q va ≡ leaf s k q va)
          → leaf t (suc k) p va ≡ leaf s (suc k) p va
      leaf-grow-step k p pre va rp ih = elim (Bool-cases (p == p0)) [
        | inr other ↦ step (inl (==→ne _ _ other))
        | inl here ↦ elim (Bool-cases (index (suc k) va == i0)) [
          | inr other ↦ step (inr (==→ne _ _ other))
          | inl at ↦ rw ((==_iff p p0).0 here) (leaf-linked k va ((==_iff _ _).0 at))
        ]
      ]
        where
          step : (p ≢ p0) ⊎ (index (suc k) va ≢ i0) → leaf t (suc k) p va ≡ leaf s (suc k) p va
          step ne =
              leaf-step k p pre va rp (same p _ (index (suc k) va) rp (index-lt (suc k) va) ne) ih

      -- Linking a blank table into an entry that was not present changes no last-level entry.
      pub leaf-grow : (k p pre va : ℕ) → role p ≡ some (suc k, pre) → leaf t k p va ≡ leaf s k p va
      leaf-grow zero p pre va rp =
          unfold leaf in
          same p _ (index 0 va) rp (index-lt 0 va)
            (inl (page-ne role p p0 1 (suc (suc k0)) pre pre0 rp r0 (omega arith)))
      leaf-grow (suc k) p pre va rp =
          leaf-grow-step k p pre va rp (λ q rq. leaf-grow k q (pre * 512 + index (suc k) va) va rq)

    -- Writing a last-level entry changes the walks of its own page of addresses alone.
    pub leaf-write_ne :
        (pre0 : ℕ)
        → role p0 ≡ some (1, pre0)
        → (k p va : ℕ) → k < 4
        → role p ≡ some (suc k, prefix (suc k) va)
        → prefix 0 va ≢ pre0 * 512 + i0
        → leaf t k p va ≡ leaf s k p va
    leaf-write_ne pre0 r0 zero p va lt rp ne =
        unfold leaf in
        same p _ (index 0 va) rp (index-lt 0 va) (elim (Bool-cases (p == p0)) [
          | inr other ↦ inl (==→ne _ _ other)
          | inl here ↦
              let at_p0 : role p0 ≡ some (1, prefix 1 va) = rw (← (==_iff p p0).0 here) rp in
              let same_prefix = (role-injective role p0 1 1 _ _ at_p0 r0).1 in
              inr (λ f. ne (omega (arith, same_prefix, f, prefix-step 0 va (omega arith))))
        ])
    leaf-write_ne pre0 r0 (suc k) p va lt rp ne =
        leaf-step k p _ va rp
          (same p _ (index (suc k) va) rp (index-lt (suc k) va)
            (inl (page-ne role p p0 (suc (suc k)) 1 _ pre0 rp r0 (omega arith))))
          (λ q rq.
            leaf-write_ne pre0 r0 k q va (omega arith)
              (rq ∙ ap (λ x. some (suc k, x)) (prefix-step (suc k) va lt)) ne)

-- A walk looks only at the page number.
index_ext : (k va va' : ℕ) → k < 4 → prefix 0 va ≡ prefix 0 va' → index k va ≡ index k va'
index_ext zero va va' h e = omega arith
index_ext (suc zero) va va' h e = omega arith
index_ext (suc (suc zero)) va va' h e = omega arith
index_ext (suc (suc (suc zero))) va va' h e = omega arith
index_ext (suc (suc (suc (suc k)))) va va' h e = absurd (omega arith)

pub leaf_ext :
    (t : State) (k p va va' : ℕ)
    → k < 4
    → prefix 0 va ≡ prefix 0 va'
    → leaf t k p va ≡ leaf t k p va'
leaf_ext t zero p va va' lt e =
    leaf-zero t p va ∙ ap (entry t p) (index_ext 0 va va' lt e) ∙ sym (leaf-zero t p va')
leaf_ext t (suc k) p va va' lt e = elim (Bool-cases (is_present (entry t p (index (suc k) va)))) [
  | inl there ↦
      leaf-present t k p va there
      ∙ ap (λ z. leaf t k (page_of z) va) same
      ∙ leaf_ext t k _ va va' (omega arith) e
      ∙ sym (leaf-present t k p va' (ap is_present (sym same) ∙ there))
  | inr absent ↦
      leaf-absent t k p va absent ∙ sym (leaf-absent t k p va' (ap is_present (sym same) ∙ absent))
]
  where
    same : entry t p (index (suc k) va) ≡ entry t p (index (suc k) va')
    same = ap (entry t p) (index_ext (suc k) va va' lt e)
