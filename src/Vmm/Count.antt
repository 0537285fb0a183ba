-- ===== src/Vmm/Count.antt =====
-- Counting the pages that are mapped, which is what the counter `mapped` of `vmm_t` stands for.
use os_kernel.Base.{
  ℕ, zero, suc, ◌+◌, ◌*◌, ◌^◌, ◌≤◌, ◌<◌, ◌≡◌, ◌≢◌, refl, arith, Bool, true, false, ◌==◌,
  if◌then◌else◌, Bool-cases, inl, inr, ==→ne, ap, ◌∙◌, sym,
}
use os_kernel.Pmm.{State}
use os_kernel.Vmm.{is_present}
use os_kernel.Vmm.Tree.{prefix, leaf}
use os_kernel.Vmm.Leaf.{leaf_ext}

-- how many of the numbers below `n` pass the test
count_below : ℕ → (ℕ → Bool) → ℕ
count_below zero p = 0
count_below (suc n) p = (if p n then 1 else 0) + count_below n p

count_below-le : (n : ℕ) (p : ℕ → Bool) → count_below n p ≤ n
unfolding count_below
count_below-le zero p = omega arith
count_below-le (suc n) p = ground (arith, count_below-le n p)

count_below-zero : (n : ℕ) (p : ℕ → Bool) → ((j : ℕ) → p j ≡ false) → count_below n p ≡ 0
unfolding count_below
count_below-zero zero p h = refl
count_below-zero (suc n) p h = ground (arith, h n, count_below-zero n p h)

count_below_ext :
    (n : ℕ) (p q : ℕ → Bool) → ((j : ℕ) → j < n → q j ≡ p j) → count_below n q ≡ count_below n p
unfolding count_below
count_below_ext zero p q h = refl
count_below_ext (suc n) p q h =
    ground (arith, h n, count_below_ext n p q (λ j lt. h j (omega arith)))

-- Tests that agree but for one number, which `q` alone accepts.
count_below-one_more :
    (n i : ℕ) (p q : ℕ → Bool)
    → i < n
    → p i ≡ false
    → q i ≡ true
    → ((j : ℕ) → j < n → j ≢ i → q j ≡ p j)
    → count_below n q ≡ suc (count_below n p)
unfolding count_below
count_below-one_more zero i p q lt no_p is_q h = absurd (omega arith)
count_below-one_more (suc n) i p q lt no_p is_q h = elim (Bool-cases (n == i)) [
  | inl last ↦
      let same : count_below n q ≡ count_below n p =
        count_below_ext n p q (λ j below. h j (omega arith) (ground arith)) in
      ground (arith, same)
  | inr earlier ↦
      let more : count_below n q ≡ suc (count_below n p) =
        count_below-one_more n i p q (ground arith) no_p is_q (λ j lt' ne. h j (omega arith) ne) in
      ground (arith, h n, more)
]

-- page `n` is mapped
abbrev page_mapped : State → ℕ → ℕ → Bool
page_mapped s root n = is_present (leaf s 3 root (n * 4096))

-- the pages of the 48-bit address space that the tables map
pub mapped_pages : State → ℕ → ℕ
mapped_pages s root = count_below (2 ^ 36) (page_mapped s root)

pub mapped_pages-le : (s : State) (root : ℕ) → mapped_pages s root ≤ 2 ^ 36
unfolding mapped_pages
mapped_pages-le s root = count_below-le (2 ^ 36) (page_mapped s root)

pub mapped_pages-zero :
    (s : State) (root : ℕ)
    → ((va : ℕ) → is_present (leaf s 3 root va) ≡ false)
    → mapped_pages s root ≡ 0
unfolding mapped_pages
mapped_pages-zero s root h = count_below-zero (2 ^ 36) _ (λ j. h (j * 4096))

module _ (s t : State) (root va : ℕ)
    (others : (va' : ℕ) → prefix 0 va' ≢ prefix 0 va → leaf t 3 root va' ≡ leaf s 3 root va') where
  at_page : (u : State) → page_mapped u root (prefix 0 va) ≡ is_present (leaf u 3 root va)
  at_page u = ap is_present (leaf_ext u 3 root (prefix 0 va * 4096) va (omega arith) (omega arith))

  elsewhere : (j : ℕ) → j < 2 ^ 36 → j ≢ prefix 0 va → page_mapped t root j ≡ page_mapped s root j
  elsewhere j lt ne = ap is_present (others (j * 4096) (λ e. ne (omega arith)))

  pub mapped_pages-same :
      is_present (leaf t 3 root va) ≡ is_present (leaf s 3 root va)
      → mapped_pages t root ≡ mapped_pages s root
  unfolding mapped_pages
  mapped_pages-same e = count_below_ext (2 ^ 36) _ _ (λ j lt. elim (Bool-cases (j == prefix 0 va)) [
    | inr other ↦ elsewhere j lt (==→ne _ _ other)
    | inl here ↦ at_va j here
  ])
    where
      at_va : (j : ℕ) → (j == prefix 0 va) ≡ true → page_mapped t root j ≡ page_mapped s root j
      at_va j here =
          let is : j ≡ prefix 0 va = ground arith in rw is (at_page t ∙ e ∙ sym (at_page s))

  pub mapped_pages-one_more :
      is_present (leaf s 3 root va) ≡ false
      → is_present (leaf t 3 root va) ≡ true
      → mapped_pages t root ≡ suc (mapped_pages s root)
  unfolding mapped_pages
  mapped_pages-one_more before after =
      count_below-one_more (2 ^ 36) (prefix 0 va) _ _ (omega arith) (at_page s ∙ before)
        (at_page t ∙ after) elsewhere

  pub mapped_pages-one_less :
      is_present (leaf s 3 root va) ≡ true
      → is_present (leaf t 3 root va) ≡ false
      → mapped_pages s root ≡ suc (mapped_pages t root)
  unfolding mapped_pages
  mapped_pages-one_less before after =
      count_below-one_more (2 ^ 36) (prefix 0 va) _ _ (omega arith) (at_page t ∙ after)
        (at_page s ∙ before) (λ j lt ne. sym (elsewhere j lt ne))
