-- ===== src/Pmm/FreeN.antt =====
-- `pmm_free_n` of pmm/pmm.c on the pages that `pmm_alloc_n` hands out.
use os_kernel.Base.{
  ℕ, zero, suc, ◌+◌, ◌*◌, ◌/◌, ◌≤◌, ◌<◌, ◌≡◌, ◌≢◌, inl, inr, refl, arith, ltb, leb, ◌&&◌,
  if◌then◌else◌, some, u64, ap, sym, ◌∙◌,
}
use os_kernel.Types.{page_size}
use os_kernel.Pmm.{
  Pmm, State, pmm_max_pages, no_page, bitmap_test, take_page, take_run, pmm_alloc_n, pmm_free,
  pmm_free_n, free_n_loop,
}
use os_kernel.Pmm.Bitmap.{bitmap_test-bitmap_clear}
use os_kernel.Pmm.Count.{IsValid, free_count_ext}
use os_kernel.Pmm.AllocN.{taken_run, pmm_alloc_n_lem}
use os_kernel.Pmm.Free.{IsSame, released, pmm_free-released, pmm_free_cases, pmm_free_n-IsValid}

-- Of two valid allocators with the same pages in use and the same total, all is the same.
IsValid-IsSame :
    {p q : Pmm}
    → IsValid p
    → IsValid q
    → ((j : ℕ) → bitmap_test p.bitmap j ≡ bitmap_test q.bitmap j)
    → p.total_pages ≡ q.total_pages
    → IsSame p q
IsValid-IsSame {p} {q} v w bits total =
    let free : p.free_pages ≡ q.free_pages =
      v.counted ∙ free_count_ext p.bitmap q.bitmap pmm_max_pages (λ j lt. bits j) ∙ sym w.counted in
    record {
      bits = bits;
      free = free;
      used = omega (arith, free, total, v.conserved, w.conserved, v.used_small, w.used_small);
      total = total;
    }

take_run-total : (n k : ℕ) (p : Pmm) → (take_run n k p).total_pages ≡ p.total_pages
unfolding take_run take_page
take_run-total zero k p = refl
take_run-total (suc n) k p = take_run-total n (k + 1) (take_page k p)

pmm_free-total : (addr : ℕ) (p : Pmm) → (pmm_free addr p).total_pages ≡ p.total_pages
pmm_free-total addr p = elim (pmm_free_cases addr p) [
  | inl same ↦ ap (λ q. q.total_pages) same
  | inr (_, same) ↦ ap (λ q. q.total_pages) same
]

free_n_loop-total :
    (left i addr : ℕ) (p : Pmm) → (free_n_loop left i addr p).total_pages ≡ p.total_pages
unfolding free_n_loop
free_n_loop-total zero i addr p = refl
free_n_loop-total (suc left) i addr p =
    free_n_loop-total left (i + 1) addr (pmm_free (u64 (addr + i * page_size)) p)
    ∙ pmm_free-total (u64 (addr + i * page_size)) p

-- The loop frees the pages of a run in use, and no others.
free_n_loop-bits :
    (left i k : ℕ) (p : Pmm)
    → k + i + left ≤ pmm_max_pages
    → ((j : ℕ) → k + i ≤ j → j < k + i + left → bitmap_test p.bitmap j ≢ 0)
    → (j : ℕ)
    → bitmap_test (free_n_loop left i (k * page_size) p).bitmap j
      ≡ (if leb (k + i) j && ltb j (k + i + left) then 0 else bitmap_test p.bitmap j)
unfolding free_n_loop
free_n_loop-bits zero i k p fits used j = ground arith
free_n_loop-bits (suc left) i k p fits used j =
    let q = released (k + i) p in
    let after = bitmap_test-bitmap_clear p.bitmap (k + i) in
    let page : u64 (k * page_size + i * page_size) / page_size ≡ k + i = omega arith in
    let first : pmm_free (u64 (k * page_size + i * page_size)) p ≡ q =
      pmm_free-released p
        (omega arith, omega arith, rw page (used (k + i) (omega arith) (omega arith)))
      ∙ ap (λ x. released x p) page in
    let rest =
      free_n_loop-bits left (i + 1) k q (omega arith)
        (λ j' lo hi. ground (arith, after j', used j')) j in
    ap (λ x. bitmap_test (free_n_loop left (i + 1) (k * page_size) x).bitmap j) first
    ∙ ground (arith, rest, after j)

-- The pages that `pmm_alloc_n` hands out can be given back by `pmm_free_n`, which restores every bit of
-- the bitmap and all three counters.
pub pmm_free_n-pmm_alloc_n :
    (n addr : ℕ) (s t : State)
    → IsValid s.pmm
    → pmm_alloc_n n s ≡ some (addr, t)
    → addr ≢ no_page
    → IsSame (pmm_free_n addr n t.pmm) s.pmm
unfolding pmm_free_n
pmm_free_n-pmm_alloc_n n addr s t v e ne = elim (pmm_alloc_n_lem n s v) [
  | inl (_, done) ↦ absurd (ne (cc))
  | inr (k, fits, free, _, done, valid, bits) ↦
      let at_k : addr ≡ k * page_size = ground arith in
      let after : t ≡ taken_run n k s = ground arith in
      let back =
        free_n_loop-bits n 0 k (take_run n k s.pmm) (omega arith)
          (λ j lo hi. ground (arith, bits j)) in
      rw (at_k, after)
        (IsValid-IsSame (pmm_free_n-IsValid (k * page_size) n valid) v
          (λ j. ground (arith, back j, bits j, free j))
          (free_n_loop-total n 0 (k * page_size) (take_run n k s.pmm) ∙ take_run-total n k s.pmm))
]
