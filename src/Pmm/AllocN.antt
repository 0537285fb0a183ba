-- ===== src/Pmm/AllocN.antt =====
-- `pmm_alloc_n` of pmm/pmm.c: its search for a run of free pages.
use os_kernel.Base.{
  ℕ, zero, suc, ◌+◌, ◌*◌, ◌≤◌, ◌<◌, ◌≡◌, ◌⊎◌, inl, inr, refl, arith, ◌==◌, ltb, leb, ◌&&◌,
  if◌then◌else◌, Bool-cases, true, false, some, Option, ==_iff, ==→ne, ltb→lt, ltb→le, u64,
}
use os_kernel.Types.{page_size}
use os_kernel.Pmm.{
  Pmm, State, ◌>>◌, ◌>>=◌, pure, pmm_max_pages, no_page, phys_to_virt, memset, bitmap_test,
  take_page, take_run, alloc_n_scan, pmm_alloc_n,
}
use os_kernel.Pmm.Bitmap.{bitmap_test-bitmap_set}
use os_kernel.Pmm.Count.{IsValid, free_count}
use os_kernel.Pmm.Alloc.{zeroed, take_page-IsValid, phys_to_virt-some, memset-zeroed}

-- the `n` pages from `k` on are free
abbrev pub IsRun : (ℕ → ℕ) → ℕ → ℕ → Type 0
IsRun bm k n = (j : ℕ) → k ≤ j → j < k + n → bitmap_test bm j ≡ 0

-- A run of free pages is not longer than their number.
le-free_count : (bm : ℕ → ℕ) (k n m : ℕ) → k + n ≤ m → IsRun bm k n → n ≤ free_count bm m
unfolding free_count
le-free_count bm k n zero fits run = omega arith
le-free_count bm k zero (suc m) fits run = omega arith
le-free_count bm k (suc n) (suc m) fits run = elim (Bool-cases (k + suc n == suc m)) [
  | inr inside ↦ omega (arith, le-free_count bm k (suc n) m (omega (arith, ==→ne _ _ inside)) run)
  | inl end ↦
      let last : k + suc n ≡ suc m = (==_iff _ _).0 end in
      let shorter : n ≤ free_count bm m =
        le-free_count bm k n m (omega arith) (λ j lo hi. run j lo (omega arith)) in
      ground (arith, run m (omega arith) (omega arith))
]

-- Taking a run marks its pages and keeps the allocator valid.
pub take_run-IsValid :
    (n k : ℕ) {p : Pmm}
    → IsValid p
    → k + n ≤ pmm_max_pages
    → IsRun p.bitmap k n
    → IsValid (take_run n k p)
      × ((j : ℕ)
          → bitmap_test (take_run n k p).bitmap j
            ≡ (if leb k j && ltb j (k + n) then 1 else bitmap_test p.bitmap j))
unfolding take_run take_page
take_run-IsValid zero k v fits run = (v, λ j. ground arith)
take_run-IsValid (suc n) k {p} v fits run =
    let bits = bitmap_test-bitmap_set p.bitmap k in
    let (valid, rest) =
      take_run-IsValid n (k + 1) {p = take_page k p}
        (take_page-IsValid k v (omega arith) (run k (omega arith) (omega arith))) (omega arith)
        (λ j lo hi. ground (arith, bits j, run j)) in
    (valid, λ j. ground (arith, rest j, bits j))

-- the state after the run has been taken and zeroed
abbrev pub taken_run : ℕ → ℕ → State → State
taken_run n k s = record {
  pmm = take_run n k s.pmm;
  phys_mem = zeroed (k * page_size) (n * page_size) s.phys_mem;
}

zero_run :
    (n k : ℕ) (s : State)
    → 0 < n
    → k + n ≤ pmm_max_pages
    → (memset (phys_to_virt (k * page_size)) 0 (u64 (n * page_size)) >> pure (k * page_size))
        (record s { pmm = take_run n k s.pmm })
      ≡ some (k * page_size, taken_run n k s)
zero_run n k s pos fits =
    let size : u64 (n * page_size) ≡ n * page_size = omega arith in
    rw
      (
        size,
        phys_to_virt-some (k * page_size) (omega arith),
        memset-zeroed (k * page_size) (n * page_size) (record s { pmm = take_run n k s.pmm })
            (omega arith),
        ◌>>=◌,
      )
      refl

-- What the search returns: the first run that is long enough, or nothing when there is none.
abbrev Search : ℕ → State → Option (ℕ × State) → Type 0
Search n s r =
    (((k : ℕ) → k + n ≤ pmm_max_pages → ¬ IsRun s.pmm.bitmap k n) × (r ≡ some (no_page, s)))
    ⊎ ((k : ℕ) × (k + n ≤ pmm_max_pages)
        × IsRun s.pmm.bitmap k n
        × ((k' : ℕ) → k' < k → ¬ IsRun s.pmm.bitmap k' n)
        × (r ≡ some (k * page_size, taken_run n k s)))

module _ (n : ℕ) (pos : 0 < n) (s : State) where
  -- no run begins below `b`
  abbrev NoneBelow : ℕ → Type 0
  NoneBelow b = (k : ℕ) → k < b → ¬ IsRun s.pmm.bitmap k n

  -- The search at page `i`, with the pages from `b` to `i` free and none free before them that would do.
  alloc_n_scan-Search :
      (left i run start b : ℕ)
      → i + left ≡ pmm_max_pages
      → b + run ≡ i
      → run < n
      → ((run == 0) ≡ false → start ≡ b)
      → IsRun s.pmm.bitmap b run
      → NoneBelow b
      → Search n s (alloc_n_scan n left i run start s)
  unfolding alloc_n_scan
  alloc_n_scan-Search zero i run start b e at short from free none_below =
      inl (λ k fits is. none_below k (omega arith) is, refl)
  alloc_n_scan-Search (suc left) i run start b e at short from free none_below =
      elim (Bool-cases (bitmap_test s.pmm.bitmap i == 0)) [
        | inr used ↦ rw used (
            alloc_n_scan-Search left (i + 1) 0 start (i + 1) (omega arith) (omega arith) pos
              (λ h. cc) (λ j lo hi. absurd (omega arith))
              (λ k lt is. elim (Bool-cases (ltb k b)) [
                | inl old ↦ none_below k (ltb→lt _ _ old) is
                | inr new ↦
                    let above = ltb→le _ _ new in
                    ==→ne _ _ used (is i (omega arith) (omega (arith, above)))
              ]))
        | inl empty ↦ elim (Bool-cases (run + 1 == n)) [
          | inr longer ↦
              rw (empty, longer, begins)
                (alloc_n_scan-Search left (i + 1) (run + 1) b b (omega arith) (omega arith)
                  (omega (arith, ==→ne _ _ longer)) (λ h. refl) (extended empty) none_below)
          | inl found ↦
              let size : run + 1 ≡ n = (==_iff _ _).0 found in
              inr (
                b,
                omega arith,
                λ j lo hi. extended empty j lo (omega arith),
                none_below,
                rw (empty, found, begins) (zero_run n b s pos (omega arith)),
              )
        ]
      ]
    where
      begins : (if run == 0 then i else start) ≡ b
      begins = ground (arith, from)

      extended : (bitmap_test s.pmm.bitmap i == 0) ≡ true → IsRun s.pmm.bitmap b (run + 1)
      extended empty j lo hi = ground (arith, free j)

-- `pmm_alloc_n` on a valid allocator, in full: when `n` is 0 or no `n` pages in a row are free it returns
-- `(paddr_t)-1` and changes nothing; otherwise it returns the address of the first such run, marks its pages
-- and no others, zeroes their bytes and no others, and the allocator stays valid.
pub pmm_alloc_n_lem :
    (n : ℕ) (s : State)
    → IsValid s.pmm
    → ((n ≡ 0) ⊎ ((k : ℕ) → k + n ≤ pmm_max_pages → ¬ IsRun s.pmm.bitmap k n))
        × (pmm_alloc_n n s ≡ some (no_page, s))
      ⊎ ((k : ℕ) × (k + n ≤ pmm_max_pages)
          × IsRun s.pmm.bitmap k n
          × ((k' : ℕ) → k' < k → ¬ IsRun s.pmm.bitmap k' n)
          × (pmm_alloc_n n s ≡ some (k * page_size, taken_run n k s))
          × IsValid (taken_run n k s).pmm
          × ((j : ℕ)
              → bitmap_test (taken_run n k s).pmm.bitmap j
                ≡ (if leb k j && ltb j (k + n) then 1 else bitmap_test s.pmm.bitmap j)))
unfolding pmm_alloc_n
pmm_alloc_n_lem n s v = elim (Bool-cases (n == 0)) [
  | inl nothing ↦ inl (inl ((==_iff _ _).0 nothing), rw nothing refl)
  | inr some_pages ↦ elim (Bool-cases (ltb s.pmm.free_pages n)) [
    | inl few ↦ inl (
      inr (λ k fits is. absurd (
          omega (
            arith,
            ltb→lt _ _ few,
            v.counted,
            le-free_count s.pmm.bitmap k n pmm_max_pages fits is,
          ))),
      rw (some_pages, few) refl,
    )
    | inr enough ↦
        let pos : 0 < n = ground arith in
        elim (alloc_n_scan-Search n pos s pmm_max_pages 0 0 0 0 refl refl pos (λ h. refl)
          (λ j lo hi. absurd (omega arith)) (λ k lt is. absurd (omega arith))) [
            | inl (none_there, done) ↦ inl (inr none_there, rw (some_pages, enough) done)
            | inr (k, fits, is, first, done) ↦
                let (valid, bits) = take_run-IsValid n k v fits is in
                inr (k, fits, is, first, rw (some_pages, enough) done, valid, bits)
          ]
  ]
]
