-- ===== src/Pmm/Count.antt =====
-- Counting the free pages of a bitmap, and the allocator's invariant.
use os_kernel.Base.{
  ℕ, zero, suc, ◌+◌, ◌%◌, ◌^◌, ◌≤◌, ◌<◌, ◌≡◌, ◌≢◌, inl, inr, refl, arith, ◌==◌, if◌then◌else◌,
  Bool-cases,
}
use os_kernel.Pmm.{Pmm, pmm_max_pages, bitmap_test}

-- the number of clear bits among the first `n`
unfoldable pub free_count : (ℕ → ℕ) → ℕ → ℕ
free_count bm zero = 0
free_count bm (suc n) = (if bitmap_test bm n == 0 then 1 else 0) + free_count bm n

-- The counters agree with the bitmap: `free_pages` is the number of clear bits, and free and used
-- pages add up to the total (modulo 2 ^ 64, as the counters do).
pub record IsValid (p : Pmm) : Type 0 where
  pub counted : p.free_pages ≡ free_count p.bitmap pmm_max_pages
  pub conserved : (p.free_pages + p.used_pages) % 2 ^ 64 ≡ p.total_pages
  pub used_small : p.used_pages < 2 ^ 64

pub free_count-le : (bm : ℕ → ℕ) (n : ℕ) → free_count bm n ≤ n
unfolding free_count
free_count-le bm zero = omega arith
free_count-le bm (suc n) = ground (arith, free_count-le bm n)

pub free_pages-le : {p : Pmm} → IsValid p → p.free_pages ≤ pmm_max_pages
free_pages-le {p} v = omega (arith, v.counted, free_count-le p.bitmap pmm_max_pages)

pub free_count_ext :
    (f g : ℕ → ℕ) (n : ℕ)
    → ((j : ℕ) → j < n → bitmap_test f j ≡ bitmap_test g j)
    → free_count f n ≡ free_count g n
unfolding free_count
free_count_ext f g zero h = refl
free_count_ext f g (suc n) h = ground (arith, h n, free_count_ext f g n (λ j lt. h j (omega arith)))

-- If the bits of `g` are those of `f` but for page `i`, which is free in `f` alone, then `f` has one
-- free page more.
pub free_count-one_more :
    (f g : ℕ → ℕ) (i n : ℕ)
    → i < n
    → bitmap_test f i ≡ 0
    → ((j : ℕ) → bitmap_test g j ≡ (if j == i then 1 else bitmap_test f j))
    → free_count f n ≡ suc (free_count g n)
unfolding free_count
free_count-one_more f g i zero lt free h = absurd (omega arith)
free_count-one_more f g i (suc n) lt free h = elim (Bool-cases (n == i)) [
  | inl last ↦
      let same : free_count f n ≡ free_count g n =
        free_count_ext f g n (λ j below. ground (arith, h j)) in
      ground (arith, h n, same)
  | inr earlier ↦ ground (arith, h n, free_count-one_more f g i n (ground arith) free h)
]

-- Where every page below `n` is in use, the count is 0, and conversely.
pub free_count-zero :
    (bm : ℕ → ℕ) (n : ℕ) → ((j : ℕ) → j < n → bitmap_test bm j ≢ 0) → free_count bm n ≡ 0
unfolding free_count
free_count-zero bm zero h = refl
free_count-zero bm (suc n) h = ground (arith, h n, free_count-zero bm n (λ j lt. h j (omega arith)))

pub free_count_eq_zero : (bm : ℕ → ℕ) (n j : ℕ) → free_count bm n ≡ 0 → j < n → bitmap_test bm j ≢ 0
unfolding free_count
free_count_eq_zero bm zero j e lt = absurd (omega arith)
free_count_eq_zero bm (suc n) j e lt = ground (arith, free_count_eq_zero bm n j)
