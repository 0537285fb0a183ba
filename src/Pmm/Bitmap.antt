-- ===== src/Pmm/Bitmap.antt =====
-- The bitmap operations of pmm/pmm.c.
use native.Mathlib.Nat.{pow-le-pow_right}
use os_kernel.Base.{
  refl, ℕ, ◌-◌, ◌/◌, ◌%◌, ◌^◌, ◌<◌, ◌≡◌, bit_and, bit_or, arith, ◌==◌, if◌then◌else◌, update, u32,
  ◌∙◌, ==_iff, all_below, all_below_sound, true,
}
use os_kernel.Base.Bits.{bit, bit-lt, bit-bit_or, bit-bit_and}
use os_kernel.Base.Fields.{bit_and_low, bit-mod, bit-two_pow, bit-complement}
use os_kernel.Pmm.{bitmap_set, bitmap_clear, bitmap_test}

bitmap_test-bit : (bm : ℕ → ℕ) (i : ℕ) → bitmap_test bm i ≡ bit (bm (i / 8)) (i % 8)
unfolding bitmap_test bit
bitmap_test-bit bm i = rw (bit_and_low 3 i, bit_and_low 1 (bm (i / 8) / 2 ^ (i % 8)))

pub bitmap_test-lt : (bm : ℕ → ℕ) (i : ℕ) → bitmap_test bm i < 2
bitmap_test-lt bm i = omega (arith, bitmap_test-bit bm i, bit-lt (bm (i / 8)) (i % 8))

two_pow-small : (k : ℕ) → k < 8 → u32 (2 ^ k) ≡ 2 ^ k
two_pow-small k h =
    omega (arith, pow-le-pow_right {n = 2} (omega arith) {i = k} {j = 8} (omega arith))

bitmap_set-byte :
    (bm : ℕ → ℕ) (i k : ℕ)
    → bitmap_set bm i k ≡ (if k == i / 8 then bit_or (bm (i / 8)) (2 ^ (i % 8)) % 2 ^ 8 else bm k)
unfolding bitmap_set update
bitmap_set-byte bm i k = rw (bit_and_low 3 i, two_pow-small (i % 8) (omega arith)) refl

bitmap_clear-byte :
    (bm : ℕ → ℕ) (i k : ℕ)
    → bitmap_clear bm i k
      ≡ (if k == i / 8 then bit_and (bm (i / 8)) (2 ^ 32 - 1 - 2 ^ (i % 8)) % 2 ^ 8 else bm k)
unfolding bitmap_clear update
bitmap_clear-byte bm i k = rw (bit_and_low 3 i, two_pow-small (i % 8) (omega arith)) refl

-- `bitmap_set` sets the bit of its page and no other.
pub bitmap_test-bitmap_set :
    (bm : ℕ → ℕ) (i j : ℕ)
    → bitmap_test (bitmap_set bm i) j ≡ (if j == i then 1 else bitmap_test bm j)
bitmap_test-bitmap_set bm i j =
    let byte = bit_or (bm (i / 8)) (2 ^ (i % 8)) in
    rw (bitmap_test-bit, bitmap_test-bit bm j, bitmap_set-byte bm i (j / 8))
      (ground (
        arith,
        bit-mod 8 byte (j % 8),
        bit-bit_or (bm (i / 8)) (2 ^ (i % 8)) (j % 8),
        bit-two_pow (i % 8) (j % 8),
        bit-lt (bm (i / 8)) (j % 8),
      ))

-- `bitmap_clear` clears the bit of its page and no other.
pub bitmap_test-bitmap_clear :
    (bm : ℕ → ℕ) (i j : ℕ)
    → bitmap_test (bitmap_clear bm i) j ≡ (if j == i then 0 else bitmap_test bm j)
bitmap_test-bitmap_clear bm i j =
    let byte = bit_and (bm (i / 8)) (2 ^ 32 - 1 - 2 ^ (i % 8)) in
    rw (bitmap_test-bit, bitmap_test-bit bm j, bitmap_clear-byte bm i (j / 8))
      (ground (
        arith,
        bit-mod 8 byte (j % 8),
        bit-bit_and (bm (i / 8)) (2 ^ 32 - 1 - 2 ^ (i % 8)) (j % 8),
        bit-complement 32 (2 ^ (i % 8)) (j % 8) (small i),
        bit-two_pow (i % 8) (j % 8),
        bit-lt (bm (i / 8)) (j % 8),
      ))
  where
    small : (i : ℕ) → 2 ^ (i % 8) < 2 ^ 32
    small i =
        omega (arith, pow-le-pow_right {n = 2} (omega arith) {i = i % 8} {j = 8} (omega arith))

-- A bitmap of bytes 0xFF has every bit set.
pub bitmap_test-full : (j : ℕ) → bitmap_test (λ i. 0xFF) j ≡ 1
bitmap_test-full j =
    bitmap_test-bit (λ i. 0xFF) j
    ∙ (==_iff _ _).0 (all_below_sound 8 (λ k. bit 0xFF k == 1) (j % 8) ones (omega arith))
  where
    ones : all_below 8 (λ k. bit 0xFF k == 1) ≡ true
    ones = unfold all_below bit in refl
