-- ===== src/Base/Bits.antt =====
-- The bit operations bit by bit. `bit x k` is the digit of weight `2 ^ k`; the native operations
-- act on each digit by itself, and a number is determined by its digits.
use Prim.Native.Nat.{
  ℕ, zero, suc, ◌+◌, ◌*◌, ◌/◌, ◌%◌, ◌^◌, ◌≤◌, ◌<◌, min, max, bit_and, bit_or, digits,
  bit_and-bitwise, bit_or-bitwise,
}
use mathlib.Core.Path.{◌≡◌, refl, ap, ◌∙◌}
use native.Mathlib.Omega.{arith}
use native.Mathlib.Nat.{pow-succ', div-div-eq-div-mul, le_refl}

unfoldable pub bit : ℕ → ℕ → ℕ
bit x k = x / 2 ^ k % 2

pub bit-zero : (x : ℕ) → bit x 0 ≡ x % 2
unfolding bit
bit-zero x = omega arith

pub bit-suc : (x k : ℕ) → bit x (suc k) ≡ bit (x / 2) k
unfolding bit
bit-suc x k = rw (pow-succ' 2 k, ← div-div-eq-div-mul x 2 (2 ^ k))

pub bit-lt : (x k : ℕ) → bit x k < 2
unfolding bit
bit-lt x k = omega arith

pub zero-bit : (k : ℕ) → bit 0 k ≡ 0
zero-bit zero = omega (arith, bit-zero 0)
zero-bit (suc k) = bit-suc 0 k ∙ zero-bit k

bit_ext_fuel : (n x y : ℕ) → x ≤ n → y ≤ n → ((k : ℕ) → bit x k ≡ bit y k) → x ≡ y
bit_ext_fuel zero x y p q h = omega arith
bit_ext_fuel (suc n) x y p q h = omega (
  arith,
  bit_ext_fuel n (x / 2) (y / 2) (omega arith) (omega arith)
      (λ k. omega (arith, bit-suc x k, bit-suc y k, h (suc k))),
  bit-zero x,
  bit-zero y,
  h 0,
)

-- A number is determined by its bits.
pub bit_ext : (x y : ℕ) → ((k : ℕ) → bit x k ≡ bit y k) → x ≡ y
bit_ext x y h = bit_ext_fuel (x + y) x y (omega arith) (omega arith) h

-- The definition that both native operations stand for, digit by digit.
module _ (z : ℕ → ℕ) (f : ℕ → ℕ → ℕ) (f-lt : (a b : ℕ) → a < 2 → b < 2 → f a b < 2)
    (z-step : (b : ℕ) → z b ≡ z (b / 2) * 2 + f 0 (b % 2)) where
  digits-zero : (n b : ℕ) → digits z f n 0 b ≡ z b
  digits-zero zero b = refl
  digits-zero (suc n) b = refl

  digits-step :
      (n a b : ℕ) → digits z f (suc n) a b ≡ digits z f n (a / 2) (b / 2) * 2 + f (a % 2) (b % 2)
  digits-step n zero b = z-step b ∙ ap (λ (t : ℕ). t * 2 + f 0 (b % 2)) (digits-half n)
    where
      digits-half : (m : ℕ) → z (b / 2) ≡ digits z f m 0 (b / 2)
      digits-half zero = refl
      digits-half (suc m) = refl
  digits-step n (suc a) b = refl

  digits-suc : (n a b : ℕ) → a ≤ n → digits z f n a b ≡ digits z f (suc n) a b
  digits-suc zero zero b h = refl
  digits-suc zero (suc a) b h = absurd (omega arith)
  digits-suc (suc n) zero b h = refl
  digits-suc (suc n) (suc a) b h = rw (digits-suc n (suc a / 2) (b / 2) (omega arith))

  bit-digits : (k n a b : ℕ) → a ≤ suc n → bit (digits z f (suc n) a b) k ≡ f (bit a k) (bit b k)
  bit-digits zero n a b h =
      rw (bit-zero, bit-zero, bit-zero, digits-step n a b)
        (omega (arith, f-lt (a % 2) (b % 2) (omega arith) (omega arith)))
  bit-digits (suc k) n a b h =
      rw (bit-suc, bit-suc, bit-suc, digits-step n a b)
        (ap (λ t. bit t k) half
          ∙ ap (λ t. bit t k) (digits-suc n (a / 2) (b / 2) (omega arith))
          ∙ bit-digits k n (a / 2) (b / 2) (omega arith))
    where
      half :
          (digits z f n (a / 2) (b / 2) * 2 + f (a % 2) (b % 2)) / 2 ≡ digits z f n (a / 2) (b / 2)
      half = omega (arith, f-lt (a % 2) (b % 2) (omega arith) (omega arith))

  bit-bitwise : (k a b : ℕ) → bit (digits z f a a b) k ≡ f (bit a k) (bit b k)
  bit-bitwise k a b =
      ap (λ t. bit t k) (digits-suc a a b (le_refl _)) ∙ bit-digits k a a b (omega arith)

pub bit-bit_or : (a b k : ℕ) → bit (bit_or a b) k ≡ max (bit a k) (bit b k)
bit-bit_or a b k =
    ap (λ t. bit t k) (bit_or-bitwise a b)
    ∙ bit-bitwise (λ y. y) max (λ x y p q. omega arith) (λ y. omega arith) k a b

pub bit-bit_and : (a b k : ℕ) → bit (bit_and a b) k ≡ min (bit a k) (bit b k)
bit-bit_and a b k =
    ap (λ t. bit t k) (bit_and-bitwise a b)
    ∙ bit-bitwise (λ y. 0) min (λ x y p q. omega arith) (λ y. omega arith) k a b
