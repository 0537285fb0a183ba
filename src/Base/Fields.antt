-- ===== src/Base/Fields.antt =====
-- Shifts, masks and complements bit by bit, and the laws of `&` and `|` that follow.
use Prim.Native.Nat.{ℕ, zero, suc, ◌+◌, ◌-◌, ◌*◌, ◌/◌, ◌%◌, ◌^◌, ◌≤◌, ◌<◌, bit_and, bit_or}
use mathlib.Core.Path.{◌≡◌, refl, ap, ◌∙◌, sym}
use mathlib.Core.Logic.{inl, inr}
use native.Mathlib.Omega.{arith}
use native.Mathlib.Nat.{
  pow-succ', one-le-pow, div-div-eq-div-mul, add-mul-div_right, add-mul-mod_self_right,
  mod-eq_of_lt, div-eq_of_lt, div-add-mod, mod-lt, add_comm,
}
use os_kernel.Base.Tests.{◌==◌, ltb, if◌then◌else◌, Bool-cases}
use os_kernel.Base.Bits.{bit, bit-zero, bit-suc, bit-lt, zero-bit, bit_ext, bit-bit_or, bit-bit_and}

pub two-pow-pos : (k : ℕ) → 1 ≤ 2 ^ k
two-pow-pos k = one-le-pow k 2 (omega arith)

pub bit_of_lt : (m x k : ℕ) → x < 2 ^ m → m ≤ k → bit x k ≡ 0
bit_of_lt zero x k h le = let e : x ≡ 0 = omega arith in rw e (zero-bit k)
bit_of_lt (suc m) x zero h le = absurd (omega arith)
bit_of_lt (suc m) x (suc k) h le =
    bit-suc x k ∙ bit_of_lt m (x / 2) k (omega (arith, pow-succ' 2 m)) (omega arith)

pub bit-one : (k : ℕ) → bit 1 k ≡ (if k == 0 then 1 else 0)
bit-one zero = bit-zero 1
bit-one (suc k) = bit_of_lt 1 1 (suc k) (omega arith) (omega arith) ∙ (ground arith)

pub bit-two_pow : (i k : ℕ) → bit (2 ^ i) k ≡ (if k == i then 1 else 0)
bit-two_pow zero k = bit-one k
bit-two_pow (suc i) zero = bit-zero (2 ^ suc i) ∙ ground (arith, pow-succ' 2 i)
bit-two_pow (suc i) (suc k) =
    bit-suc (2 ^ suc i) k
    ∙ ap (λ t. bit t k) (omega (arith, pow-succ' 2 i))
    ∙ bit-two_pow i k
    ∙ ground arith

-- `2 ^ m - 1 - x` is the complement of `x` in `m` bits.
pub bit-complement :
    (m x k : ℕ) → x < 2 ^ m → bit (2 ^ m - 1 - x) k ≡ (if ltb k m then 1 - bit x k else 0)
bit-complement zero x k h = ap (λ t. bit t k) (omega arith) ∙ zero-bit k ∙ ground arith
bit-complement (suc m) x zero h =
    bit-zero (2 ^ suc m - 1 - x) ∙ ground (arith, pow-succ' 2 m, bit-zero x)
bit-complement (suc m) x (suc k) h =
    bit-suc (2 ^ suc m - 1 - x) k
    ∙ ap (λ t. bit t k) (omega (arith, pow-succ' 2 m))
    ∙ bit-complement m (x / 2) k (omega (arith, pow-succ' 2 m))
    ∙ ground (arith, bit-suc x k)

pub bit-ones : (m k : ℕ) → bit (2 ^ m - 1) k ≡ (if ltb k m then 1 else 0)
bit-ones m k =
    ap (λ t. bit t k) (omega arith)
    ∙ bit-complement m 0 k (two-pow-pos m)
    ∙ ground (arith, zero-bit k)

div-mod_unique : (p q r : ℕ) → r < p → ((q * p + r) / p ≡ q) × ((q * p + r) % p ≡ r)
div-mod_unique p q r h = (
  rw (add_comm (q * p) r, add-mul-div_right r q {z = p} (omega arith), div-eq_of_lt h)
      (omega arith),
  rw (add_comm (q * p) r, add-mul-mod_self_right r q p, mod-eq_of_lt h) refl,
)

mod-two_pow-suc : (m x : ℕ) → x % 2 ^ suc m ≡ x / 2 % 2 ^ m * 2 + x % 2
mod-two_pow-suc m x =
    ap (λ (t : ℕ). t % 2 ^ suc m) split
    ∙ (div-mod_unique (2 ^ suc m) (x / 2 / 2 ^ m) (x / 2 % 2 ^ m * 2 + x % 2) below).1
  where
    below : x / 2 % 2 ^ m * 2 + x % 2 < 2 ^ suc m
    below = omega (arith, pow-succ' 2 m, mod-lt (x / 2) (two-pow-pos m))

    split : x ≡ x / 2 / 2 ^ m * 2 ^ suc m + (x / 2 % 2 ^ m * 2 + x % 2)
    split =
        omega
          (arith, ap (λ (t : ℕ). x / 2 / 2 ^ m * t) (pow-succ' 2 m), div-add-mod (x / 2) (2 ^ m))

pub bit-mod : (m x k : ℕ) → bit (x % 2 ^ m) k ≡ (if ltb k m then bit x k else 0)
bit-mod zero x k = ap (λ t. bit t k) (omega arith) ∙ zero-bit k ∙ ground arith
bit-mod (suc m) x zero = bit-zero (x % 2 ^ suc m) ∙ ground (arith, mod-two_pow-suc m x, bit-zero x)
bit-mod (suc m) x (suc k) =
    bit-suc (x % 2 ^ suc m) k
    ∙ ap (λ t. bit t k) (omega (arith, mod-two_pow-suc m x))
    ∙ bit-mod m (x / 2) k
    ∙ ground (arith, bit-suc x k)

pub bit-shift_right : (j x k : ℕ) → bit (x / 2 ^ j) k ≡ bit x (k + j)
bit-shift_right zero x k = ap (λ t. bit t k) (omega arith) ∙ ap (bit x) (omega arith)
bit-shift_right (suc j) x k =
    ap (λ t. bit t k) (rw (pow-succ' 2 j, ← div-div-eq-div-mul x 2 (2 ^ j)) refl)
    ∙ bit-shift_right j (x / 2) k
    ∙ sym (bit-suc x (k + j))
    ∙ ap (bit x) (omega arith)

pub bit-shift_left : (j y k : ℕ) → bit (y * 2 ^ j) k ≡ (if ltb k j then 0 else bit y (k - j))
bit-shift_left zero y k = ap (λ t. bit t k) {y = y} (omega arith) ∙ ground arith
bit-shift_left (suc j) y zero = bit-zero (y * 2 ^ suc j) ∙ even ∙ ground arith
  where
    even : y * 2 ^ suc j % 2 ≡ 0
    even = omega (arith, ap (λ (t : ℕ). y * t) (pow-succ' 2 j))
bit-shift_left (suc j) y (suc k) =
    bit-suc (y * 2 ^ suc j) k
    ∙ ap (λ t. bit t k) {x = y * 2 ^ suc j / 2} {y = y * 2 ^ j} half
    ∙ bit-shift_left j y k
    ∙ ground arith
  where
    half : y * 2 ^ suc j / 2 ≡ y * 2 ^ j
    half = omega (arith, ap (λ (t : ℕ). y * t) (pow-succ' 2 j))

-- `x & (((1 << m) - 1) << k)` keeps the `m` bits from bit `k` on.
pub bit_and_field : (k m x : ℕ) → bit_and x ((2 ^ m - 1) * 2 ^ k) ≡ x / 2 ^ k % 2 ^ m * 2 ^ k
bit_and_field k m x = bit_ext _ _ λ j. ground (
  arith,
  bit-bit_and x ((2 ^ m - 1) * 2 ^ k) j,
  bit-shift_left k (2 ^ m - 1) j,
  bit-ones m (j - k),
  bit-shift_left k (x / 2 ^ k % 2 ^ m) j,
  bit-mod m (x / 2 ^ k) (j - k),
  bit-shift_right k x (j - k),
  bit-lt x j,
)

pub bit_and_low : (m x : ℕ) → bit_and x (2 ^ m - 1) ≡ x % 2 ^ m
bit_and_low m x =
    bit_ext _ _
      λ j. ground (arith, bit-bit_and x (2 ^ m - 1) j, bit-ones m j, bit-mod m x j, bit-lt x j)

pub bit_and-bit_or : (a b c : ℕ) → bit_and (bit_or a b) c ≡ bit_or (bit_and a c) (bit_and b c)
bit_and-bit_or a b c = bit_ext _ _ λ j. omega (
  arith,
  bit-bit_and (bit_or a b) c j,
  bit-bit_or a b j,
  bit-bit_or (bit_and a c) (bit_and b c) j,
  bit-bit_and a c j,
  bit-bit_and b c j,
)

pub bit_and_assoc : (a b c : ℕ) → bit_and (bit_and a b) c ≡ bit_and a (bit_and b c)
bit_and_assoc a b c = bit_ext _ _ λ j. omega (
  arith,
  bit-bit_and (bit_and a b) c j,
  bit-bit_and a b j,
  bit-bit_and a (bit_and b c) j,
  bit-bit_and b c j,
)

pub bit_or-zero : (a : ℕ) → bit_or a 0 ≡ a
bit_or-zero a = bit_ext _ _ λ j. omega (arith, bit-bit_or a 0 j, zero-bit j)

-- `(q << k) | r` is a sum when `r` fits in `k` bits.
pub bit_or_add : (k q r : ℕ) → r < 2 ^ k → bit_or (q * 2 ^ k) r ≡ q * 2 ^ k + r
bit_or_add k q r h = bit_ext _ _ λ j. elim (Bool-cases (ltb j k)) [
  | inl low ↦ ground (
    arith,
    bit-bit_or (q * 2 ^ k) r j,
    bit-shift_left k q j,
    bit-mod k (q * 2 ^ k + r) j,
    ap (λ t. bit t j) (div-mod_unique (2 ^ k) q r h).1,
  )
  | inr high ↦ ground (
    arith,
    bit-bit_or (q * 2 ^ k) r j,
    bit-shift_left k q j,
    bit_of_lt k r j h,
    bit-shift_right k (q * 2 ^ k + r) (j - k),
    ap (λ t. bit t (j - k)) (div-mod_unique (2 ^ k) q r h).0,
  )
]

mod_eq_self→lt : (m x : ℕ) → x % 2 ^ m ≡ x → x < 2 ^ m
mod_eq_self→lt m x e = omega (arith, mod-lt x (two-pow-pos m))

pub bit_or-lt : (m a b : ℕ) → a < 2 ^ m → b < 2 ^ m → bit_or a b < 2 ^ m
bit_or-lt m a b p q = mod_eq_self→lt m (bit_or a b) (
    bit_ext _ _ λ j.
      ground
        (arith, bit-mod m (bit_or a b) j, bit-bit_or a b j, bit_of_lt m a j p, bit_of_lt m b j q))

pub bit_or_assoc : (a b c : ℕ) → bit_or (bit_or a b) c ≡ bit_or a (bit_or b c)
bit_or_assoc a b c = bit_ext _ _ λ j. omega (
  arith,
  bit-bit_or (bit_or a b) c j,
  bit-bit_or a b j,
  bit-bit_or a (bit_or b c) j,
  bit-bit_or b c j,
)

pub bit_or_comm : (a b : ℕ) → bit_or a b ≡ bit_or b a
bit_or_comm a b = bit_ext _ _ λ j. omega (arith, bit-bit_or a b j, bit-bit_or b a j)
