-- ===== src/Vmm/Word.antt =====
-- 64-bit words in the memory, for the table entries of vmm/vmm.c.
use native.Mathlib.Nat.{add-zero}
use os_kernel.Base.{ℕ, ◌+◌, ◌-◌, ◌^◌, ◌≤◌, ◌<◌, ◌≡◌, ◌⊎◌, refl, arith, ap, le→leb, lt→ltb}
use os_kernel.Pmm.Alloc.{zeroed}
use os_kernel.Vmm.{byte_of, load64, store64}

-- A word is determined by its eight bytes.
pub load64_ext :
    (f g : ℕ → ℕ) (a : ℕ) → ((i : ℕ) → i < 8 → f (a + i) ≡ g (a + i)) → load64 f a ≡ load64 g a
unfolding load64
load64_ext f g a h = omega (
  arith,
  h 0 (omega arith),
  h 1 (omega arith),
  h 2 (omega arith),
  h 3 (omega arith),
  h 4 (omega arith),
  h 5 (omega arith),
  h 6 (omega arith),
  h 7 (omega arith),
  ap f (add-zero a),
  ap g (add-zero a),
)

store64-at : (mem : ℕ → ℕ) (a v i : ℕ) → i < 8 → store64 mem a v (a + i) ≡ byte_of v i
unfolding store64
store64-at mem a v i h =
    let back : a + i - a ≡ i = omega arith in
    rw (le→leb a (a + i) (omega arith), lt→ltb (a + i) (a + 8) (omega arith), back) refl

pub load64-store64_self : (mem : ℕ → ℕ) (a v : ℕ) → v < 2 ^ 64 → load64 (store64 mem a v) a ≡ v
unfolding load64
load64-store64_self mem a v h = omega (
  arith,
  store64-at mem a v 0 (omega arith),
  store64-at mem a v 1 (omega arith),
  store64-at mem a v 2 (omega arith),
  store64-at mem a v 3 (omega arith),
  store64-at mem a v 4 (omega arith),
  store64-at mem a v 5 (omega arith),
  store64-at mem a v 6 (omega arith),
  store64-at mem a v 7 (omega arith),
  ap (store64 mem a v) (add-zero a),
)

pub load64-store64_ne :
    (mem : ℕ → ℕ) (a v b : ℕ)
    → (a + 8 ≤ b) ⊎ (b + 8 ≤ a)
    → load64 (store64 mem a v) b ≡ load64 mem b
load64-store64_ne mem a v b h =
    load64_ext (store64 mem a v) mem b (λ i lt. unfold store64 in ground arith)

pub load64-zeroed_ne :
    (mem : ℕ → ℕ) (a n b : ℕ) → (a + n ≤ b) ⊎ (b + 8 ≤ a) → load64 (zeroed a n mem) b ≡ load64 mem b
load64-zeroed_ne mem a n b h =
    load64_ext (zeroed a n mem) mem b (λ i lt. unfold zeroed in ground arith)

pub load64-zeroed :
    (mem : ℕ → ℕ) (a n b : ℕ) → a ≤ b → b + 8 ≤ a + n → load64 (zeroed a n mem) b ≡ 0
unfolding load64 zeroed
load64-zeroed mem a n b p q = ground arith
