-- ===== src/Memory/Copy.antt =====
-- The routines of lib/memory.c that copy and fill.
use native.Mathlib.Nat.{add-zero, add_assoc}
use os_kernel.Base.{
  ℕ, zero, suc, ◌+◌, ◌-◌, ◌%◌, ◌^◌, ◌<◌, ◌≤◌, ◌≡◌, ◌⊎◌, inl, inr, refl, arith, ltb, leb, ◌&&◌,
  if◌then◌else◌, update, ◌∙◌, Bool-cases, ltb→lt, ltb→le, ap, sym,
}
use os_kernel.Memory.{
  Bytes, memcpy_loop, memcpy, forward_loop, backward_loop, memmove, memset_loop, memset,
}

-- The memory in which the `n` bytes from `d` on are those that `m` has from `s` on.
abbrev pub moved : ℕ → ℕ → ℕ → Bytes → Bytes
moved d s n m a = if leb d a && ltb a (d + n) then m (s + (a - d)) else m a

pub forward_loop-moved :
    (n d s : ℕ) (m : Bytes) (a : ℕ) → d < s → forward_loop n d s m a ≡ moved d s n m a
unfolding forward_loop update
forward_loop-moved zero d s m a lt = ground arith
forward_loop-moved (suc n) d s m a lt =
    let far : (d < a → m (s + 1 + (a - (d + 1))) ≡ m (s + (a - d))) = λ h. ap m (omega arith) in
    let here : (a ≡ d → m (s + (a - d)) ≡ m s) = λ h. ap m (omega arith) in
    forward_loop-moved n (d + 1) (s + 1) (update m d (m s)) a (omega arith)
    ∙ ground (arith, far, here)

backward_loop-moved :
    (n d s : ℕ) (m : Bytes) (a : ℕ) → s ≤ d → backward_loop n (d + n) (s + n) m a ≡ moved d s n m a
unfolding backward_loop update
backward_loop-moved zero d s m a le = ground arith
backward_loop-moved (suc n) d s m a le =
    let value : m (s + suc n - 1) ≡ m (s + n) = ap m (omega arith) in
    let last : d + suc n - 1 ≡ d + n = omega arith in
    let last' : s + suc n - 1 ≡ s + n = omega arith in
    let here : (a ≡ d + n → m (s + (a - d)) ≡ m (s + n)) = λ h. ap m (omega arith) in
    rw (last, last')
      (backward_loop-moved n d s (update m (d + n) (m (s + n))) a le ∙ ground (arith, here))

-- `memmove` moves its bytes whether or not the two areas overlap: the destination then holds what
-- the source held before, and every other byte stays.
pub memmove_lem : (d s n : ℕ) (m : Bytes) (a : ℕ) → memmove d s n m a ≡ moved d s n m a
unfolding memmove
memmove_lem d s n m a = elim (Bool-cases (ltb d s)) [
  | inl below ↦ rw below (forward_loop-moved n d s m a (ltb→lt d s below))
  | inr above ↦ rw above (backward_loop-moved n d s m a (ltb→le d s above))
]

memcpy_loop-forward_loop :
    (left i d s : ℕ) (m : Bytes) → memcpy_loop left i d s m ≡ forward_loop left (d + i) (s + i) m
unfolding memcpy_loop forward_loop
memcpy_loop-forward_loop zero i d s m = refl
memcpy_loop-forward_loop (suc left) i d s m =
    memcpy_loop-forward_loop left (i + 1) d s _ ∙ rw (add_assoc d i 1, add_assoc s i 1) refl

pub forward_loop-apart :
    (n d s : ℕ) (m : Bytes) (a : ℕ) → s + n ≤ d → forward_loop n d s m a ≡ moved d s n m a
unfolding forward_loop update
forward_loop-apart zero d s m a h = ground arith
forward_loop-apart (suc n) d s m a h =
    let far : (d < a → m (s + 1 + (a - (d + 1))) ≡ m (s + (a - d))) = λ h. ap m (omega arith) in
    let here : (a ≡ d → m (s + (a - d)) ≡ m s) = λ h. ap m (omega arith) in
    forward_loop-apart n (d + 1) (s + 1) (update m d (m s)) a (omega arith)
    ∙ ground (arith, far, here)

-- On areas that do not overlap, or when the destination begins below the source, `memcpy` does
-- what `memmove` does.
memcpy-memmove :
    (d s n : ℕ) (m : Bytes) (a : ℕ) → (d < s) ⊎ (s + n ≤ d) → memcpy d s n m a ≡ memmove d s n m a
unfolding memcpy
memcpy-memmove d s n m a h =
    rw (memcpy_loop-forward_loop n 0 d s m, add-zero d, add-zero s)
      ((elim h [
        | inl below ↦ forward_loop-moved n d s m a below
        | inr apart ↦ forward_loop-apart n d s m a apart
      ])
        ∙ sym (memmove_lem d s n m a))

memset_loop_lem :
    (left i d value : ℕ) (m : Bytes) (a : ℕ)
    → memset_loop left i d value m a
      ≡ (if leb (d + i) a && ltb a (d + i + left) then value % 2 ^ 8 else m a)
unfolding memset_loop update
memset_loop_lem zero i d value m a = ground arith
memset_loop_lem (suc left) i d value m a = memset_loop_lem left (i + 1) d value _ a ∙ ground arith

-- `memset` writes the low eight bits of its value to the `n` bytes from `d` on and to no other.
memset_lem :
    (d value n : ℕ) (m : Bytes) (a : ℕ)
    → memset d value n m a ≡ (if leb d a && ltb a (d + n) then value % 2 ^ 8 else m a)
unfolding memset
memset_lem d value n m a = memset_loop_lem n 0 d value m a ∙ ground arith
