-- ===== src/Kmalloc/Merged.antt =====
-- First fit keeps free neighbours joined.
use mathlib.Core.Path.{subst}
use os_kernel.Base.{
  ℕ, ◌+◌, ◌-◌, ◌≡◌, inl, inr, refl, arith, sym, ltb, ◌&&◌, Bool, true, false, some, [], ◌∷◌,
  Bool-cases,
}
use os_kernel.Kmalloc.Blocks.{Blocks, take, allocate, IsMerged}
use os_kernel.Kmalloc.Merge.{allocate-Steps, IsMerged-rest}

-- whether the first block is free
abbrev first_free : Blocks → Bool
first_free [] = false
first_free ((n, f) ∷ rest) = f

IsMerged-first :
    (n : ℕ) (f : Bool) (rest : Blocks)
    → (f && first_free rest) ≡ false
    → IsMerged rest
    → IsMerged ((n, f) ∷ rest)
IsMerged-first n f [] one h = tt
IsMerged-first n f ((m, g) ∷ rest) one h = (one, h)

first_free-IsMerged :
    (n : ℕ) (f : Bool) (rest : Blocks) → IsMerged ((n, f) ∷ rest) → (f && first_free rest) ≡ false
first_free-IsMerged n f [] h = ground arith
first_free-IsMerged n f ((m, g) ∷ rest) (one, h) = one

module _ (size : ℕ) where
  allocate-first :
      (a : ℕ) (blocks : Blocks) (p : ℕ) (blocks' : Blocks)
      → allocate size a blocks ≡ some (p, blocks')
      → first_free blocks ≡ false
      → first_free blocks' ≡ false
  unfolding allocate
  allocate-first a [] p blocks' e used = absurd (cc)
  allocate-first a ((n, f) ∷ rest) p blocks' e used =
      elim (allocate-Steps size a n f rest p blocks' e) [
        | inl (free, le, here, taken) ↦ absurd (cc)
        | inr (rest', found, passed) ↦ rw passed used
      ]

  take-IsMerged :
      (n : ℕ) (rest : Blocks) → IsMerged ((n, true) ∷ rest) → IsMerged (take size n rest)
  unfolding take
  take-IsMerged n rest h = elim (Bool-cases (ltb (size + 12) n)) [
    | inl room ↦
        let later : IsMerged ((n - size - 12, true) ∷ rest) =
          IsMerged-first (n - size - 12) true rest (first_free-IsMerged n true rest h)
            (IsMerged-rest size n true rest h) in
        rw room (refl, later)
    | inr full ↦ rw full (IsMerged-first n false rest refl (IsMerged-rest size n true rest h))
  ]

  -- First fit keeps blocks merged.
  pub allocate-IsMerged :
      (a : ℕ) (blocks : Blocks) (p : ℕ) (blocks' : Blocks)
      → IsMerged blocks
      → allocate size a blocks ≡ some (p, blocks')
      → IsMerged blocks'
  unfolding allocate
  allocate-IsMerged a [] p blocks' h e = absurd (cc)
  allocate-IsMerged a ((n, f) ∷ rest) p blocks' h e =
      elim (allocate-Steps size a n f rest p blocks' e) [
        | inl (free, le, here, taken) ↦
            subst IsMerged (sym taken)
              (take-IsMerged n rest (subst (λ x. IsMerged ((n, x) ∷ rest)) free h))
        | inr (rest', found, passed) ↦
            let rest_merged = IsMerged-rest size n f rest h in
            let apart : (f && first_free rest') ≡ false = elim (Bool-cases (first_free rest)) [
              | inl free ↦ let one = first_free-IsMerged n f rest h in ground arith
              | inr used ↦ rw (allocate-first (a + 12 + n) rest p rest' found used) (ground arith)
            ] in
            subst IsMerged (sym passed) (
              IsMerged-first n f rest' apart
                (allocate-IsMerged (a + 12 + n) rest p rest' rest_merged found))
      ]
