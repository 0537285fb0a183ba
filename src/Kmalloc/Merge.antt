-- ===== src/Kmalloc/Merge.antt =====
-- Joining free neighbours in a list of blocks, and taking a block and giving it back.
use mathlib.Core.Path.{subst}
use os_kernel.Base.{
  ℕ, ◌+◌, ◌-◌, ◌≤◌, ◌≡◌, ◌≢◌, ◌⊎◌, inl, inr, refl, arith, ◌∙◌, ap, sym, leb, ltb, ◌&&◌, Bool, true,
  false, Option, none, some, [], ◌∷◌, Bool-cases, Option-cases, ne→==, leb→le, ltb→lt, ==_iff,
}
use os_kernel.Kmalloc.Blocks.{Blocks, take, allocate, mark, merge, merge_all, release, IsMerged}
use os_kernel.Kmalloc.Release.{IsStart, IsStart-le}

-- the block that `merge` leaves in front is as free as the one it started with
merge-front :
    (n : ℕ) (f : Bool) (rest : Blocks)
    → (m : ℕ) × (tail : Blocks) × (merge n f rest ≡ (m, f) ∷ tail)
unfolding merge
merge-front n f [] = (n, [], refl)
merge-front n true ((m, true) ∷ rest) = merge-front (n + (12 + m)) true rest
merge-front n true ((m, false) ∷ rest) = (n, merge m false rest, refl)
merge-front n false ((m, g) ∷ rest) = (n, merge m g rest, refl)

IsMerged-cons :
    (n : ℕ) (f g : Bool) (m : ℕ) (rest : Blocks)
    → (f && g) ≡ false
    → IsMerged (merge m g rest)
    → IsMerged ((n, f) ∷ merge m g rest)
IsMerged-cons n f g m rest one h =
    let (k, tail, e) = merge-front m g rest in
    subst (λ x. IsMerged ((n, f) ∷ x)) (sym e) (one, subst IsMerged e h)

pub merge-IsMerged : (n : ℕ) (f : Bool) (rest : Blocks) → IsMerged (merge n f rest)
unfolding merge
merge-IsMerged n f [] = tt
merge-IsMerged n true ((m, true) ∷ rest) = merge-IsMerged (n + (12 + m)) true rest
merge-IsMerged n true ((m, false) ∷ rest) =
    IsMerged-cons n true false m rest refl (merge-IsMerged m false rest)
merge-IsMerged n false ((m, g) ∷ rest) =
    IsMerged-cons n false g m rest refl (merge-IsMerged m g rest)

-- merged blocks stay as they are
merge_fixed :
    (n : ℕ) (f : Bool) (rest : Blocks) → IsMerged ((n, f) ∷ rest) → merge n f rest ≡ (n, f) ∷ rest
unfolding merge
merge_fixed n f [] h = refl
merge_fixed n true ((m, true) ∷ rest) (one, h) = absurd (cc)
merge_fixed n true ((m, false) ∷ rest) (one, h) =
    ap (λ (x : Blocks). (n, true) ∷ x) (merge_fixed m false rest h)
merge_fixed n false ((m, g) ∷ rest) (one, h) =
    ap (λ (x : Blocks). (n, false) ∷ x) (merge_fixed m g rest h)

-- A block in front of merged blocks, the first of which is not free with it.
merge-apart :
    (n : ℕ) (f g : Bool) (m : ℕ) (rest : Blocks)
    → (f && g) ≡ false
    → merge n f (merge m g rest) ≡ (n, f) ∷ merge m g rest
merge-apart n f g m rest one =
    let (k, tail, e) = merge-front m g rest in
    rw e (merge_fixed n f ((k, g) ∷ tail) (one, subst IsMerged e (merge-IsMerged m g rest)))

merge-merge :
    (n m : ℕ) (rest : Blocks) → merge n true (merge m true rest) ≡ merge (n + (12 + m)) true rest
unfolding merge
merge-merge n m [] = refl
merge-merge n m ((k, true) ∷ rest) =
    merge-merge n (m + (12 + k)) rest ∙ ap (λ x. merge x true rest) (omega arith)
merge-merge n m ((k, false) ∷ rest) = merge-apart (n + (12 + m)) true false k rest refl

merge-merge_all : (n : ℕ) (f : Bool) (rest : Blocks) → merge n f (merge_all rest) ≡ merge n f rest
unfolding merge_all merge
merge-merge_all n f [] = refl
merge-merge_all n true ((m, true) ∷ rest) = merge-merge n m rest
merge-merge_all n true ((m, false) ∷ rest) = merge-apart n true false m rest refl
merge-merge_all n false ((m, g) ∷ rest) = merge-apart n false g m rest refl

abbrev place_of : Option (ℕ × Blocks) → ℕ
place_of none = 0
place_of (some (p, b)) = p

abbrev blocks_of : Option (ℕ × Blocks) → Blocks
blocks_of none = []
blocks_of (some (p, b)) = b

-- Giving back the block that first fit has taken restores the list of blocks, when it was merged.
module _ (size : ℕ) where
  pub IsMerged-rest : (n : ℕ) (f : Bool) (rest : Blocks) → IsMerged ((n, f) ∷ rest) → IsMerged rest
  IsMerged-rest n f [] h = tt
  IsMerged-rest n f ((m, g) ∷ rest) (one, h) = h

  release-take :
      (a n : ℕ) (rest : Blocks)
      → size ≤ n
      → IsMerged ((n, true) ∷ rest)
      → release a a (take size n rest) ≡ (n, true) ∷ rest
  unfolding release merge_all mark take merge
  release-take a n rest le h = elim (Bool-cases (ltb (size + 12) n)) [
    | inl room ↦
        let whole : size + (12 + (n - size - 12)) ≡ n = omega (arith, ltb→lt (size + 12) n room) in
        rw (room, (==_iff a a).1 refl, whole) (merge_fixed n true rest h)
    | inr full ↦ rw (full, (==_iff a a).1 refl) (merge_fixed n true rest h)
  ]

  IsStart-take : (a n : ℕ) (rest : Blocks) → IsStart a a (take size n rest)
  unfolding take
  IsStart-take a n rest = elim (Bool-cases (ltb (size + 12) n)) [
    | inl room ↦ rw room (inl refl)
    | inr full ↦ rw full (inl refl)
  ]

  release-pass :
      (q a n : ℕ) (f : Bool) (rest : Blocks)
      → q ≢ a
      → release q a ((n, f) ∷ rest) ≡ merge n f (release q (a + 12 + n) rest)
  unfolding release mark merge_all
  release-pass q a n f rest apart =
      rw (ne→== q a apart) (sym (merge-merge_all n f (mark q (a + 12 + n) rest)))

  -- how first fit came to its result: it took the first block, or one of those behind
  abbrev Steps : ℕ → ℕ → Bool → Blocks → ℕ → Blocks → Type 0
  Steps a n f rest p blocks' =
      ((f ≡ true) × (size ≤ n) × (p ≡ a + 12) × (blocks' ≡ take size n rest))
      ⊎ ((rest' : Blocks) × (allocate size (a + 12 + n) rest ≡ some (p, rest'))
          × (blocks' ≡ (n, f) ∷ rest'))

  pub allocate-Steps :
      (a n : ℕ) (f : Bool) (rest : Blocks) (p : ℕ) (blocks' : Blocks)
      → allocate size a ((n, f) ∷ rest) ≡ some (p, blocks')
      → Steps a n f rest p blocks'
  unfolding allocate
  allocate-Steps a n f rest p blocks' e = elim (Bool-cases (f && leb size n)) [
    | inl hit ↦
        let e' : ◌≡◌ {A = Option (ℕ × Blocks)} (some (a + 12, take size n rest))
            (some (p, blocks')) =
          sym (rw hit refl) ∙ e in
        let both : (f ≡ true) × (leb size n ≡ true) = ground arith in
        inl (both.0, leb→le size n both.1, sym (ap place_of e'), sym (ap blocks_of e'))
    | inr miss ↦ elim (Option-cases (allocate size (a + 12 + n) rest)) [
      | inl missing ↦
          let e' : ◌≡◌ {A = Option (ℕ × Blocks)} none (some (p, blocks')) =
            sym (rw (miss, missing) refl) ∙ e in
          absurd (cc)
      | inr ((q, rest'), found) ↦
          let e' : ◌≡◌ {A = Option (ℕ × Blocks)} (some (q, (n, f) ∷ rest')) (some (p, blocks')) =
            sym (rw (miss, found) refl) ∙ e in
          inr (rest', rw (found, ap place_of e') refl, sym (ap blocks_of e'))
    ]
  ]

  -- Giving back the block that first fit has taken restores the list of blocks, when it was merged.
  pub release-allocate :
      (a : ℕ) (blocks : Blocks) (p : ℕ) (blocks' : Blocks)
      → IsMerged blocks
      → allocate size a blocks ≡ some (p, blocks')
      → (q : ℕ) × (p ≡ q + 12) × IsStart q a blocks' × (release q a blocks' ≡ blocks)
  unfolding allocate
  release-allocate a [] p blocks' h e = absurd (cc)
  release-allocate a ((n, f) ∷ rest) p blocks' h e = elim (allocate-Steps a n f rest p blocks' e) [
    | inl (free, le, here, taken) ↦
        let h' : IsMerged ((n, true) ∷ rest) = subst (λ x. IsMerged ((n, x) ∷ rest)) free h in
        (
          a,
          here,
          subst (IsStart a a) (sym taken) (IsStart-take a n rest),
          ap (release a a) taken
              ∙ release-take a n rest le h'
              ∙ ap (λ (x : Bool). (n, x) ∷ rest) (sym free),
        )
    | inr (rest', found, passed) ↦
        let (q, place, start, back) =
          release-allocate (a + 12 + n) rest p rest' (IsMerged-rest n f rest h) found in
        let apart : q ≢ a = omega (arith, IsStart-le q (a + 12 + n) rest' start) in
        let kept : release q a ((n, f) ∷ rest') ≡ (n, f) ∷ rest =
          release-pass q a n f rest' apart ∙ ap (merge n f) back ∙ merge_fixed n f rest h in
        (q, place, subst (IsStart q a) (sym passed) (inr start), ap (release q a) passed ∙ kept)
  ]
