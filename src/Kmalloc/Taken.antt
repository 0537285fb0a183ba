-- ===== src/Kmalloc/Taken.antt =====
-- The block that `kmalloc` of kmalloc.c takes, with the split of what is left of it.
use mathlib.Core.Path.{subst}
use os_kernel.Base.{
  ℕ, ◌+◌, ◌-◌, ◌^◌, ◌<◌, ◌≤◌, ◌≡◌, ◌≢◌, inl, inr, refl, arith, ◌∙◌, sym, ltb, true, false, Option,
  some, ◌∷◌, update, update_ne, update_self, u32, sub32, Bool-cases, ltb→lt, ltb→le, lt→ltb, le→ltb,
}
use os_kernel.Kmalloc.{Header, Headers, split_block, take_block}
use os_kernel.Kmalloc.Blocks.{Blocks, take}
use os_kernel.Kmalloc.Chain.{link, IsChain, IsChain-le, IsChain-frame}

-- A block with room for a second header is split in two.
module _ (h : Headers) (a size n : ℕ) (nx : Option ℕ)
    (here : h a ≡ record { size = n; is_free = 1; next = nx }) (room : size + 12 < n)
    (small : a + 12 + n < 2 ^ 32) where
  abbrev first : Header
  first = record { size = size; is_free = 0; next = some (a + 12 + size) }

  abbrev second : Header
  second = record { size = n - size - 12; is_free = 1; next = nx }

  take_block-split :
      take_block a size h
      ≡ update (update (update h (a + 12 + size) second) a (record first { is_free = 1 })) a first
  unfolding take_block split_block
  take_block-split =
      let fit : u32 (size + 12) ≡ size + 12 = omega arith in
      let place : u32 (a + 12 + size) ≡ a + 12 + size = omega arith in
      let left : sub32 (sub32 n size) 12 ≡ n - size - 12 = omega arith in
      let before : a ≢ a + 12 + size = omega arith in
      rw
        (
          here,
          fit,
          lt→ltb (size + 12) n room,
          place,
          left,
          update_ne h (a + 12 + size) (record { size = n - size - 12; is_free = 1; next = nx }) a
              before,
          here,
          update_self
              (update h (a + 12 + size) (record { size = n - size - 12; is_free = 1; next = nx })) a
              (record { size = size; is_free = 1; next = some (a + 12 + size) }),
        )
        refl

  take_block-split_first : take_block a size h a ≡ first
  take_block-split_first = rw take_block-split (update_self _ a first)

  take_block-split_second : take_block a size h (a + 12 + size) ≡ second
  take_block-split_second =
      let apart : a + 12 + size ≢ a = omega arith in
      rw take_block-split (
        update_ne _ a first (a + 12 + size) apart
        ∙ update_ne _ a (record first { is_free = 1 }) (a + 12 + size) apart
        ∙ update_self h (a + 12 + size) second)

  take_block-split_other : (b : ℕ) → b ≢ a → b ≢ a + 12 + size → take_block a size h b ≡ h b
  take_block-split_other b ne ne' = rw take_block-split (
      update_ne _ a first b ne
      ∙ update_ne _ a (record first { is_free = 1 }) b ne
      ∙ update_ne h (a + 12 + size) second b ne')

-- A block without that room is taken whole.
module _ (h : Headers) (a size n : ℕ) (nx : Option ℕ)
    (here : h a ≡ record { size = n; is_free = 1; next = nx }) (full : n ≤ size + 12)
    (le : size ≤ n) (small : a + 12 + n < 2 ^ 32) where
  abbrev whole : Header
  whole = record { size = n; is_free = 0; next = nx }

  take_block-whole : take_block a size h ≡ update h a whole
  unfolding take_block
  take_block-whole =
      let fit : u32 (size + 12) ≡ size + 12 = omega arith in
      rw (here, fit, le→ltb (size + 12) n full, here) refl

abbrev pub IsTaken : Headers → ℕ → ℕ → Blocks → Headers → Type 0
IsTaken h a stop blocks h' = IsChain h' a stop blocks × ((b : ℕ) → b < a → h' b ≡ h b)

-- The chosen block and the blocks behind it, after `kmalloc` has taken it.
pub take_block-IsTaken :
    (h : Headers) (a stop size n : ℕ) (rest : Blocks)
    → IsChain h a stop ((n, true) ∷ rest)
    → size ≤ n
    → stop < 2 ^ 32
    → IsTaken h a stop (take size n rest) (take_block a size h)
unfolding take
take_block-IsTaken h a stop size n rest (here, c) le small =
    let bound : a + 12 + n ≤ stop = IsChain-le h (a + 12 + n) stop rest c in
    elim (Bool-cases (ltb (size + 12) n)) [
      | inl room ↦
          let lt = ltb→lt (size + 12) n room in
          let below : a + 12 + n < 2 ^ 32 = omega arith in
          let nx = link (a + 12 + n) rest in
          let place : a + 12 + size + 12 + (n - size - 12) ≡ a + 12 + n = omega arith in
          rw (room, place)
            (
              (
                take_block-split_first h a size n nx here lt below,
                (
                  take_block-split_second h a size n nx here lt below,
                  IsChain-frame h (take_block a size h) (a + 12 + n) stop rest
                      (λ b ge.
                        take_block-split_other h a size n nx here lt below b (omega arith)
                          (omega arith))
                      c,
                ),
              ),
              λ b lt'.
                  take_block-split_other h a size n nx here lt below b (omega arith) (omega arith),
            )
      | inr full ↦
          let taken =
            take_block-whole h a size n (link (a + 12 + n) rest) here (ltb→le (size + 12) n full) le
              (omega arith) in
          let b : Header = record { size = n; is_free = 0; next = link (a + 12 + n) rest } in
          rw full (
            subst (λ x. IsTaken h a stop ((n, false) ∷ rest) x) (sym taken)
              (
                (
                  update_self h a b,
                  IsChain-frame h (update h a b) (a + 12 + n) stop rest
                      (λ i ge. update_ne h a b i (omega arith)) c,
                ),
                λ i lt'. update_ne h a b i (omega arith),
              ))
    ]
