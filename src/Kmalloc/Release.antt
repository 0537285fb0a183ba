-- ===== src/Kmalloc/Release.antt =====
-- `kfree` of kmalloc.c against the release of a block on the list of blocks.
use mathlib.Core.Path.{subst}
use os_kernel.Base.{
  ℕ, zero, suc, ◌+◌, ◌^◌, ◌<◌, ◌≤◌, ◌≡◌, ◌≢◌, ◌⊎◌, inl, inr, refl, arith, ◌∙◌, ap, sym, ◌==◌, not,
  ◌&&◌, Bool, true, false, Option, some, [], ◌∷◌, update, update_ne, update_self, length, u32,
  sub32, Bool-cases, ==→ne, ==_iff,
}
use os_kernel.Kmalloc.{Header, Headers, Heap, header_size, merge_block, coalesce, kfree}
use os_kernel.Kmalloc.Blocks.{Blocks, mark, merge, merge_all, release}
use os_kernel.Kmalloc.Chain.{flag, link, IsChain, IsHeap, IsChain-le, IsChain-frame}

-- the outcome of the loop of `kfree` from the block at `a` on
abbrev Coalesces : Headers → ℕ → ℕ → Blocks → Option Headers → Type 0
Coalesces h a stop blocks r =
    (h' : Headers) × (r ≡ some h') × IsChain h' a stop blocks × ((b : ℕ) → b < a → h' b ≡ h b)

merge_block_ne : (a q : ℕ) (h : Headers) (b : ℕ) → b ≢ a → merge_block a q h b ≡ h b
unfolding merge_block
merge_block_ne a q h b ne = update_ne h a _ b ne

-- Two free neighbours become one block.
merge_block-IsChain :
    (h : Headers) (a stop n m : ℕ) (rest : Blocks)
    → IsChain h a stop ((n, true) ∷ (m, true) ∷ rest)
    → stop < 2 ^ 32
    → IsChain (merge_block a (a + 12 + n) h) a stop ((n + (12 + m), true) ∷ rest)
unfolding merge_block
merge_block-IsChain h a stop n m rest (first, (second, c)) small =
    let bound = IsChain-le h (a + 12 + n + 12 + m) stop rest c in
    let fit : u32 (n + (12 + m)) ≡ n + (12 + m) = omega (arith, bound) in
    let place : a + 12 + (n + (12 + m)) ≡ a + 12 + n + 12 + m = omega arith in
    (
      update_self h a _ ∙ rw (first, second, fit, place) refl,
      subst (λ x. IsChain (merge_block a (a + 12 + n) h) x stop rest) (sym place)
          (IsChain-frame h (merge_block a (a + 12 + n) h) (a + 12 + n + 12 + m) stop rest
            (λ b le. merge_block_ne a (a + 12 + n) h b (omega arith)) c),
    )

link-merge : (a n : ℕ) (f : Bool) (rest : Blocks) → link a (merge n f rest) ≡ some a
unfolding merge
link-merge a n f [] = refl
link-merge a n f ((m, g) ∷ rest) = elim (Bool-cases (f && g)) [
  | inl both ↦ rw both (link-merge a (n + (12 + m)) true rest)
  | inr one ↦ rw one refl
]

both_flags : (f g : Bool) → (not (flag f == 0) && not (flag g == 0)) ≡ (f && g)
both_flags true true = refl
both_flags true false = refl
both_flags false g = refl

-- The loop passes a block when it and the next are not both free.
pass-Coalesces :
    (fuel : ℕ) (h : Headers) (a stop n m : ℕ) (f g : Bool) (rest : Blocks)
    → IsChain h a stop ((n, f) ∷ (m, g) ∷ rest)
    → (f && g) ≡ false
    → Coalesces h (a + 12 + n) stop (merge m g rest) (coalesce fuel (some (a + 12 + n)) h)
    → Coalesces h a stop ((n, f) ∷ merge m g rest) (coalesce (suc fuel) (some a) h)
unfolding coalesce
pass-Coalesces fuel h a stop n m f g rest (first, (second, c)) one (h', r, chain, frame) = (
  h',
  rw (coalesce, first, first, second, both_flags f g, one) r,
  (
    frame a (omega arith)
        ∙ first
        ∙ ap (λ x. record { size = n; is_free = flag f; next = x })
            (sym (link-merge (a + 12 + n) m g rest)),
    chain,
  ),
  λ b below. frame b (omega arith),
)

coalesce-Coalesces :
    (fuel : ℕ) (h : Headers) (a stop n : ℕ) (f : Bool) (rest : Blocks)
    → IsChain h a stop ((n, f) ∷ rest)
    → stop < 2 ^ 32
    → length rest < fuel
    → Coalesces h a stop (merge n f rest) (coalesce fuel (some a) h)
unfolding coalesce merge
coalesce-Coalesces zero h a stop n f rest c small lt = absurd (omega arith)
coalesce-Coalesces (suc fuel) h a stop n f [] (first, c) small lt =
    rw (coalesce, first) (h, refl, (first, c), λ b lt'. refl)
coalesce-Coalesces (suc fuel) h a stop n true ((m, true) ∷ rest) (first, (second, c)) small lt =
    let joined = merge_block-IsChain h a stop n m rest (first, (second, c)) small in
    let (h', r, chain, frame) =
      coalesce-Coalesces fuel (merge_block a (a + 12 + n) h) a stop (n + (12 + m)) true rest joined
        small (omega arith) in
    (
      h',
      rw (coalesce, first, first, second) r,
      chain,
      λ b below. frame b below ∙ merge_block_ne a (a + 12 + n) h b (omega arith),
    )
coalesce-Coalesces (suc fuel) h a stop n true ((m, false) ∷ rest) (first, (second, c)) small lt =
    let ih =
      coalesce-Coalesces fuel h (a + 12 + n) stop m false rest (second, c) small (omega arith) in
    pass-Coalesces fuel h a stop n m true false rest (first, (second, c)) refl ih
coalesce-Coalesces (suc fuel) h a stop n false ((m, g) ∷ rest) (first, (second, c)) small lt =
    let ih = coalesce-Coalesces fuel h (a + 12 + n) stop m g rest (second, c) small (omega arith) in
    pass-Coalesces fuel h a stop n m false g rest (first, (second, c)) refl ih

-- `p` is the address of a header
abbrev pub IsStart : ℕ → ℕ → Blocks → Type 0
IsStart p a [] = ⊥
IsStart p a ((n, f) ∷ rest) = (p ≡ a) ⊎ IsStart p (a + header_size + n) rest

pub IsStart-le : (p a : ℕ) (blocks : Blocks) → IsStart p a blocks → a ≤ p
IsStart-le p a [] s = elim s [ ]
IsStart-le p a ((n, f) ∷ rest) (inl e) = omega arith
IsStart-le p a ((n, f) ∷ rest) (inr s) = omega (arith, IsStart-le p (a + header_size + n) rest s)

link-mark : (p a b : ℕ) (blocks : Blocks) → link b (mark p a blocks) ≡ link b blocks
unfolding mark
link-mark p a b [] = refl
link-mark p a b ((n, f) ∷ rest) = ground arith

-- the header at `p` set free
abbrev set_free : ℕ → Headers → Headers
set_free p h = update h p (record (h p) { is_free = 1 })

set_free-IsChain :
    (p : ℕ) (h : Headers) (a stop : ℕ) (blocks : Blocks)
    → IsChain h a stop blocks
    → IsStart p a blocks
    → IsChain (set_free p h) a stop (mark p a blocks)
unfolding mark
set_free-IsChain p h a stop [] c start = elim start [ ]
set_free-IsChain p h a stop ((n, f) ∷ rest) (first, c) start = elim (Bool-cases (p == a)) [
  | inl same ↦
      let here = (==_iff p a).0 same in
      rw same (
        subst (λ x. IsChain (set_free x h) a stop ((n, true) ∷ rest)) (sym here)
          (
            update_self h a _ ∙ ap (λ (b : Header). record b { is_free = 1 }) first,
            IsChain-frame h (set_free a h) (a + 12 + n) stop rest
                (λ b le. update_ne h a _ b (omega arith)) c,
          ))
  | inr other ↦
      let ne = ==→ne p a other in
      let later : IsStart p (a + 12 + n) rest = elim start [
        | inl here ↦ absurd (ne here)
        | inr later ↦ later
      ] in
      let le = IsStart-le p (a + 12 + n) rest later in
      rw other (
        update_ne h p _ a (λ e. ne (sym e))
            ∙ first
            ∙ ap (λ x. record { size = n; is_free = flag f; next = x })
                (sym (link-mark p (a + 12 + n) (a + 12 + n) rest)),
        set_free-IsChain p h (a + 12 + n) stop rest c later,
      )
]

IsStart-lt :
    (p : ℕ) (h : Headers) (a stop : ℕ) (blocks : Blocks)
    → IsChain h a stop blocks
    → IsStart p a blocks
    → p + 12 ≤ stop
IsStart-lt p h a stop [] c s = elim s [ ]
IsStart-lt p h a stop ((n, f) ∷ rest) (first, c) (inl e) =
    omega (arith, IsChain-le h (a + 12 + n) stop rest c)
IsStart-lt p h a stop ((n, f) ∷ rest) (first, c) (inr s) = IsStart-lt p h (a + 12 + n) stop rest c s

length-mark : (p a : ℕ) (blocks : Blocks) → length (mark p a blocks) ≡ length blocks
unfolding mark
length-mark p a [] = refl
length-mark p a ((n, f) ∷ rest) = ground (arith, length-mark p (a + 12 + n) rest)

coalesce_all :
    (fuel : ℕ) (h : Headers) (a stop : ℕ) (blocks : Blocks)
    → IsChain h a stop blocks
    → stop < 2 ^ 32
    → length blocks < fuel
    → Coalesces h a stop (merge_all blocks) (coalesce fuel (link a blocks) h)
unfolding merge_all coalesce
coalesce_all zero h a stop blocks c small lt = absurd (omega arith)
coalesce_all (suc fuel) h a stop [] c small lt = (h, refl, c, λ b below. refl)
coalesce_all (suc fuel) h a stop ((n, f) ∷ rest) c small lt =
    coalesce-Coalesces (suc fuel) h a stop n f rest c small (omega arith)

link-merge_all : (a : ℕ) (blocks : Blocks) → link a (merge_all blocks) ≡ link a blocks
unfolding merge_all
link-merge_all a [] = refl
link-merge_all a ((n, f) ∷ rest) = link-merge a n f rest

-- Giving back the block with its header at `p` ends, once the loop may visit each block, and leaves the heap of
-- the blocks in which that block is free and all free neighbours are joined.
pub kfree_lem :
    (fuel p : ℕ) (h : Heap) (start stop : ℕ) (blocks : Blocks)
    → IsHeap h start stop blocks
    → IsStart p start blocks
    → length blocks < fuel
    → (h' : Heap) × (kfree fuel (some (p + header_size)) h ≡ some h')
      × IsHeap h' start stop (release p start blocks)
unfolding kfree release
kfree_lem fuel p h start stop blocks w s lt =
    let place : sub32 (p + 12) 12 ≡ p =
      omega (arith, IsStart-lt p h.headers start stop blocks w.chain s, w.small) in
    let marked = mark p start blocks in
    let begins : h.heap_start ≡ link start marked =
      w.begins ∙ sym (link-mark p start start blocks) in
    let (headers, r, chain, frame) =
      coalesce_all fuel (set_free p h.headers) start stop marked
        (set_free-IsChain p h.headers start stop blocks w.chain s) w.small
        (omega (arith, length-mark p start blocks)) in
    (
      record h { headers = headers },
      rw (kfree, place) (rw (ap (λ x. coalesce fuel x (set_free p h.headers)) begins, r) refl),
      record {
        begins = begins ∙ sym (link-merge_all start marked);
        chain = chain;
        small = w.small;
      },
    )
