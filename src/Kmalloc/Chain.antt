-- ===== src/Kmalloc/Chain.antt =====
-- The headers of kmalloc.c that stand for a list of blocks.
use os_kernel.Base.{
  ℕ, ◌+◌, ◌^◌, ◌<◌, ◌≤◌, ◌≡◌, arith, ◌∙◌, Bool, true, false, Option, none, some, [], ◌∷◌,
}
use os_kernel.Kmalloc.{Headers, Heap, header_size}
use os_kernel.Kmalloc.Blocks.{Blocks}

abbrev pub flag : Bool → ℕ
flag true = 1
flag false = 0

-- the pointer to the blocks from address `a` on
abbrev pub link : ℕ → Blocks → Option ℕ
link a [] = none
link a (b ∷ rest) = some a

-- From address `a` to address `stop` the blocks follow one another, each header behind the block before.
abbrev pub IsChain : Headers → ℕ → ℕ → Blocks → Type 0
IsChain h a stop [] = a ≡ stop
IsChain h a stop ((n, f) ∷ rest) =
    (h a ≡ record { size = n; is_free = flag f; next = link (a + header_size + n) rest })
    × IsChain h (a + header_size + n) stop rest

-- The heap holds the blocks between two addresses below 2 ^ 32.
pub record IsHeap (h : Heap) (start stop : ℕ) (blocks : Blocks) : Type 0 where
  pub begins : h.heap_start ≡ link start blocks
  pub chain : IsChain h.headers start stop blocks
  pub small : stop < 2 ^ 32

pub IsChain-le : (h : Headers) (a stop : ℕ) (blocks : Blocks) → IsChain h a stop blocks → a ≤ stop
IsChain-le h a stop [] c = omega (arith, c)
IsChain-le h a stop ((n, f) ∷ rest) (e, c) =
    omega (arith, IsChain-le h (a + header_size + n) stop rest c)

-- headers before the chain may change
pub IsChain-frame :
    (h h' : Headers) (a stop : ℕ) (blocks : Blocks)
    → ((b : ℕ) → a ≤ b → h' b ≡ h b)
    → IsChain h a stop blocks
    → IsChain h' a stop blocks
IsChain-frame h h' a stop [] same c = c
IsChain-frame h h' a stop ((n, f) ∷ rest) same (e, c) = (
  same a (omega arith) ∙ e,
  IsChain-frame h h' (a + header_size + n) stop rest (λ b le. same b (omega arith)) c,
)
