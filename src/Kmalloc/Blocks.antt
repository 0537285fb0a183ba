-- ===== src/Kmalloc/Blocks.antt =====
-- The heap of kmalloc.c as the list of its blocks: for each its size and whether it is free.
use os_kernel.Base.{
  ℕ, ◌+◌, ◌-◌, ◌≡◌, ◌==◌, leb, ltb, ◌&&◌, if◌then◌else◌, Bool, true, false, Option, none, some,
  List, [], ◌∷◌,
}
use os_kernel.Kmalloc.{header_size}

abbrev pub Blocks : Type 0
Blocks = List (ℕ × Bool)

-- a block of which the first bytes are used, and what is left as a block of its own if that has room
-- for a header and a byte
unfoldable pub take : ℕ → ℕ → Blocks → Blocks
take size n rest =
    if ltb (size + header_size) n
    then (size, false) ∷ (n - size - header_size, true) ∷ rest
    else (n, false) ∷ rest

-- First fit: the address behind the header of the first free block that is large enough, among the
-- blocks from address `a` on, and the blocks after it is taken.
unfoldable pub allocate : ℕ → ℕ → Blocks → Option (ℕ × Blocks)
allocate size a [] = none
allocate size a ((n, f) ∷ rest) =
    let later = allocate size (a + header_size + n) rest in
    if f && leb size n
    then some (a + header_size, take size n rest)
    else elim later [ none ↦ none | some (p, rest') ↦ some (p, (n, f) ∷ rest') ]

-- the block with its header at `p` set free
unfoldable pub mark : ℕ → ℕ → Blocks → Blocks
mark p a [] = []
mark p a ((n, f) ∷ rest) =
    if p == a then (n, true) ∷ rest else (n, f) ∷ mark p (a + header_size + n) rest

-- a block before others, all neighbours that are free joined
unfoldable pub merge : ℕ → Bool → Blocks → Blocks
merge n f [] = (n, f) ∷ []
merge n f ((m, g) ∷ rest) =
    let joined = merge (n + (header_size + m)) true rest in
    let passed = (n, f) ∷ merge m g rest in if f && g then joined else passed

unfoldable pub merge_all : Blocks → Blocks
merge_all [] = []
merge_all ((n, f) ∷ rest) = merge n f rest

unfoldable pub release : ℕ → ℕ → Blocks → Blocks
release p a blocks = merge_all (mark p a blocks)

-- no two neighbours are free
abbrev pub IsMerged : Blocks → Type 0
IsMerged [] = Unit {0}
IsMerged ((n, f) ∷ []) = Unit {0}
IsMerged ((n, f) ∷ (m, g) ∷ rest) = ((f && g) ≡ false) × IsMerged ((m, g) ∷ rest)
