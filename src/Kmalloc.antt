-- ===== src/Kmalloc.antt =====
-- kmalloc.h and kmalloc.c: the kernel's heap, a list of block headers. Headers are kept by their addresses,
-- 12 bytes each on the 32-bit target; a pointer is an address, and `none` is NULL. What the blocks hold
-- behind their headers is left out.
pub mod Blocks
pub mod Chain
pub mod Taken
pub mod Allocate
pub mod Release
pub mod Merge
pub mod Merged
pub mod Safety
pub mod Freed
mod Examples
use os_kernel.Base.{
  ℕ, zero, suc, ◌+◌, ◌==◌, not, ◌&&◌, leb, ltb, u32, sub32, update, Option, none, some,
  if◌then◌else◌, Bool,
}

-- `block_header_t`
pub record Header : Type 0 where
  pub size : ℕ
  pub is_free : ℕ
  pub next : Option ℕ

abbrev pub Headers : Type 0
Headers = ℕ → Header

-- The headers in memory and the static variable `heap_start`.
pub record Heap : Type 0 where
  pub headers : Headers
  pub heap_start : Option ℕ

-- `sizeof(block_header_t)`
abbrev pub header_size : ℕ
header_size = 12

unfoldable pub kmalloc_init : ℕ → ℕ → Heap → Heap
kmalloc_init start_addr size h = record {
  heap_start = (if start_addr == 0 then none else some start_addr);
  headers =
      update h.headers start_addr
        (record { size = sub32 size header_size; is_free = 1; next = none });
}

-- the split of the block at `p`, which writes the header of the new block first
unfoldable pub split_block : ℕ → ℕ → Headers → Headers
split_block p size h =
    let q = u32 (p + header_size + size) in
    let h' = update h q (record {
      size = sub32 (sub32 (h p).size size) header_size;
      is_free = 1;
      next = (h p).next;
    }) in
    update h' p (record (h' p) { size = size; next = some q })

-- What `kmalloc` does with the block at `p` that it has chosen.
unfoldable pub take_block : ℕ → ℕ → Headers → Headers
take_block p size h =
    let h' = if ltb (u32 (size + header_size)) (h p).size then split_block p size h else h in
    update h' p (record (h' p) { is_free = 0 })

unfoldable pub fits : ℕ → Header → Bool
fits size b = not (b.is_free == 0) && leb size b.size

-- The loop of `kmalloc`. `fuel` is the number of steps it may make, and `none` that they were not enough.
unfoldable pub kmalloc_loop : ℕ → Option ℕ → ℕ → Headers → Option (Option ℕ × Headers)
kmalloc_loop zero current size h = none
kmalloc_loop (suc fuel) none size h = some (none, h)
kmalloc_loop (suc fuel) (some p) size h =
    let rest = kmalloc_loop fuel (h p).next size h in
    if fits size (h p) then some (some (u32 (p + header_size)), take_block p size h) else rest

unfoldable pub kmalloc : ℕ → ℕ → Heap → Option (Option ℕ × Heap)
kmalloc fuel size h = elim (kmalloc_loop fuel h.heap_start size h.headers) [
  | none ↦ none
  | some (p, headers) ↦ some (p, record h { headers = headers })
]

-- the block at `q` joined to the block at `p` before it
unfoldable pub merge_block : ℕ → ℕ → Headers → Headers
merge_block p q h =
    update h p
      (record (h p) { size = u32 ((h p).size + (header_size + (h q).size)); next = (h q).next })

-- The loop of `kfree`, with `fuel` as for `kmalloc`.
unfoldable pub coalesce : ℕ → Option ℕ → Headers → Option Headers
coalesce zero current h = none
coalesce (suc fuel) none h = some h
coalesce (suc fuel) (some p) h = elim (h p).next [
  | none ↦ some h
  | some q ↦
      let joined = coalesce fuel (some p) (merge_block p q h) in
      let passed = coalesce fuel (some q) h in
      if not ((h p).is_free == 0) && not ((h q).is_free == 0) then joined else passed
]

unfoldable pub kfree : ℕ → Option ℕ → Heap → Option Heap
kfree fuel none h = some h
kfree fuel (some ptr) h =
    let block = sub32 ptr header_size in
    elim (coalesce fuel h.heap_start
      (update h.headers block (record (h.headers block) { is_free = 1 }))) [
        | none ↦ none
        | some headers ↦ some (record h { headers = headers })
      ]
