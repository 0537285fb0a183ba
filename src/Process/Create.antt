-- ===== src/Process/Create.antt =====
-- pcb.c: `create_process`, which takes the memory of a control block from the heap of Kmalloc. The block is
-- the address that `kmalloc` returns; what stands in the fields that it does not set is what memory holds.
use os_kernel.Base.{
  ℕ, ◌+◌, ◌≤◌, ◌<◌, ◌≡◌, ◌≢◌, ◌⊎◌, inl, inr, refl, arith, u32, update, update_self, update_ne,
  Option, none, some, length,
}
use os_kernel.Process.{Pcb, ready}
use os_kernel.Kmalloc.{Heap, header_size, kmalloc}
use os_kernel.Kmalloc.Blocks.{Blocks, allocate}
use os_kernel.Kmalloc.Chain.{IsHeap}
use os_kernel.Kmalloc.Allocate.{kmalloc_lem}
use os_kernel.Kmalloc.Safety.{InUse, Apart, kmalloc-Gives}

-- The heap, the control blocks in memory, and the static variable `next_pid`.
pub record Processes : Type 0 where
  pub heap : Heap
  pub pcbs : ℕ → Pcb
  pub next_pid : ℕ

-- `sizeof(pcb_t)`: thirteen words
abbrev pub pcb_size : ℕ
pcb_size = 52

-- the assignments of `create_process`
unfoldable pub new_pcb : ℕ → ℕ → Pcb → Pcb
new_pcb pid entry_point b = record b {
  pid = pid;
  state = ready;
  eip = entry_point;
  esp = 0;
  ebp = 0;
  eflags = 0x202;
  next = none;
}

-- `fuel` is that of `kmalloc`.
unfoldable pub create_process : ℕ → ℕ → Processes → Option (Option ℕ × Processes)
create_process fuel entry_point s = elim (kmalloc fuel pcb_size s.heap) [
  | none ↦ none
  | some (none, heap) ↦ some (none, record s { heap = heap })
  | some (some p, heap) ↦ some (
    some p,
    record {
      heap = heap;
      pcbs = update s.pcbs p (new_pcb s.next_pid entry_point (s.pcbs p));
      next_pid = u32 (s.next_pid + 1);
    },
  )
]

-- the block of the heap at `q` was not in use, and those in use hold what they held
abbrev pub Creates : ℕ → ℕ → ℕ → Blocks → Processes → Option (Option ℕ × Processes) → Type 0
Creates entry_point start stop blocks s r =
    (p : ℕ) × (blocks' : Blocks) × (s' : Processes) × (r ≡ some (some p, s'))
    × IsHeap s'.heap start stop blocks'
    × (start + header_size ≤ p)
    × (p + pcb_size ≤ stop)
    × (s'.pcbs p ≡ record (s.pcbs p) {
      pid = s.next_pid;
      state = ready;
      eip = entry_point;
      esp = 0;
      ebp = 0;
      eflags = 0x202;
      next = none;
    })
    × (s'.next_pid ≡ u32 (s.next_pid + 1))
    × ((q n : ℕ)
        → InUse q n start blocks
        → InUse q n start blocks' × (s'.pcbs (q + header_size) ≡ s.pcbs (q + header_size)))

Apart-ne : (p q n k m : ℕ) → p ≡ q + 12 → Apart q n k m → k + 12 ≢ p
Apart-ne p q n k m place (inl after) e = omega arith
Apart-ne p q n k m place (inr before) e = omega arith

-- On a heap of blocks `create_process` ends. It returns NULL and changes nothing when no block is large
-- enough; otherwise the new control block lies in the heap and has the next number, which then goes up by one
-- modulo 2 ^ 32, is ready to start at the entry point with interrupts enabled and no stack, and has no next
-- block; and every block that was in use still is and holds the control block it held.
pub create_process_lem :
    (fuel entry_point start stop : ℕ) (s : Processes) (blocks : Blocks)
    → IsHeap s.heap start stop blocks
    → length blocks < fuel
    → ((allocate pcb_size start blocks ≡ none)
        × (create_process fuel entry_point s ≡ some (none, s)))
      ⊎ Creates entry_point start stop blocks s (create_process fuel entry_point s)
unfolding create_process new_pcb
create_process_lem fuel entry_point start stop s blocks w lt =
    elim (kmalloc_lem fuel pcb_size s.heap start stop blocks w lt) [
      | inl (missing, r) ↦ inl (missing, rw (create_process, r) refl)
      | inr (p, blocks', h', found, r, w') ↦
          let (q, n, blocks'', w'', place, enough, low, inside, given, others, merged) =
            kmalloc-Gives fuel pcb_size p s.heap h' start stop blocks w lt r in
          inr (
            p,
            blocks'',
            record {
              heap = h';
              pcbs = update s.pcbs p (new_pcb s.next_pid entry_point (s.pcbs p));
              next_pid = u32 (s.next_pid + 1);
            },
            rw (create_process, r) refl,
            w'',
            omega (arith, place),
            omega (arith, place),
            update_self s.pcbs p (new_pcb s.next_pid entry_point (s.pcbs p)),
            refl,
            λ k m u.
                let (kept, apart) = others k m u in
                (
                  kept,
                  update_ne s.pcbs p (new_pcb s.next_pid entry_point (s.pcbs p)) (k + 12)
                      (Apart-ne p q n k m place apart),
                ),
          )
    ]
