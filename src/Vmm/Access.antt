-- ===== src/Vmm/Access.antt =====
-- Reading and writing table entries in the buffer.
use os_kernel.Base.{ℕ, ◌+◌, ◌*◌, ◌^◌, ◌<◌, ◌≤◌, ◌≡◌, ◌≢◌, ◌⊎◌, refl, arith, some, le→ltb}
use os_kernel.Pmm.{State, pmm_max_pages, phys_mem_size}
use os_kernel.Pmm.Alloc.{taken}
use os_kernel.Vmm.{store64, load_entry, store_entry}
use os_kernel.Vmm.Word.{load64-store64_self, load64-store64_ne, load64-zeroed, load64-zeroed_ne}
use os_kernel.Vmm.Tree.{entry}

-- the state after `table[i] = v` on the table in page `p`
abbrev pub written : State → ℕ → ℕ → ℕ → State
written s p i v = record s { phys_mem = store64 s.phys_mem (p * 4096 + 8 * i) v }

module _ (s : State) (p i : ℕ) (hp : p < pmm_max_pages) (hi : i < 512) where
  pub load_entry-some : load_entry (some (p * 4096)) i s ≡ some (entry s p i, s)
  unfolding load_entry
  load_entry-some = rw (le→ltb phys_mem_size (p * 4096 + 8 * i + 8) (omega arith)) refl

  pub store_entry-some : (v : ℕ) → store_entry (some (p * 4096)) i v s ≡ some (tt, written s p i v)
  unfolding store_entry
  store_entry-some v = rw (le→ltb phys_mem_size (p * 4096 + 8 * i + 8) (omega arith)) refl

pub entry-written_self : (s : State) (p i v : ℕ) → v < 2 ^ 64 → entry (written s p i v) p i ≡ v
entry-written_self s p i v h = load64-store64_self s.phys_mem (p * 4096 + 8 * i) v h

pub entry-written_ne :
    (s : State) (p i v p' i' : ℕ)
    → i < 512
    → i' < 512
    → (p' ≢ p) ⊎ (i' ≢ i)
    → entry (written s p i v) p' i' ≡ entry s p' i'
entry-written_ne s p i v p' i' h h' ne =
    load64-store64_ne s.phys_mem (p * 4096 + 8 * i) v (p' * 4096 + 8 * i') (apart ne)
  where
    apart :
        (p' ≢ p) ⊎ (i' ≢ i)
        → (p * 4096 + 8 * i + 8 ≤ p' * 4096 + 8 * i') ⊎ (p' * 4096 + 8 * i' + 8 ≤ p * 4096 + 8 * i)
    apart ne = grind arith

pub entry-taken_self : (k i : ℕ) (s : State) → i < 512 → entry (taken k s) k i ≡ 0
entry-taken_self k i s h =
    load64-zeroed s.phys_mem (k * 4096) 4096 (k * 4096 + 8 * i) (omega arith) (omega arith)

pub entry-taken_ne :
    (k i : ℕ) (s : State) (p : ℕ) → i < 512 → p ≢ k → entry (taken k s) p i ≡ entry s p i
entry-taken_ne k i s p h ne =
    load64-zeroed_ne s.phys_mem (k * 4096) 4096 (p * 4096 + 8 * i) (grind arith)
