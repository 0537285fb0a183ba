-- ===== src/Vmm/Tree.antt =====
-- The shape of the page tables. A ghost map gives each page that serves as a table its level (4 for
-- the PML4, 1 for a page table) and the index bits of the addresses below it.
use os_kernel.Base.{
  ℕ, zero, suc, ◌+◌, ◌-◌, ◌*◌, ◌/◌, ◌%◌, ◌^◌, ◌<◌, ◌≡◌, ◌≢◌, true, Option, some, if◌then◌else◌,
  bit_and,
}
use os_kernel.Pmm.{State, pmm_max_pages, bitmap_test}
use os_kernel.Pmm.Count.{IsValid}
use os_kernel.Vmm.{load64, is_present, pte_addr_mask}

-- entry `i` of the table in page `p`
abbrev pub entry : State → ℕ → ℕ → ℕ
entry s p i = load64 s.phys_mem (p * 4096 + 8 * i)

-- the index of `va` in a table of level `k + 1`
abbrev pub index : ℕ → ℕ → ℕ
index k va = va / 2 ^ (12 + 9 * k) % 512

-- the index bits of `va` above level `k`
abbrev pub prefix : ℕ → ℕ → ℕ
prefix k va = va / 2 ^ (12 + 9 * k) % 2 ^ (9 * (4 - k))

-- level and prefix of each table
abbrev pub Role : Type 0
Role = ℕ → Option (ℕ × ℕ)

pub record IsTree (role : Role) (root : ℕ) (s : State) : Type 0 where
  pub valid : IsValid s.pmm
  pub top : role root ≡ some (4, 0)
  pub used :
      (p k pre : ℕ)
      → role p ≡ some (k, pre)
      → (p < pmm_max_pages) × (bitmap_test s.pmm.bitmap p ≢ 0)
  pub child :
      (p k pre i : ℕ)
      → role p ≡ some (suc (suc k), pre)
      → i < 512
      → is_present (entry s p i) ≡ true
      → (q : ℕ) × (bit_and (entry s p i) pte_addr_mask ≡ q * 4096)
        × (role q ≡ some (suc k, pre * 512 + i))

-- the page that an entry points to
abbrev pub page_of : ℕ → ℕ
page_of e = bit_and e pte_addr_mask / 4096

-- The last-level entry for `va`, walking from a table of level `k + 1` in page `p`; 0 where an entry
-- on the way is not present.
unfoldable pub leaf : State → ℕ → ℕ → ℕ → ℕ
leaf s zero p va = entry s p (index 0 va)
leaf s (suc k) p va =
    let e = entry s p (index (suc k) va) in
    let below = leaf s k (page_of e) va in if is_present e then below else 0

-- The page table at the end of the same walk, where no entry on the way is absent.
unfoldable pub last_table : State → ℕ → ℕ → ℕ → ℕ
last_table s zero p va = p
last_table s (suc k) p va = last_table s k (page_of (entry s p (index (suc k) va))) va
