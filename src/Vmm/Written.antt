-- ===== src/Vmm/Written.antt =====
-- A write of a last-level entry, as `vmm_map` and `vmm_unmap` of vmm/vmm.c do it, keeps the tables
-- well-formed and the walks of all other pages as they were.
use os_kernel.Base.{ℕ, suc, ◌+◌, ◌*◌, ◌<◌, ◌≡◌, ◌≢◌, ◌⊎◌, inl, arith, some, ap, ◌∙◌, bit_and, sym}
use os_kernel.Pmm.{State}
use os_kernel.Vmm.{pte_addr_mask, is_present}
use os_kernel.Vmm.Tree.{Role, IsTree, entry, prefix, leaf}
use os_kernel.Vmm.Leaf.{page-ne, leaf-write_ne}
use os_kernel.Vmm.Access.{written, entry-written_ne}

module _ {role : Role} {root : ℕ} {s : State} (tree : IsTree role root s) (p pre i v : ℕ)
    (rp : role p ≡ some (1, pre)) (hi : i < 512) where
  pub written-IsTree : IsTree role root (written s p i v)
  written-IsTree = record {
    valid = tree.valid;
    top = tree.top;
    used = tree.used;
    child = λ p' k' pre' i' e h' there.
        let same =
          entry-written_ne s p i v p' i' hi h'
            (inl (page-ne role p' p (suc (suc k')) 1 pre' pre e rp (omega arith))) in
        let (q, at, rq) = tree.child p' k' pre' i' e h' (ap is_present (sym same) ∙ there) in
        (q, ap (λ x. bit_and x pte_addr_mask) same ∙ at, rq);
  }

  written-same :
      (p' : ℕ) (r : ℕ × ℕ) (i' : ℕ)
      → role p' ≡ some r
      → i' < 512
      → (p' ≢ p) ⊎ (i' ≢ i)
      → entry (written s p i v) p' i' ≡ entry s p' i'
  written-same p' r i' e h ne = entry-written_ne s p i v p' i' hi h ne

  pub leaf-written_ne :
      (va : ℕ) → prefix 0 va ≢ pre * 512 + i → leaf (written s p i v) 3 root va ≡ leaf s 3 root va
  leaf-written_ne va ne =
      leaf-write_ne tree (written s p i v) p i written-same pre rp 3 root va (omega arith)
        (tree.top ∙ ap (λ x. some (4, x)) (omega arith)) ne
