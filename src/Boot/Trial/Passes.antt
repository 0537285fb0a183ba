-- ===== src/Boot/Trial/Passes.antt =====
-- The trial of the heap in kernel/kernel_main.c passes.
use mathlib.Core.Path.{subst}
use os_kernel.Base.{
  ℕ, ◌+◌, ◌-◌, ◌<◌, ◌≡◌, refl, arith, update, update_self, update_ne, true, false, some, ◌>>=◌, inl,
  ◌^◌, ◌∙◌, ne→==, [], ◌∷◌, codes,
}
use os_kernel.Ports.{Ports}
use os_kernel.Log.Usable.{IsUsable}
use os_kernel.Kmalloc.{Heap}
use os_kernel.Kmalloc.Chain.{IsHeap}
use os_kernel.Kmalloc.Release.{kfree_lem}
use os_kernel.Boot.Watch.{Running, say-Says, say_text}
use os_kernel.Boot.Trial.{Trial, heap_trial, report_first, report_words, report_second, store_two}
use os_kernel.Boot.Trial.Blocks.{kmalloc-found, first-block, second-block, third-block, given-back}
use os_kernel.Boot.Trial.Messages.{
  passes, first_message, words_message, second_message, reuse_message,
}

module _ {D : Type 0} (io : Ports D) (clock : ℕ → ℕ) where
  -- On a heap of one free block of more than 56 bytes the trial ends, with a usable screen, once the loops may
  -- visit three blocks: each of its tests passes, and the third call of `kmalloc` returns the block that was
  -- given back. The words in the first block are those stored.
  pub heap_trial_lem :
      (fuel start stop n : ℕ) (h : Heap) (words : ℕ → ℕ) (r : Running D)
      → IsHeap h start stop ((n, true) ∷ [])
      → 56 < n
      → 3 < fuel
      → IsUsable r.vga
      → (t : Trial D) × (heap_trial io clock fuel h words r ≡ some t)
        × (passes io clock (start + 12) (start + 40) r ≡ some t.running)
        × IsUsable t.running.vga
        × (t.a ≡ some (start + 12))
        × (t.b ≡ some (start + 40))
        × (t.c ≡ t.a)
        × IsHeap t.heap start stop ((16, false) ∷ (16, false) ∷ (n - 16 - 12 - 16 - 12, true) ∷ [])
        × (t.words (start + 12) ≡ 0xDEADBEEF)
        × (t.words (start + 12 + 4) ≡ 0xCAFEBABE)
  unfolding heap_trial report_first report_words report_second store_two
  heap_trial_lem fuel start stop n h words r w room enough u =
      let small : start + 12 + n < 2 ^ 32 = omega (arith, w.chain.1, w.small) in
      let p = start + 12 in
      let q = start + 40 in
      let k = n - 16 - 12 - 16 - 12 in
      let words' = update (update words p 0xDEADBEEF) (p + 4) 0xCAFEBABE in
      let (h1, m1, w1) =
        kmalloc-found fuel 16 p h start stop _ _ w (omega arith) (first-block start n room) in
      let (h2, m2, w2) =
        kmalloc-found fuel 16 q h1 start stop _ _ w1 (omega arith) (second-block start n room) in
      let (h3, m3, w3) = kfree_lem fuel start h2 start stop _ w2 (inl refl) (omega arith) in
      let w3' = subst (IsHeap h3 start stop) (given-back start n room k) w3 in
      let (h4, m4, w4) =
        kmalloc-found fuel 16 p h3 start stop _ _ w3' (omega arith) (third-block start n room k) in
      let (r1, s1, u1, _) = say_text io clock (codes "Testing kmalloc...") r refl u in
      let (r2, s2, u2, _) = say-Says io clock r1 (first_message p (omega arith)).1 u1 in
      let (r3, s3, u3, _) =
        say-Says io clock r2 (words_message 0xDEADBEEF 0xCAFEBABE (omega arith) (omega arith)).1
          u2 in
      let (r4, s4, u4, _) =
        say-Says io clock r3 (second_message p q (omega arith) (omega arith)).1 u3 in
      let (r5, s5, u5, _) =
        say-Says io clock r4 (reuse_message p p (omega arith) (omega arith)).1 u4 in
      let x : words' p ≡ 0xDEADBEEF =
        update_ne (update words p 0xDEADBEEF) (p + 4) 0xCAFEBABE p (omega arith)
        ∙ update_self words p 0xDEADBEEF in
      let y : words' (p + 4) ≡ 0xCAFEBABE =
        update_self (update words p 0xDEADBEEF) (p + 4) 0xCAFEBABE in
      (
        record { running = r5; heap = h4; words = words'; a = some p; b = some q; c = some p },
        rw
            (
              s1,
              ◌>>=◌,
              m1,
              ◌>>=◌,
              s2,
              ◌>>=◌,
              x,
              y,
              s3,
              ◌>>=◌,
              m2,
              ◌>>=◌,
              ne→== q p (omega arith),
              s4,
              ◌>>=◌,
              m3,
              ◌>>=◌,
              m4,
              ◌>>=◌,
              s5,
            )
            refl,
        rw (s1, ◌>>=◌, s2, ◌>>=◌, s3, ◌>>=◌, s4, ◌>>=◌, s5) refl,
        u5,
        refl,
        refl,
        refl,
        w4,
        x,
        y,
      )
