-- ===== src/Pic/Masks.antt =====
-- The masks that pic/pic.c sets on two 8259 chips.
use os_kernel.Base.{
  ℕ, ◌-◌, ◌^◌, ◌<◌, ◌≡◌, refl, arith, ◌==◌, ltb, if◌then◌else◌, u8, u32, bit_or, bit_and, ap, ◌∙◌,
  Bool-cases, inl, inr,
}
use os_kernel.Base.Bits.{bit, zero-bit}
use os_kernel.Base.Fields.{bit-ones}
use os_kernel.Ports.{Ports}
use os_kernel.Pic.{pic_mask_irq, pic_unmask_irq, pic_mask_all, pic_unmask_all, irq_port, irq_line}
use os_kernel.Pic.Chip.{Chip, master, slave, ready, data_port, write_data, write_port, Is8259}
use os_kernel.Pic.Bit.{chip_of, line_of, put, bit-set, bit-reset, line_of-lt}

module _ {D : Type 0} {io : Ports D} (w : Is8259 io) where
  -- 1 when the interrupt line is masked
  abbrev pub masked : D → ℕ → ℕ
  masked d irq = bit (w.chip (chip_of irq) d).imr (line_of irq)

  -- both chips are ready
  abbrev pub IsReady : D → Type 0
  IsReady d = (c : Chip) → (w.chip c d).stage ≡ ready

  port_lem : (irq : ℕ) → irq_port io irq ≡ data_port (chip_of irq)
  unfolding irq_port
  port_lem irq = ground arith

  line_lem : (irq : ℕ) → irq < 16 → irq_line io irq ≡ line_of irq
  unfolding irq_line
  line_lem irq lt = ground arith

  write_mask :
      (c : Chip) (v : ℕ) (d : D)
      → IsReady d
      → (c' : Chip)
      → w.chip c' (io.outb (data_port c) v d)
        ≡ put c c' (record (w.chip c' d) { imr = u8 v }) (w.chip c' d)
  unfolding write_port write_data put
  write_mask master v d r master = w.write master 0x21 v d ∙ rw (r master) refl
  write_mask master v d r slave = w.write slave 0x21 v d
  write_mask slave v d r master = w.write master 0xA1 v d
  write_mask slave v d r slave = w.write slave 0xA1 v d ∙ rw (r slave) refl

  write_mask-IsReady : (c : Chip) (v : ℕ) (d : D) → IsReady d → IsReady (io.outb (data_port c) v d)
  unfolding put
  write_mask-IsReady master v d r master =
      ap (λ x. x.stage) (write_mask master v d r master) ∙ r master
  write_mask-IsReady master v d r slave =
      ap (λ x. x.stage) (write_mask master v d r slave) ∙ r slave
  write_mask-IsReady slave v d r master =
      ap (λ x. x.stage) (write_mask slave v d r master) ∙ r master
  write_mask-IsReady slave v d r slave = ap (λ x. x.stage) (write_mask slave v d r slave) ∙ r slave

  -- Writing a mask that differs from the old one at one line only, where it is `b`.
  masked-write :
      (irq v b : ℕ) (d : D)
      → IsReady d
      → ((k : ℕ)
          → k < 8
          → bit (u8 v) k ≡ (if k == line_of irq then b else bit (w.chip (chip_of irq) d).imr k))
      → irq < 16
      → (j : ℕ) → j < 16
      → masked (io.outb (data_port (chip_of irq)) v d) j ≡ (if j == irq then b else masked d j)
  unfolding put
  masked-write irq v b d r h lt j lj = elim (Bool-cases (ltb irq 8)) [
    | inl low ↦
        let line : line_of irq ≡ irq = rw low refl in
        let old : bit (w.chip (chip_of irq) d).imr j ≡ bit (w.chip master d).imr j = rw low refl in
        elim (Bool-cases (ltb j 8)) [
          | inl j_low ↦
              rw (low, j_low, write_mask master v d r master) (ground (arith, h j, line, old))
          | inr j_high ↦
              rw (low, j_high, write_mask master v d r slave) (ground (arith, low, j_high))
        ]
    | inr high ↦
        let line : line_of irq ≡ irq - 8 = rw high refl in
        let old : bit (w.chip (chip_of irq) d).imr (j - 8) ≡ bit (w.chip slave d).imr (j - 8) =
          rw high refl in
        elim (Bool-cases (ltb j 8)) [
          | inl j_low ↦
              rw (high, j_low, write_mask slave v d r master) (ground (arith, high, j_low))
          | inr j_high ↦
              rw (high, j_high, write_mask slave v d r slave)
                (ground (arith, h (j - 8), line, old, high, j_high))
        ]
  ]

  module _ (irq : ℕ) (d : D) (lt : irq < 16) (r : IsReady d) where
    imr_of : ℕ
    imr_of = (w.chip (chip_of irq) d).imr

    pic_mask_irq-outb :
        pic_mask_irq io irq d
        ≡ io.outb (data_port (chip_of irq)) (u8 (bit_or (u8 imr_of) (2 ^ line_of irq))) d
    unfolding pic_mask_irq imr_of
    pic_mask_irq-outb =
        rw (pic_mask_irq, port_lem irq, line_lem irq lt, w.read (chip_of irq) d (r (chip_of irq)))
          refl

    pic_unmask_irq-outb :
        pic_unmask_irq io irq d
        ≡ io.outb
            (data_port (chip_of irq))
            (u8 (bit_and (u8 imr_of) (2 ^ 32 - 1 - u32 (2 ^ line_of irq))))
            d
    unfolding pic_unmask_irq imr_of
    pic_unmask_irq-outb =
        rw (pic_unmask_irq, port_lem irq, line_lem irq lt, w.read (chip_of irq) d (r (chip_of irq)))
          refl

    -- `pic_mask_irq` masks its line and no other of the 16, and the chips stay ready.
    pic_mask_irq_lem :
        IsReady (pic_mask_irq io irq d)
        × ((j : ℕ)
            → j < 16
            → masked (pic_mask_irq io irq d) j ≡ (if j == irq then 1 else masked d j))
    unfolding imr_of
    pic_mask_irq_lem =
        let v = u8 (bit_or (u8 imr_of) (2 ^ line_of irq)) in
        rw pic_mask_irq-outb (
          write_mask-IsReady (chip_of irq) v d r,
          masked-write irq v 1 d r (bit-set imr_of (line_of irq)) lt,
        )

    -- `pic_unmask_irq` unmasks its line and no other of the 16, and the chips stay ready.
    pic_unmask_irq_lem :
        IsReady (pic_unmask_irq io irq d)
        × ((j : ℕ)
            → j < 16
            → masked (pic_unmask_irq io irq d) j ≡ (if j == irq then 0 else masked d j))
    unfolding imr_of
    pic_unmask_irq_lem =
        let v = u8 (bit_and (u8 imr_of) (2 ^ 32 - 1 - u32 (2 ^ line_of irq))) in
        rw pic_unmask_irq-outb (
          write_mask-IsReady (chip_of irq) v d r,
          masked-write irq v 0 d r (λ k. bit-reset imr_of (line_of irq) k (line_of-lt irq lt)) lt,
        )

  both_masks :
      (v : ℕ) (d : D)
      → IsReady d
      → (c : Chip) → (w.chip c (io.outb 0xA1 v (io.outb 0x21 v d))).imr ≡ u8 v
  unfolding put
  both_masks v d r master =
      ap (λ x. x.imr)
        (write_mask slave v (io.outb 0x21 v d) (write_mask-IsReady master v d r) master
          ∙ write_mask master v d r master)
  both_masks v d r slave =
      ap (λ x. x.imr)
        (write_mask slave v (io.outb 0x21 v d) (write_mask-IsReady master v d r) slave)

  both_masks-IsReady : (v : ℕ) (d : D) → IsReady d → IsReady (io.outb 0xA1 v (io.outb 0x21 v d))
  both_masks-IsReady v d r =
      write_mask-IsReady slave v (io.outb 0x21 v d) (write_mask-IsReady master v d r)

  -- `pic_mask_all` masks each of the 16 lines and `pic_unmask_all` none of them, and the chips stay ready.
  pic_mask_all_lem :
      (d : D)
      → IsReady d
      → IsReady (pic_mask_all io d)
        × ((j : ℕ) → j < 16 → masked (pic_mask_all io d) j ≡ 1)
        × IsReady (pic_unmask_all io d)
        × ((j : ℕ) → j < 16 → masked (pic_unmask_all io d) j ≡ 0)
  unfolding pic_mask_all pic_unmask_all
  pic_mask_all_lem d r = (
    both_masks-IsReady 0xFF d r,
    λ j lj.
        ap (λ x. bit x (line_of j)) (both_masks 0xFF d r (chip_of j))
        ∙ bit-ones 8 (line_of j)
        ∙ ground (arith, line_of-lt j lj),
    both_masks-IsReady 0x00 d r,
    λ j lj. ap (λ x. bit x (line_of j)) (both_masks 0x00 d r (chip_of j)) ∙ zero-bit (line_of j),
  )
