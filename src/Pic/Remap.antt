-- ===== src/Pic/Remap.antt =====
-- `pic_init` and `pic_send_eoi` of pic/pic.c on two 8259 chips.
use os_kernel.Base.{
  ◌-◌, ◌≤◌, ◌<◌, ◌==◌, ==_iff, all_below, all_below_sound, true, ltb, if◌then◌else◌, Bool-cases,
  inl, inr, le→leb, lt→leb, ltb→lt, ltb→le, refl, ap, ◌∙◌, ℕ, ◌^◌, ◌≡◌, arith, u8,
}
use os_kernel.Base.Bits.{bit}
use os_kernel.Ports.{Ports}
use os_kernel.Pic.{pic_send_eoi, io_wait, pic_init}
use os_kernel.Pic.Chip.{
  without_lowest, Registers, Chip, master, slave, ready, write_cmd, write_data, write_port, Is8259,
}

module _ {D : Type 0} {io : Ports D} (w : Is8259 io) where
  u8-u8 : (x : ℕ) → u8 (u8 x) ≡ u8 x
  u8-u8 x = omega arith

  wait_lem :
      (c : Chip) (port v : ℕ) (d : D)
      → w.chip c (io_wait io (io.outb port v d)) ≡ write_port w.rest c port (u8 v) (w.chip c d)
  unfolding io_wait write_port
  wait_lem master port v d =
      rw (w.write master 0x80 0x00 (io.outb port v d)) (w.write master port v d)
  wait_lem slave port v d = rw (w.write slave 0x80 0x00 (io.outb port v d)) (w.write slave port v d)

  -- From two ready chips, whatever vectors they had, `pic_init` makes them ready again with the
  -- masks they had (of 8 bits), the interrupt lines of the master on the vectors from 32 on and those of the
  -- slave on the vectors from 40 on, the slave on line 2 of the master, and in 8086 mode. What is in service
  -- is left to what the first initialisation word does to it.
  pub pic_init_lem :
      (d : D)
      → (w.chip master d).stage ≡ ready
      → (w.chip slave d).stage ≡ ready
      → (w.chip master (pic_init io d) ≡ record {
        stage = ready;
        vector = 32;
        cascade = 2 ^ 2;
        mode = 1;
        imr = u8 (w.chip master d).imr;
        in_service = w.rest.after_reset (w.chip master d).in_service;
      })
        × (w.chip slave (pic_init io d) ≡ record {
          stage = ready;
          vector = 40;
          cascade = 2;
          mode = 1;
          imr = u8 (w.chip slave d).imr;
          in_service = w.rest.after_reset (w.chip slave d).in_service;
        })
  unfolding pic_init write_port write_cmd write_data bit
  pic_init_lem d hm hs = (
    simp (w.write, wait_lem, w.read master d hm, u8-u8),
    simp (w.write, wait_lem, w.read slave d hs, u8-u8),
  )

-- The chips while the interrupt line `irq` is served: a line of the slave is served by both.
abbrev pub IsServing : ℕ → Registers → Registers → Type 0
IsServing irq m s =
    (m.in_service ≡ (if ltb irq 8 then 2 ^ irq else 2 ^ 2))
    × (s.in_service ≡ (if ltb irq 8 then 0 else 2 ^ (irq - 8)))

without_lowest-two_pow : (k : ℕ) → k < 8 → without_lowest 8 0 (2 ^ k) ≡ 0
unfolding without_lowest bit all_below
without_lowest-two_pow k lt =
    (==_iff _ _).0 (all_below_sound 8 (λ i. without_lowest 8 0 (2 ^ i) == 0) k all lt)
  where
    all : all_below 8 (λ i. without_lowest 8 0 (2 ^ i) == 0) ≡ true
    all = refl

module _ {D : Type 0} {io : Ports D} (w : Is8259 io) where
  eoi-low :
      (irq : ℕ) (d : D)
      → irq < 8
      → (w.chip master (pic_send_eoi io irq d) ≡ write_cmd w.rest 0x20 (w.chip master d))
        × (w.chip slave (pic_send_eoi io irq d) ≡ w.chip slave d)
  unfolding pic_send_eoi write_port
  eoi-low irq d lt =
      rw (pic_send_eoi, lt→leb 8 irq lt) (w.write master 0x20 0x20 d, w.write slave 0x20 0x20 d)

  eoi-high :
      (irq : ℕ) (d : D)
      → 8 ≤ irq
      → (w.chip master (pic_send_eoi io irq d) ≡ write_cmd w.rest 0x20 (w.chip master d))
        × (w.chip slave (pic_send_eoi io irq d) ≡ write_cmd w.rest 0x20 (w.chip slave d))
  unfolding pic_send_eoi write_port
  eoi-high irq d le =
      rw (pic_send_eoi, le→leb 8 irq le)
        (
          w.write master 0x20 0x20 _ ∙ ap (write_cmd w.rest 0x20) (w.write master 0xA0 0x20 d),
          w.write slave 0x20 0x20 _ ∙ w.write slave 0xA0 0x20 d,
        )

  -- Once the handler of a line calls `pic_send_eoi` with it, neither chip has an interrupt in
  -- service any more, and no other register has changed.
  pub pic_send_eoi_lem :
      (irq : ℕ) (d : D)
      → irq < 16
      → IsServing irq (w.chip master d) (w.chip slave d)
      → (w.chip master (pic_send_eoi io irq d) ≡ record (w.chip master d) { in_service = 0 })
        × (w.chip slave (pic_send_eoi io irq d) ≡ record (w.chip slave d) { in_service = 0 })
  unfolding write_cmd bit
  pic_send_eoi_lem irq d lt (hm, hs) = elim (Bool-cases (ltb irq 8)) [
    | inl low ↦
        let (m, s) = eoi-low irq d (ltb→lt irq 8 low) in
        let served : (w.chip master d).in_service ≡ 2 ^ irq = hm ∙ rw low refl in
        let idle : (w.chip slave d).in_service ≡ 0 = hs ∙ rw low refl in
        (
          m
              ∙ ap (λ x. record (w.chip master d) { in_service = x })
                  (ap (without_lowest 8 0) served ∙ without_lowest-two_pow irq (ltb→lt irq 8 low)),
          s ∙ ap (λ x. record (w.chip slave d) { in_service = x }) idle,
        )
    | inr high ↦
        let (m, s) = eoi-high irq d (ltb→le irq 8 high) in
        let cascade : (w.chip master d).in_service ≡ 2 ^ 2 = hm ∙ rw high refl in
        let served : (w.chip slave d).in_service ≡ 2 ^ (irq - 8) = hs ∙ rw high refl in
        (
          m
              ∙ ap (λ x. record (w.chip master d) { in_service = x })
                  (ap (without_lowest 8 0) cascade ∙ without_lowest-two_pow 2 (omega arith)),
          s
              ∙ ap (λ x. record (w.chip slave d) { in_service = x })
                  (ap (without_lowest 8 0) served
                    ∙ without_lowest-two_pow (irq - 8) (omega (arith, ltb→le irq 8 high))),
        )
  ]
