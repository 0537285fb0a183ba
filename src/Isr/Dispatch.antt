-- ===== src/Isr/Dispatch.antt =====
-- The dispatch of interrupts after `idt_init`: gdt_and_idt/idt.c with cpu/isr.c.
use Prim.Native.String.{String}
use os_kernel.Base.{
  ℕ, ◌+◌, ◌%◌, ◌^◌, ◌<◌, ◌≡◌, ◌⊎◌, inl, inr, refl, arith, ◌∙◌, ne→==, leb, ◌&&◌, false, List, [],
  ◌∷◌, ◌++◌, codes, some,
}
use os_kernel.Ports.{Ports}
use os_kernel.Vga.{Vga}
use os_kernel.Printf.{word}
use os_kernel.Printf.Format.{Piece, hexadecimal, Formats, percent_x, end, Draws}
use os_kernel.Log.{log_warn}
use os_kernel.Log.Message.{letters, message, warn_level, Formats-letters, log_lem}
use os_kernel.Log.Quiet.{log_warn-Keeps}
use os_kernel.Pic.Chip.{Chip, master, slave, write_port, Is8259}
use os_kernel.Pic.Remap.{IsServing, pic_send_eoi_lem}
use os_kernel.Idt.{Idt, idt_init, isr_unhandled_interrupt}
use os_kernel.Idt.Handlers.{handler_of, idt_init-handlers}
use os_kernel.Isr.{
  Frame, Kernel, Outcome, returned, halted, frame_int_no, frame_eax, unhandled_interrupt,
  timer_interrupt, count_tick, kernel_eoi, acknowledge, unhandled_message, call_handler,
  isr_common_handler, time_get_ticks, time_set_ticks,
}

-- the exceptions that stop the machine
abbrev pub IsFatal : ℕ → Type 0
IsFatal v = (v ≡ 0) ⊎ ((v ≡ 6) ⊎ ((v ≡ 8) ⊎ ((v ≡ 13) ⊎ (v ≡ 14))))

-- the pieces of the warning, and that they are those of its format
abbrev pub unhandled_pieces : ℕ → ℕ → ℕ → List Piece
unhandled_pieces vector error eip =
    letters (codes "Unhandled Interrupt (Vector: 0x")
    ++ (hexadecimal vector
        ∷ (letters (codes ", Error Code: 0x")
            ++ (hexadecimal error
                ∷ (letters (codes ", EIP: 0x")
                    ++ (hexadecimal eip ∷ (letters (codes ")") ++ []))))))

unhandled-Formats :
    (a b c : ℕ)
    → a < 2 ^ 32
    → b < 2 ^ 32
    → c < 2 ^ 32
    → Formats unhandled_message (word a ∷ word b ∷ word c ∷ []) (unhandled_pieces a b c)
unhandled-Formats a b c ha hb hc = Formats-letters (codes "Unhandled Interrupt (Vector: 0x") refl (
    percent_x a ha (
      Formats-letters (codes ", Error Code: 0x") refl (
        percent_x b hb (
          Formats-letters (codes ", EIP: 0x") refl
            (percent_x c hc (Formats-letters (codes ")") refl end))))))

-- The ports of the cursor are not those of the controllers.
cursor_ports :
    {D : Type 0} {io : Ports D} (w : Is8259 io) (c : Chip) (port v : ℕ) (d : D)
    → (port ≡ 0x3D4) ⊎ (port ≡ 0x3D5)
    → w.chip c (io.outb port v d) ≡ w.chip c d
unfolding write_port
cursor_ports w master port v d (inl e) = w.write master port v d ∙ rw e refl
cursor_ports w slave port v d (inl e) = w.write slave port v d ∙ rw e refl
cursor_ports w master port v d (inr e) = w.write master port v d ∙ rw e refl
cursor_ports w slave port v d (inr e) = w.write slave port v d ∙ rw e refl

module _ {D : Type 0} (io : Ports D) (drivers : ℕ → Frame → Kernel D → Outcome D) (isr irq : ℕ → ℕ)
    (address : ℕ) (t : Idt) (frame : Frame) (k : Kernel D) where
  dispatch_lem :
      frame_int_no frame < 256
      → isr_common_handler io drivers (idt_init isr irq address t) frame k
        ≡ call_handler io drivers (handler_of (frame_int_no frame)) frame k
  unfolding isr_common_handler
  dispatch_lem lt =
      rw (isr_common_handler, idt_init-handlers isr irq address t (frame_int_no frame) lt) refl

  -- Once `idt_init` has run, the exceptions 0, 6, 8, 13 and 14 stop the machine: the handler hands
  -- its frame to `kernel_panic` and does not return.
  pub isr_common_handler-IsFatal :
      IsFatal (frame_int_no frame)
      → (message : String) × (isr_common_handler io drivers (idt_init isr irq address t) frame k
          ≡ halted message frame)
  unfolding call_handler
  isr_common_handler-IsFatal fatal = elim fatal [
    | inl e ↦ ("EXCEPTION #0: Divide By Zero", dispatch_lem (omega arith) ∙ rw e refl)
    | inr (inl e) ↦ ("EXCEPTION #6: Invalid Opcode", dispatch_lem (omega arith) ∙ rw e refl)
    | inr (inr (inl e)) ↦ ("EXCEPTION #8: Double Fault", dispatch_lem (omega arith) ∙ rw e refl)
    | inr (inr (inr (inl e))) ↦
        ("EXCEPTION #13: General Protection Fault", dispatch_lem (omega arith) ∙ rw e refl)
    | inr (inr (inr (inr e))) ↦
        ("EXCEPTION #14: Page Fault", dispatch_lem (omega arith) ∙ rw e refl)
  ]

  -- Once `idt_init` has run, the timer's interrupt, on controllers that serve line 0, returns with one
  -- tick more (modulo 2 ^ 64) and with no interrupt in service, and nothing else changed in the controllers.
  pub isr_common_handler-timer :
      (w : Is8259 io)
      → frame_int_no frame ≡ 32
      → IsServing 0 (w.chip master k.vga.devices) (w.chip slave k.vga.devices)
      → (k' : Kernel D) × (isr_common_handler io drivers (idt_init isr irq address t) frame k
          ≡ returned k')
        × (k'.ticks ≡ (k.ticks + 1) % 2 ^ 64)
        × (w.chip master k'.vga.devices ≡ record (w.chip master k.vga.devices) { in_service = 0 })
        × (w.chip slave k'.vga.devices ≡ record (w.chip slave k.vga.devices) { in_service = 0 })
  unfolding call_handler timer_interrupt count_tick kernel_eoi time_get_ticks time_set_ticks
  isr_common_handler-timer w e serving =
      let (m, s) = pic_send_eoi_lem w 0 k.vga.devices (omega arith) serving in
      (count_tick io k, dispatch_lem (omega arith) ∙ rw e refl, refl, m, s)

  -- the general handler when its message ends and `eax` is no vector of a line
  unhandled-warns :
      (v : Vga D)
      → log_warn io k.ticks unhandled_message
          (word (frame_eax frame) ∷ word (frame_int_no frame) ∷ word (frame 10) ∷ [])
          k.vga
        ≡ some v
      → (leb 32 (frame_eax frame) && leb (frame_eax frame) 47) ≡ false
      → unhandled_interrupt io drivers frame k ≡ returned (record k { vga = v })
  unfolding unhandled_interrupt acknowledge time_get_ticks
  unhandled-warns v e silent = rw (unhandled_interrupt, e, silent) refl

  -- Once `idt_init` has run, an interrupt of the lines 1 to 15 that no driver has registered returns, when the
  -- lock of the screen is free and the interrupted code had a value outside 32 to 47 in `eax`, with nothing
  -- done but a warning: the general handler reads that register for the vector, so the warning shows it,
  -- and the vector as the error code, and the controllers get no end of interrupt.
  pub isr_common_handler-lost :
      (w : Is8259 io)
      → 32 < frame_int_no frame
      → frame_int_no frame < 48
      → (frame_eax frame < 32) ⊎ ((47 < frame_eax frame) × (frame_eax frame < 2 ^ 32))
      → frame 10 < 2 ^ 32
      → k.vga.vga_lock ≡ record { locked = 0 }
      → (v : Vga D) × (isr_common_handler io drivers (idt_init isr irq address t) frame k
          ≡ returned (record k { vga = v }))
        × Draws
            (message 0x06 warn_level k.ticks
              (unhandled_pieces (frame_eax frame) (frame_int_no frame) (frame 10)))
            k.vga.screen
            v.screen
        × (v.vga_lock ≡ record { locked = 0 })
        × ((c : Chip) → w.chip c v.devices ≡ w.chip c k.vga.devices)
  unfolding call_handler
  isr_common_handler-lost w above below out small free =
      let v = frame_int_no frame in
      let general : handler_of v ≡ isr_unhandled_interrupt =
        rw
          (
            ne→== v 0 (omega arith),
            ne→== v 6 (omega arith),
            ne→== v 8 (omega arith),
            ne→== v 13 (omega arith),
            ne→== v 14 (omega arith),
            ne→== v 32 (omega arith),
          )
          refl in
      let eax_small : frame_eax frame < 2 ^ 32 = ground arith in
      let silent : (leb 32 (frame_eax frame) && leb (frame_eax frame) 47) ≡ false = ground arith in
      let (shown, e, draws, free') =
        (log_lem io k.ticks k.vga
          (unhandled-Formats (frame_eax frame) v (frame 10) eax_small (omega arith) small)
          free).1 in
      (
        shown,
        dispatch_lem (omega arith) ∙ rw general (unhandled-warns shown e silent),
        draws,
        free',
        λ c. log_warn-Keeps io (w.chip c) (cursor_ports w c) k.ticks _ _ k.vga shown e,
      )
