-- ===== src/Panic.antt =====
-- kernel/panic.c, and the functions of kernel/stubs.c that it calls. The registers are the words of
-- `registers_t`, as for Isr. `cli` and `hlt` are assembly: the result is the screen on which the kernel halts.
mod Examples
use os_kernel.Base.{ℕ, Option, none, some, ◌>>=◌, List, [], ◌∷◌, codes, ◌≡◌, ◌∙◌, ap, refl, sym}
use os_kernel.Spinlock.{Spinlock, spinlock_release}
use os_kernel.Vga.{Vga, vga_set_colors, release}
use os_kernel.Vga.Write.{acquire_free}
use os_kernel.Printf.{Arg, word, text}
use os_kernel.Isr.{Frame}

module _ {D : Type 0} where
  unfoldable pub log_fatal : List ℕ → List Arg → Vga D → Vga D
  log_fatal msg args v = v

  unfoldable pub vga_clear_screen : Vga D → Vga D
  vga_clear_screen v = v

  unfoldable pub vga_set_cursor : ℕ → ℕ → Vga D → Vga D
  vga_set_cursor x y v = v

  -- the calls of `log_fatal` on the registers
  unfoldable pub report : Option Frame → Vga D → Vga D
  report none v = log_fatal (codes "  No CPU state available (panic not interrupt-driven).") [] v
  report (some regs) v =
      let v1 =
        log_fatal (codes "  EIP: 0x%x, CS: 0x%x, EFLAGS: 0x%x")
          (word (regs 10) ∷ word (regs 11) ∷ word (regs 12) ∷ []) v in
      let v2 = log_fatal (codes "  ESP: 0x%x, SS: 0x%x") (word (regs 3) ∷ word (regs 14) ∷ []) v1 in
      let v3 =
        log_fatal (codes "  EAX: 0x%x, EBX: 0x%x, ECX: 0x%x, EDX: 0x%x")
          (word (regs 7) ∷ word (regs 4) ∷ word (regs 6) ∷ word (regs 5) ∷ []) v2 in
      let v4 =
        log_fatal (codes "  ESI: 0x%x, EDI: 0x%x, EBP: 0x%x")
          (word (regs 1) ∷ word (regs 0) ∷ word (regs 2) ∷ []) v3 in
      log_fatal (codes "  Interrupt No: 0x%x, Error Code: 0x%x")
        (word (regs 8) ∷ word (regs 9) ∷ []) v4

  unfoldable pub kernel_panic : List ℕ → Option Frame → Vga D → Option (Vga D)
  kernel_panic msg regs v = do
    v1 ← vga_set_colors 15 4 v
    let v2 = vga_set_cursor 0 0 (vga_clear_screen v1)
    let v3 = log_fatal (codes "KERNEL PANIC!") [] v2
    let v4 = report regs (log_fatal (codes "Message: %s") (text msg ∷ []) v3)
    some (log_fatal (codes "System Halted.") [] v4)

  report_same : (regs : Option Frame) (v : Vga D) → report regs v ≡ v
  unfolding report log_fatal
  report_same none v = refl
  report_same (some regs) v = refl

  -- When the lock of the screen is free, the kernel halts with the screen as it was: only the colour for
  -- later output is white on red, and neither the message nor the registers are shown.
  pub kernel_panic_lem :
      (msg : List ℕ) (regs : Option Frame) (v : Vga D)
      → v.vga_lock.locked ≡ 0
      → kernel_panic msg regs v
        ≡ some (record v {
          screen = record v.screen { current_color_byte = 0x4F };
          vga_lock = record { locked = 0 };
        })
  unfolding kernel_panic vga_set_colors release spinlock_release log_fatal vga_clear_screen
      vga_set_cursor
  kernel_panic_lem msg regs v free = rw (acquire_free v free) (ap some (report_same regs _))
