-- ===== src/Isr.antt =====
-- cpu/isr.c and time/time.c, and the dispatch in gdt_and_idt/idt.c: what the kernel does on an interrupt.
-- A frame is the 32-bit words from the pointer on that the assembly stub passes. The handlers that
-- drivers register are parameters.
pub mod Dispatch
mod Examples
use Prim.Native.String.{String}
use os_kernel.Base.{
  ℕ, zero, suc, ◌+◌, ◌-◌, ◌&&◌, leb, u8, u64, sub32, Option, none, some, if◌then◌else◌, List, [],
  ◌∷◌, codes,
}
use os_kernel.Ports.{Ports}
use os_kernel.Vga.{Vga}
use os_kernel.Printf.{word}
use os_kernel.Log.{log_warn}
use os_kernel.Pic.{pic_send_eoi}
use os_kernel.Idt.{
  Idt, Handler, isr_unhandled_interrupt, isr_divide_by_zero, isr_invalid_opcode, isr_double_fault,
  isr_general_protection, isr_page_fault, irq0_timer_handler, driver,
}

abbrev pub Frame : Type 0
Frame = ℕ → ℕ

-- the places of the fields in `interrupt_frame_t`, which starts with `ds`
abbrev pub frame_eax : Frame → ℕ
frame_eax frame = frame 8

abbrev pub frame_int_no : Frame → ℕ
frame_int_no frame = frame 9

-- the place of the field `int_no` in `registers_t`, which starts with `edi`
abbrev pub regs_int_no : Frame → ℕ
regs_int_no regs = regs 8

abbrev pub regs_err_code : Frame → ℕ
regs_err_code regs = regs 9

abbrev pub regs_eip : Frame → ℕ
regs_eip regs = regs 10

-- The screen with the devices behind the ports, and the static variable `ticks`.
pub record Kernel (D : Type 0) : Type 0 where
  pub vga : Vga D
  pub ticks : ℕ

-- A handler returns, waits for the lock of the screen for ever, or `kernel_panic` halts the machine with a message
-- and the registers it was given.
pub data Outcome (D : Type 0) : Type 0 where
  returned : Kernel D → Outcome D
  waiting : Outcome D
  halted : String → Frame → Outcome D

module _ {D : Type 0} where
  unfoldable pub time_get_ticks : Kernel D → ℕ
  time_get_ticks k = k.ticks

  unfoldable pub time_set_ticks : ℕ → Kernel D → Kernel D
  time_set_ticks t k = record k { ticks = t }

abbrev pub unhandled_message : List ℕ
unhandled_message = codes "Unhandled Interrupt (Vector: 0x%x, Error Code: 0x%x, EIP: 0x%x)"

module _ {D : Type 0} (io : Ports D) where
  -- a call of `pic_send_eoi`
  unfoldable pub kernel_eoi : ℕ → Kernel D → Kernel D
  kernel_eoi irq k = record k { vga = record k.vga { devices = pic_send_eoi io irq k.vga.devices } }

  -- `irq0_timer_handler`
  unfoldable pub count_tick : Kernel D → Kernel D
  count_tick k = kernel_eoi 0 (time_set_ticks (u64 (time_get_ticks k + 1)) k)

  -- `n` interrupts of the timer, one after another
  unfoldable pub count_ticks : ℕ → Kernel D → Kernel D
  count_ticks zero k = k
  count_ticks (suc n) k = count_ticks n (count_tick k)

module _ {D : Type 0} (io : Ports D) (drivers : ℕ → Frame → Kernel D → Outcome D) where
  -- the part of `isr_unhandled_interrupt` behind its message
  unfoldable pub acknowledge : Frame → Kernel D → Kernel D
  acknowledge regs k =
      if leb 32 (regs_int_no regs) && leb (regs_int_no regs) 47
      then kernel_eoi io (u8 (sub32 (regs_int_no regs) 32)) k
      else k

  unfoldable pub unhandled_interrupt : Frame → Kernel D → Outcome D
  unhandled_interrupt regs k =
      elim (log_warn io (time_get_ticks k) unhandled_message
        (word (regs_int_no regs) ∷ word (regs_err_code regs) ∷ word (regs_eip regs) ∷ []) k.vga) [
          | none ↦ waiting
          | some v ↦ returned (acknowledge regs (record k { vga = v }))
        ]

  unfoldable pub timer_interrupt : Frame → Kernel D → Outcome D
  timer_interrupt regs k = returned (count_tick io k)

  -- the call of a handler
  unfoldable pub call_handler : Handler → Frame → Kernel D → Outcome D
  call_handler isr_unhandled_interrupt regs k = unhandled_interrupt regs k
  call_handler isr_divide_by_zero regs k = halted "EXCEPTION #0: Divide By Zero" regs
  call_handler isr_invalid_opcode regs k = halted "EXCEPTION #6: Invalid Opcode" regs
  call_handler isr_double_fault regs k = halted "EXCEPTION #8: Double Fault" regs
  call_handler isr_general_protection regs k = halted "EXCEPTION #13: General Protection Fault" regs
  call_handler isr_page_fault regs k = halted "EXCEPTION #14: Page Fault" regs
  call_handler irq0_timer_handler regs k = timer_interrupt regs k
  call_handler (driver address) regs k = drivers address regs k

  unfoldable pub isr_common_handler : Idt → Frame → Kernel D → Outcome D
  isr_common_handler t frame k = elim (t.isr_handlers (frame_int_no frame)) [
    | some h ↦ call_handler h frame k
    | none ↦ unhandled_interrupt frame k
  ]
