-- ===== src/Idt.antt =====
-- gdt_and_idt/idt.h and idt.c: the interrupt descriptor table and the table of C handlers.
pub mod Handlers
pub mod Packed
pub mod Gates
mod Examples
use os_kernel.Base.{
  ℕ, zero, suc, ◌+◌, ◌-◌, ◌*◌, ◌/◌, ◌^◌, bit_and, bit_or, u16, update, Option, none, some, List, [],
  ◌∷◌,
}

-- `idt_entry_t`; the field `zero` is called `reserved`.
pub record IdtEntry : Type 0 where
  pub offset_low : ℕ
  pub selector : ℕ
  pub reserved : ℕ
  pub type_attr : ℕ
  pub offset_high : ℕ

-- `idt_ptr_t`
pub record IdtPtr : Type 0 where
  pub limit : ℕ
  pub base : ℕ

-- `isr_handler_t`: the C functions of cpu/isr.c, and those that a driver registers, by address.
pub data Handler : Type 0 where
  isr_unhandled_interrupt isr_divide_by_zero isr_invalid_opcode isr_double_fault : Handler
  isr_general_protection isr_page_fault irq0_timer_handler : Handler
  driver : ℕ → Handler

-- The static variables `idt`, `idt_ptr` and `isr_handlers`; `none` is NULL.
pub record Idt : Type 0 where
  pub idt : ℕ → IdtEntry
  pub idt_ptr : IdtPtr
  pub isr_handlers : ℕ → Option Handler

abbrev pub idt_flag_present : ℕ
idt_flag_present = 1 * 2 ^ 7

abbrev pub idt_flag_ring0 : ℕ
idt_flag_ring0 = 0 * 2 ^ 5

abbrev pub idt_gate_interrupt_32 : ℕ
idt_gate_interrupt_32 = 0x0E

abbrev pub idt_gate_trap_32 : ℕ
idt_gate_trap_32 = 0x0F

abbrev pub idt_kernel_interrupt : ℕ
idt_kernel_interrupt = bit_or (bit_or idt_flag_present idt_flag_ring0) idt_gate_interrupt_32

abbrev pub idt_kernel_trap : ℕ
idt_kernel_trap = bit_or (bit_or idt_flag_present idt_flag_ring0) idt_gate_trap_32

abbrev pub idt_entry_count : ℕ
idt_entry_count = 256

-- `sizeof(idt_entry_t)`, a packed structure of 8 bytes
abbrev pub idt_entry_size : ℕ
idt_entry_size = 8

unfoldable pub idt_set_entry : Idt → ℕ → ℕ → ℕ → ℕ → Idt
idt_set_entry t vector handler selector type_attr = record t {
  idt = update t.idt vector (record {
    offset_low = u16 (bit_and handler 0xFFFF);
    offset_high = u16 (bit_and (handler / 2 ^ 16) 0xFFFF);
    selector = selector;
    reserved = 0;
    type_attr = type_attr;
  });
}

unfoldable pub idt_register_handler : Idt → ℕ → Handler → Idt
idt_register_handler t vector fn = record t {
  isr_handlers = update t.isr_handlers vector (some fn);
}

-- The two calls of `memset`.
unfoldable pub clear_tables : Idt → Idt
clear_tables t = record t {
  idt = λ v. record { offset_low = 0; selector = 0; reserved = 0; type_attr = 0; offset_high = 0 };
  isr_handlers = λ v. none;
}

-- The calls of `idt_set_entry` with the selector 0x08, in their order: the vector, the address of
-- the assembly stub and the type.
abbrev pub gates : (ℕ → ℕ) → (ℕ → ℕ) → List (ℕ × ℕ × ℕ)
gates isr irq =
    (0, isr 0, idt_kernel_interrupt)
    ∷ (1, isr 1, idt_kernel_trap)
    ∷ (2, isr 2, idt_kernel_interrupt)
    ∷ (3, isr 3, idt_kernel_trap)
    ∷ (4, isr 4, idt_kernel_interrupt)
    ∷ (5, isr 5, idt_kernel_interrupt)
    ∷ (6, isr 6, idt_kernel_interrupt)
    ∷ (7, isr 7, idt_kernel_interrupt)
    ∷ (8, isr 8, idt_kernel_interrupt)
    ∷ (9, isr 9, idt_kernel_interrupt)
    ∷ (10, isr 10, idt_kernel_interrupt)
    ∷ (11, isr 11, idt_kernel_interrupt)
    ∷ (12, isr 12, idt_kernel_interrupt)
    ∷ (13, isr 13, idt_kernel_interrupt)
    ∷ (14, isr 14, idt_kernel_interrupt)
    ∷ (15, isr 15, idt_kernel_interrupt)
    ∷ (16, isr 16, idt_kernel_interrupt)
    ∷ (17, isr 17, idt_kernel_interrupt)
    ∷ (18, isr 18, idt_kernel_interrupt)
    ∷ (19, isr 19, idt_kernel_interrupt)
    ∷ (20, isr 20, idt_kernel_interrupt)
    ∷ (21, isr 21, idt_kernel_interrupt)
    ∷ (32, irq 0, idt_kernel_interrupt)
    ∷ (33, irq 1, idt_kernel_interrupt)
    ∷ (34, irq 2, idt_kernel_interrupt)
    ∷ (35, irq 3, idt_kernel_interrupt)
    ∷ (36, irq 4, idt_kernel_interrupt)
    ∷ (37, irq 5, idt_kernel_interrupt)
    ∷ (38, irq 6, idt_kernel_interrupt)
    ∷ (39, irq 7, idt_kernel_interrupt)
    ∷ (40, irq 8, idt_kernel_interrupt)
    ∷ (41, irq 9, idt_kernel_interrupt)
    ∷ (42, irq 10, idt_kernel_interrupt)
    ∷ (43, irq 11, idt_kernel_interrupt)
    ∷ (44, irq 12, idt_kernel_interrupt)
    ∷ (45, irq 13, idt_kernel_interrupt)
    ∷ (46, irq 14, idt_kernel_interrupt)
    ∷ (47, irq 15, idt_kernel_interrupt)
    ∷ []

unfoldable pub set_gates : List (ℕ × ℕ × ℕ) → Idt → Idt
set_gates [] t = t
set_gates ((vector, handler, type_attr) ∷ rest) t =
    set_gates rest (idt_set_entry t vector handler 0x08 type_attr)

unfoldable pub register_handlers : Idt → Idt
register_handlers t =
    let t1 = idt_register_handler t 0 isr_divide_by_zero in
    let t2 = idt_register_handler t1 6 isr_invalid_opcode in
    let t3 = idt_register_handler t2 8 isr_double_fault in
    let t4 = idt_register_handler t3 13 isr_general_protection in
    let t5 = idt_register_handler t4 14 isr_page_fault in
    idt_register_handler t5 32 irq0_timer_handler

-- The loop at the end of `idt_init` at vector `i`, with `left` rounds to go.
unfoldable pub fill_loop : ℕ → ℕ → (ℕ → Option Handler) → ℕ → Option Handler
fill_loop zero i handlers = handlers
fill_loop (suc left) i handlers = fill_loop left (i + 1) (elim (handlers i) [
  | none ↦ update handlers i (some isr_unhandled_interrupt)
  | some h ↦ handlers
])

-- `isr` and `irq` give the addresses of the assembly stubs, `address` is that of the array `idt`. The
-- last call, of `idt_flush`, is assembly: it loads the processor's register and executes `sti`, so interrupts
-- are on when `idt_init` returns, which Boot takes into account.
unfoldable pub idt_init : (ℕ → ℕ) → (ℕ → ℕ) → ℕ → Idt → Idt
idt_init isr irq address t =
    let t1 = record (clear_tables t) {
      idt_ptr = record { limit = u16 (idt_entry_size * idt_entry_count - 1); base = address };
    } in
    let t2 = register_handlers (set_gates (gates isr irq) t1) in
    record t2 { isr_handlers = fill_loop idt_entry_count 0 t2.isr_handlers }
