-- ===== src/Idt/Examples.antt =====
-- The theorems on the interrupt table at concrete tables.
use os_kernel.Base.{ℕ, ◌-◌, ◌<◌, ◌≤◌, ◌≡◌, ◌⊎◌, arith, none}
use os_kernel.Idt.{Idt, idt_init}
use os_kernel.Idt.Gates.{IsGate, idt_init-gates}
use os_kernel.Idt.Packed.{descriptor}

-- the table before `idt_init`
abbrev blank : Idt
blank = record {
  idt = λ v. record { offset_low = 0; selector = 0; reserved = 0; type_attr = 0; offset_high = 0 };
  idt_ptr = record { limit = 0; base = 0 };
  isr_handlers = λ v. none;
}

-- the addresses of the stubs
abbrev isr : ℕ → ℕ
isr k = 0x100000

abbrev irq : ℕ → ℕ
irq k = 0x108000

idt_init-gates_example :
    (3 < 22 → IsGate (isr 3) 0x8F ((idt_init isr irq 0x200000 blank).idt 3))
    × (32 ≤ 3 → 3 < 48 → IsGate (irq (3 - 32)) 0x8E ((idt_init isr irq 0x200000 blank).idt 3))
    × (22 ≤ 3 → (3 < 32) ⊎ (48 ≤ 3) → descriptor ((idt_init isr irq 0x200000 blank).idt 3) ≡ 0)
idt_init-gates_example =
    idt_init-gates isr irq 0x200000 blank (λ k. omega arith) (λ k. omega arith) 3
