-- ===== src/Boot.antt =====
-- kernel/kernel_main.c: the initialisation of the kernel up to `sti`, over the states of the components.
-- The addresses of the tables, of the assembly stubs and of the keyboard's handler are parameters. The last
-- call of `idt_init`, of `idt_flush`, executes `sti`, so interrupts are on from there: between the calls of
-- `kernel_main` behind it, any number of interrupts of the timer run `irq0_timer_handler`. Those of other
-- devices, and those that stop one of these calls in the middle, are left out.
pub mod Start
pub mod Sleep
pub mod Watch
pub mod Trial
pub mod Main
mod Examples
use os_kernel.Base.{ℕ, Option, some, ◌>>=◌, List, [], ◌∷◌, codes}
use os_kernel.Ports.{Ports}
use os_kernel.Vga.{Vga, vga_init}
use os_kernel.Printf.{word}
use os_kernel.Log.{log_info}
use os_kernel.Gdt.{Gdt, gdt_init}
use os_kernel.Kmalloc.{Heap, kmalloc_init}
use os_kernel.Pic.Logged.{pic_init_logged}
use os_kernel.Idt.{Idt, idt_init}
use os_kernel.Isr.{Kernel, count_ticks}
use os_kernel.Keyboard.{keyboard_init}
use os_kernel.Pit.Logged.{pit_init_logged}

-- The states of the components; the devices are those of the screen.
pub record Machine (D : Type 0) : Type 0 where
  pub vga : Vga D
  pub gdt : Gdt
  pub heap : Heap
  pub idt : Idt
  pub current_pit_hz : ℕ
  pub ticks : ℕ

-- what the linker decides
pub record Addresses : Type 0 where
  pub gdt_address : ℕ
  pub idt_address : ℕ
  pub isr : ℕ → ℕ
  pub irq : ℕ → ℕ
  pub keyboard : ℕ

-- `interrupts i` is the number of interrupts of the timer that are taken at the `i`-th place from `idt_init` on.
unfoldable pub start_kernel :
    {D : Type 0} → Ports D → Addresses → (ℕ → ℕ) → Machine D → Option (Machine D)
start_kernel io a interrupts m = do
  v1 ← vga_init io m.vga
  v2 ← log_info io m.ticks (codes "Kernel booting...") [] v1
  let heap = kmalloc_init 0x00200000 0x00100000 m.heap
  v3 ← log_info io m.ticks (codes "Heap initialized at 0x200000, size 1MB") [] v2
  v4 ← pic_init_logged io m.ticks v3
  let idt = idt_init a.isr a.irq a.idt_address m.idt
  let k1 = count_ticks io (interrupts 0) (record { vga = v4; ticks = m.ticks })
  v5 ← log_info io k1.ticks (codes "Interrupt Descriptor Table (IDT) initialized.") [] k1.vga
  let k2 = count_ticks io (interrupts 1) (record { vga = v5; ticks = k1.ticks })
  (idt', v6) ← keyboard_init io a.keyboard k2.ticks idt k2.vga
  let k3 = count_ticks io (interrupts 2) (record { vga = v6; ticks = k2.ticks })
  (v7, hz) ← pit_init_logged io k3.ticks 100 m.current_pit_hz k3.vga
  let k4 = count_ticks io (interrupts 3) (record { vga = v7; ticks = k3.ticks })
  v8 ← log_info io k4.ticks (codes "PIT configured to %d Hz.") (word hz ∷ []) k4.vga
  let k5 = count_ticks io (interrupts 4) (record { vga = v8; ticks = k4.ticks })
  some (record {
    vga = k5.vga;
    gdt = gdt_init a.gdt_address m.gdt;
    heap = heap;
    idt = idt';
    current_pit_hz = hz;
    ticks = k5.ticks;
  })
