-- ===== src/Boot/Examples.antt =====
-- The theorems on kernel/kernel_main.c from a memory of zeros, and at 100 Hz.
use os_kernel.Base.{
  ℕ, ◌+◌, ◌-◌, ◌*◌, ◌/◌, ◌%◌, ◌^◌, ◌<◌, ◌≤◌, ◌≡◌, arith, ◌==◌, if◌then◌else◌, none, some, [], ◌∷◌,
  true, false,
}
use os_kernel.Ports.{Ports}
use os_kernel.Gdt.{gdt_init}
use os_kernel.Kmalloc.{header_size}
use os_kernel.Kmalloc.Chain.{IsHeap}
use os_kernel.Idt.{driver}
use os_kernel.Idt.Handlers.{handler_of}
use os_kernel.Boot.{Machine, Addresses, start_kernel}
use os_kernel.Log.Usable.{IsUsable}
use os_kernel.Boot.Start.{start_kernel_lem}
use os_kernel.Boot.Watch.{Running, Advances}
use os_kernel.Boot.Trial.{Trial}
use os_kernel.Boot.Trial.Messages.{passes}
use os_kernel.Boot.Main.{kernel_main, kernel_main_lem}
use os_kernel.Boot.Sleep.{sleep_ms, IsFirst, sleep_ms_lem}

abbrev silent : Ports (Unit {0})
silent = record { inb = λ port d. 0; outb = λ port v d. d }

abbrev addresses : Addresses
addresses = record {
  gdt_address = 0x105000;
  idt_address = 0x106000;
  isr = λ v. 0x101000 + v * 16;
  irq = λ i. 0x102000 + i * 16;
  keyboard = 0x103000;
}

abbrev machine : Machine (Unit {0})
machine = record {
  vga = record {
    screen = record { cells = λ i. 0; cursor_row = 0; cursor_col = 0; current_color_byte = 0x0F };
    vga_lock = record { locked = 0 };
    devices = tt;
  };
  gdt = record {
    gdt = λ i. record {
      limit_low = 0;
      base_low = 0;
      base_mid = 0;
      access = 0;
      granularity = 0;
      base_high = 0;
    };
    gdt_ptr = record { limit = 0; base = 0 };
  };
  heap = record { headers = λ a. record { size = 0; is_free = 0; next = none }; heap_start = none };
  idt = record {
    idt =
        λ i. record { offset_low = 0; selector = 0; reserved = 0; type_attr = 0; offset_high = 0 };
    idt_ptr = record { limit = 0; base = 0 };
    isr_handlers = λ v. none;
  };
  current_pit_hz = 0;
  ticks = 0;
}

start_kernel_lem_example :
    (m' : Machine (Unit {0})) × (start_kernel silent addresses (λ i. i) machine ≡ some m')
    × IsUsable m'.vga
    × IsHeap m'.heap 0x200000 0x300000 ((0x100000 - header_size, true) ∷ [])
    × (m'.gdt ≡ gdt_init 0x105000 machine.gdt)
    × ((v : ℕ)
        → v < 256
        → m'.idt.isr_handlers v ≡ some (if v == 33 then driver 0x103000 else handler_of v))
    × (m'.current_pit_hz ≡ 100)
    × (m'.ticks % 2 ^ 64 ≡ 10)
start_kernel_lem_example = start_kernel_lem silent addresses (λ i. i) machine

-- 50 ms at 100 Hz from tick 7 on, where every second interrupt is one of the timer
sleep_ms_lem_example :
    (k : ℕ) × (sleep_ms 11 (λ n. 7 + n / 2) 7 100 50 ≡ some k)
    × (k ≤ 10)
    × IsFirst (λ n. 7 + n / 2) 0 (7 + 50 * 100 / 1000) k
sleep_ms_lem_example =
    sleep_ms_lem 11 (λ n. 7 + n / 2) 7 100 50 10 (omega arith) (omega arith) (omega arith)
      (omega arith) (omega arith) (omega arith)

-- a counter that goes on by one at every second reading
two_readings : Advances (λ n. n / 2) 200 100 (5 * (200 + 4) + 2)
two_readings = record {
  rises = λ i j le. omega arith;
  fits = λ i lt. omega arith;
  goes_on = λ i lt. omega arith;
}

kernel_main_lem_example :
    (m' : Machine (Unit {0})) × (t : Trial (Unit {0})) × (r : Running (Unit {0})) × (kernel_main
        silent
        (λ n. n / 2)
        201
        4
        addresses
        (λ i. i)
        machine
        (λ p. 0)
      ≡ some (m', t))
    × (m'.current_pit_hz ≡ 100)
    × (0 + 500 ≤ r.readings / 2)
    × (passes silent (λ n. n / 2) 0x20000C 0x200028 r ≡ some t.running)
    × IsUsable t.running.vga
    × (t.a ≡ some 0x20000C)
    × (t.b ≡ some 0x200028)
    × (t.c ≡ t.a)
    × IsHeap t.heap 0x200000 0x300000
        ((16, false) ∷ (16, false) ∷ (0x100000 - 12 - 16 - 12 - 16 - 12, true) ∷ [])
kernel_main_lem_example =
    kernel_main_lem silent (λ n. n / 2) 201 200 addresses (λ i. i) machine (λ p. 0) (omega arith)
      two_readings
