-- ===== src/Boot/Start.antt =====
-- The state that kernel/kernel_main.c has set up before its `sti`.
use os_kernel.Base.{
  ℕ, zero, suc, ◌+◌, ◌%◌, ◌-◌, ◌^◌, ◌<◌, ◌≡◌, refl, arith, ap, ◌==◌, if◌then◌else◌, true, Option,
  some, ◌>>=◌, ◌∙◌, [], ◌∷◌, ◌++◌, codes, update, inl, inr, Bool-cases,
}
use os_kernel.Ports.{Ports}
use os_kernel.Vga.Text.{vga_init_lem}
use os_kernel.Printf.{word}
use os_kernel.Printf.Format.{Formats, number, percent_d, end}
use os_kernel.Log.Usable.{IsUsable, log-EndsUsable, log_text}
use os_kernel.Pic.Logged.{pic_init_logged-EndsUsable}
use os_kernel.Pit.Logged.{pit_init_logged_lem}
use os_kernel.Log.Message.{letters, Formats-letters}
use os_kernel.Gdt.{gdt_init}
use os_kernel.Kmalloc.{header_size, kmalloc_init}
use os_kernel.Kmalloc.Chain.{IsHeap}
use os_kernel.Kmalloc.Safety.{kmalloc_init-IsHeap}
use os_kernel.Idt.{Idt, driver, idt_init, idt_register_handler}
use os_kernel.Idt.Handlers.{handler_of, idt_init-handlers}
use os_kernel.Keyboard.{keyboard_init, init_message}
use os_kernel.Pit.{Pit, pit_init, start_timer}
use os_kernel.Isr.{Kernel, count_ticks, count_tick, kernel_eoi, time_set_ticks, time_get_ticks}
use os_kernel.Vga.{Vga}
use os_kernel.Boot.{Machine, Addresses, start_kernel}

-- a step of a command, and what it goes on with
bind-some :
    {A B : Type 0} {r : Option A} {x : A} (k : A → Option B) {y : Option B}
    → r ≡ some x
    → k x ≡ y
    → (r >>= k) ≡ y
bind-some k e later = rw e later

module _ {D : Type 0} (io : Ports D) where
  pit_init-frequency : (p : Pit D) → (pit_init io 100 p).current_pit_hz ≡ 100
  unfolding pit_init start_timer
  pit_init-frequency p = refl

  -- the message with the frequency of the timer
  frequency_message :
      (n : ℕ)
      → n < 2 ^ 32
      → Formats
          (codes "PIT configured to %d Hz.")
          (word n ∷ [])
          (letters (codes "PIT configured to ") ++ (number n ∷ (letters (codes " Hz.") ++ [])))
  frequency_message n lt =
      Formats-letters (codes "PIT configured to ") refl
        (percent_d n lt (Formats-letters (codes " Hz.") refl end))

  registered :
      (a : Addresses) (idt : Idt)
      → ((v : ℕ) → v < 256 → idt.isr_handlers v ≡ some (handler_of v))
      → (v : ℕ) → v < 256
      → (idt_register_handler idt 33 (driver a.keyboard)).isr_handlers v
        ≡ some (if v == 33 then driver a.keyboard else handler_of v)
  unfolding idt_register_handler update
  registered a idt all v lt = elim (Bool-cases (v == 33)) [
    | inl here ↦ rw here refl
    | inr other ↦ rw other (all v lt)
  ]

  count_ticks-IsUsable : (n : ℕ) (k : Kernel D) → IsUsable k.vga → IsUsable (count_ticks io n k).vga
  unfolding count_ticks count_tick kernel_eoi time_set_ticks
  count_ticks-IsUsable zero k u = u
  count_ticks-IsUsable (suc n) k u = count_ticks-IsUsable n (count_tick io k) u

  count_ticks-ticks :
      (n : ℕ) (k : Kernel D) → (count_ticks io n k).ticks % 2 ^ 64 ≡ (k.ticks + n) % 2 ^ 64
  unfolding count_ticks count_tick kernel_eoi time_set_ticks time_get_ticks
  count_ticks-ticks zero k = omega arith
  count_ticks-ticks (suc n) k = count_ticks-ticks n (count_tick io k) ∙ omega arith

  -- From any memory, with any number of timer interrupts between the calls behind `idt_init` and no other
  -- interrupt, the initialisation of the kernel ends: the screen is usable, the heap is one free
  -- block of 1 MB less its header from address 0x200000 on, the segments are those of `gdt_init`, each vector has a C
  -- handler, which is that of the keyboard at 33, the rate that `pit_init` has recorded is 100 Hz, and the tick
  -- counter has gone on by the number of those interrupts, modulo 2 ^ 64.
  pub start_kernel_lem :
      (a : Addresses) (interrupts : ℕ → ℕ) (m : Machine D)
      → (m' : Machine D) × (start_kernel io a interrupts m ≡ some m')
        × IsUsable m'.vga
        × IsHeap m'.heap 0x200000 0x300000 ((0x100000 - header_size, true) ∷ [])
        × (m'.gdt ≡ gdt_init a.gdt_address m.gdt)
        × ((v : ℕ)
            → v < 256
            → m'.idt.isr_handlers v ≡ some (if v == 33 then driver a.keyboard else handler_of v))
        × (m'.current_pit_hz ≡ 100)
        × (m'.ticks % 2 ^ 64
            ≡ (m.ticks + (interrupts 0 + interrupts 1 + interrupts 2 + interrupts 3 + interrupts 4))
              % 2 ^ 64)
  unfolding start_kernel keyboard_init
  start_kernel_lem a interrupts m =
      let (v1, e1, lock, row, col, color, cells) = vga_init_lem io m.vga in
      let u1 : IsUsable v1 = (
        ap (λ (x : ℕ). record { locked = x }) lock,
        record { row = omega (arith, row); col = omega (arith, col) },
      ) in
      let (v2, e2, u2) = log_text io m.ticks (codes "Kernel booting...") v1 refl u1 in
      let (v3, e3, u3) =
        log_text io m.ticks (codes "Heap initialized at 0x200000, size 1MB") v2 refl u2 in
      let (v4, e4, u4) = pic_init_logged-EndsUsable io m.ticks v3 u3 in
      let idt = idt_init a.isr a.irq a.idt_address m.idt in
      let k1 = after 0 v4 m.ticks in
      let (v5, e5, u5) =
        log_text io k1.ticks (codes "Interrupt Descriptor Table (IDT) initialized.") k1.vga refl
          (after-IsUsable 0 v4 m.ticks u4) in
      let k2 = after 1 v5 k1.ticks in
      let (v6, e6, u6) =
        log_text io k2.ticks init_message k2.vga refl (after-IsUsable 1 v5 k1.ticks u5) in
      let k3 = after 2 v6 k2.ticks in
      let (v7, hz, e7, u7, set) =
        pit_init_logged_lem io k3.ticks 100 m.current_pit_hz k3.vga (omega arith)
          (after-IsUsable 2 v6 k2.ticks u6) in
      let rate : hz ≡ 100 = set k3.vga.devices ∙ pit_init-frequency _ in
      let k4 = after 3 v7 k3.ticks in
      let (v8, e8, u8') =
        (log-EndsUsable io k4.ticks k4.vga (frequency_message hz (omega (arith, rate)))
          (after-IsUsable 3 v7 k3.ticks u7)).0 in
      let k5 = after 4 v8 k4.ticks in
      (
        record {
          vga = k5.vga;
          gdt = gdt_init a.gdt_address m.gdt;
          heap = kmalloc_init 0x00200000 0x00100000 m.heap;
          idt = idt_register_handler idt 33 (driver a.keyboard);
          current_pit_hz = hz;
          ticks = k5.ticks;
        },
        bind-some _ e1 (
            bind-some _ e2 (
              bind-some _ e3 (
                bind-some _ e4 (
                  bind-some _ e5
                    (bind-some _ (bind-some _ e6 refl) (bind-some _ e7 (bind-some _ e8 refl))))))),
        after-IsUsable 4 v8 k4.ticks u8',
        kmalloc_init-IsHeap 0x00200000 0x00100000 m.heap (omega arith) (omega arith) (omega arith),
        refl,
        registered a idt (idt_init-handlers a.isr a.irq a.idt_address m.idt),
        rate,
        since m.ticks k1.ticks k2.ticks k3.ticks k4.ticks k5.ticks (after-ticks 0 v4 m.ticks)
            (after-ticks 1 v5 k1.ticks) (after-ticks 2 v6 k2.ticks) (after-ticks 3 v7 k3.ticks)
            (after-ticks 4 v8 k4.ticks),
      )
    where
      after : ℕ → Vga D → ℕ → Kernel D
      after i v t = count_ticks io (interrupts i) (record { vga = v; ticks = t })

      after-IsUsable : (i : ℕ) (v : Vga D) (t : ℕ) → IsUsable v → IsUsable (after i v t).vga
      after-IsUsable i v t u = count_ticks-IsUsable (interrupts i) (record { vga = v; ticks = t }) u

      after-ticks :
          (i : ℕ) (v : Vga D) (t : ℕ) → (after i v t).ticks % 2 ^ 64 ≡ (t + interrupts i) % 2 ^ 64
      after-ticks i v t = count_ticks-ticks (interrupts i) (record { vga = v; ticks = t })

      since :
          (t0 t1 t2 t3 t4 t5 : ℕ)
          → t1 % 2 ^ 64 ≡ (t0 + interrupts 0) % 2 ^ 64
          → t2 % 2 ^ 64 ≡ (t1 + interrupts 1) % 2 ^ 64
          → t3 % 2 ^ 64 ≡ (t2 + interrupts 2) % 2 ^ 64
          → t4 % 2 ^ 64 ≡ (t3 + interrupts 3) % 2 ^ 64
          → t5 % 2 ^ 64 ≡ (t4 + interrupts 4) % 2 ^ 64
          → t5 % 2 ^ 64
            ≡ (t0 + (interrupts 0 + interrupts 1 + interrupts 2 + interrupts 3 + interrupts 4))
              % 2 ^ 64
      since t0 t1 t2 t3 t4 t5 e1 e2 e3 e4 e5 = omega arith
