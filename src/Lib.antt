-- ===== src/Lib.antt =====
-- The verification library of the os-kernel repository: its memory managers, its interrupt
-- tables, its scheduler, its output and the drivers of its devices, as functions over explicit states, and
-- theorems about them.
--
-- Numbers are the native ℕ. A `u8`, `u32` or `u64` result of the C code keeps its wrap-around
-- (`u8`, `u32`, `u64`, `sub32` and `sub64` of Base/Tests.antt), shifts are products and quotients with powers
-- of 2, and an array is a function from its indices.
--
-- - Base: the shared tests, words and lists (Base/Tests), and the bitwise operations as arithmetic
--   (Base/Bits, Base/Fields).
-- - Types: `PAGE_SIZE`, `ALIGN_UP` and `ALIGN_DOWN` of types/types.h.
-- - MemoryMap: memory_map/memory_map.c, the table of regions that the page allocator starts from.
--   `mmap_print` is in MemoryMap/Print.antt.
-- - Pmm: pmm/pmm.c, the page allocator. A command is a function from a `State` (the allocator and the
--   bytes of `phys_mem`) to a result and the next state; `none` is what C leaves undefined. The two
--   scans over the bitmap recurse on the number of rounds left, which is `PMM_MAX_PAGES` at the start, the
--   bound of the C loops. Which pages `pmm_init` finds in the map is `usable` of Pmm/Usable.antt. `pmm_print_stats` is in
--   Pmm/Print.antt; `virt_to_phys` is left out.
-- - Vmm: vmm/vmm.c, the four-level page tables. The tables are 64-bit little-endian words of the
--   `phys_mem` of Pmm, so a table and a page of data can be told apart only by the invariant
--   (`IsTree` of Vmm/Tree.antt): each page of a table has a level and a prefix of the virtual
--   addresses below it. A manager is well-formed (`IsManager` of Vmm/Translate.antt) when its tables are and
--   its counter `mapped` is the number of pages they map (Vmm/Count). `vmm_print_mapping`,
--   `vmm_print_stats` and `vmm_dump_pml4` are in Vmm/Print.antt.
-- - Stdio: the interface of the C library's `printf`, with which those three parts print. What it does is a
--   parameter of the functions that print tables; the messages of the other functions of those parts are
--   left out.
--
-- - Ports: the ports of the processor. The devices behind them are not part of the repository: their
--   state is a type parameter, and the laws of their data sheets are hypotheses (`Is8259` of
--   Pic/Chip.antt, `Is8253` of Pit/Timer.antt).
-- - Gdt: gdt_and_idt/gdt.c, the segment descriptors. `gdt_flush` is assembly.
-- - Pic: pic/pic.c, the two interrupt controllers; `pic_init` with the messages that it prints is `pic_init_logged`
--   of Pic/Logged.antt, and so for `pit_init` in Pit.
-- - Pit: pit/pit.c, the timer.
-- - Idt: gdt_and_idt/idt.c, the gates and the table of C handlers. The addresses of the assembly stubs
--   are parameters, `idt_flush` is assembly (it executes `sti`, see Boot).
-- - Isr: cpu/isr.c and time/time.c, and `isr_common_handler` of gdt_and_idt/idt.c. A frame is the words
--   on the stack from the pointer on that the assembly stub passes; handlers that drivers register
--   are parameters; `kernel_panic` ends the run. That the warning of the general handler leaves the
--   controllers alone is in Log/Quiet.antt.
-- - Memory: lib/memory.c, the routines on bytes and strings. The loops that end at a byte 0 take the
--   number of bytes they may read as fuel; the length of the string and 1 are enough.
-- - Kmalloc: kmalloc.c, the heap. The block headers are kept by their addresses (`Heap`); what they stand for
--   is a list of blocks (Kmalloc/Blocks), which `IsHeap` of Kmalloc/Chain.antt ties to the headers. The loops
--   take the number of blocks they may visit as fuel; the number of blocks and 1 is enough.
-- - Process: pcb.h, pcb.c and scheduler.c, the process control blocks at their addresses and the ready queue. The
--   loop that looks for the end of the queue takes the number of blocks it may visit as fuel; the number
--   of blocks in the queue is enough. `context_switch` is assembly.
--
-- - Spinlock: include/spinlock.h. On one processor a lock that is taken is waited for without end: `none`.
-- - Vga: drivers/vga/vga.c, the text screen. The static variables are a `Screen`, and the CRT controller
--   behind the ports is a parameter with the laws of its data sheet (`IsCrtc` of Vga/Write.antt).
--   `vga_printf` only calls `tfp_format`, a stub of kernel/stubs.c, and is left out.
-- - Printf: lib/printf.c, the formatted output on that screen. What a format means is the relation
--   `Formats` of Printf/Format.antt; the loop over the format takes the length of the format and 1 as fuel.
-- - Log: log/log.c, the messages with their time and level. The time is an argument.
-- - Keyboard: drivers/keyboard/keyboard.c, the handler of line 1 over the screen and the ports.
-- - Panic: kernel/panic.c and the empty functions of kernel/stubs.c that it calls.
-- - Boot: kernel/kernel_main.c over the states of all components. `start_kernel` (Boot) is the part before
--   its `sti`, over a `Machine`; interrupts are on before that, since `idt_flush`, the last call of `idt_init`,
--   executes `sti`, so any number of timer interrupts comes between the calls behind `idt_init`; `kernel_main` (Boot/Main) goes on to the call of the self tests, with the loop
--   that watches the ticks (Boot/Watch) and the trial of the heap (Boot/Trial). `sleep_ms` (Boot/Sleep) takes
--   the number of readings of the counter as fuel. The counter is a function from the number of the
--   reading. Interrupts of other devices than the timer are left out, and so are those that stop a call of
--   `start_kernel` in the middle, and what the timer's handler writes to the controllers behind `sti`.
--
-- The calls go downwards: `vmm_map` takes pages from `pmm_alloc`, `pmm_init` reads the table that
-- `mmap_parse` has filled; `isr_common_handler` calls the handlers of the table that `idt_init` has filled, and
-- those call `pic_send_eoi`; `pit_init` calls `pic_unmask_irq`;
-- `vprintf` calls `vga_put_char` and `vga_write`, which take the lock of the screen;
-- `keyboard_handler` calls `log_info` and `vga_put_char`; `create_process` (Process/Create) calls `kmalloc`.
--
-- Not modelled are the boot code in assembly, the self tests of the kernel and the loop behind them, and
-- the messages named above.
pub mod Base
pub mod Types
pub mod MemoryMap
pub mod Pmm
pub mod Vmm
pub mod Ports
pub mod Gdt
pub mod Pic
pub mod Pit
pub mod Idt
pub mod Isr
pub mod Memory
pub mod Kmalloc
pub mod Process
pub mod Stdio
pub mod Spinlock
pub mod Vga
pub mod Printf
pub mod Log
pub mod Keyboard
pub mod Panic
pub mod Boot
