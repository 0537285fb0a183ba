-- ===== src/Ports.antt =====
-- arch/x86/io.h, and the `outb` and `inb` of pic/pic.c and pit/pit.c: input and output ports. What the
-- devices behind the ports do is not part of the repository: `D` is their state.
use os_kernel.Base.{ℕ}

pub record Ports (D : Type 0) : Type 0 where
  pub inb : ℕ → D → ℕ
  pub outb : ℕ → ℕ → D → D
