-- ===== src/Pic/Logged.antt =====
-- `pic_init` of pic/pic.c with the messages that it prints; `log_debug` is an empty stub of kernel/stubs.c.
use os_kernel.Base.{ℕ, Option, ◌>>=◌, [], codes, refl}
use os_kernel.Ports.{Ports}
use os_kernel.Vga.{Vga}
use os_kernel.Log.{log_info}
use os_kernel.Log.Usable.{IsUsable, EndsUsable, log_text}
use os_kernel.Pic.{pic_init}

module _ {D : Type 0} (io : Ports D) where
  unfoldable pub pic_init_logged : ℕ → Vga D → Option (Vga D)
  pic_init_logged t v = do
    v1 ← log_info io t (codes "Initializing 8259 PICs...") [] v
    log_info io t (codes "8259 PICs initialized and remapped.") []
        (record v1 { devices = pic_init io v1.devices })

  pub pic_init_logged-EndsUsable :
      (t : ℕ) (v : Vga D) → IsUsable v → EndsUsable (pic_init_logged t v)
  unfolding pic_init_logged
  pic_init_logged-EndsUsable t v u =
      let (v1, e1, u1) = log_text io t (codes "Initializing 8259 PICs...") v refl u in
      let (v2, e2, u2) =
        log_text io t (codes "8259 PICs initialized and remapped.")
          (record v1 { devices = pic_init io v1.devices }) refl u1 in
      (v2, rw (e1, ◌>>=◌) e2, u2)
