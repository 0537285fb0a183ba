-- ===== src/Vga/Write.antt =====
-- The operations of drivers/vga/vga.c as their callers see them: the lock, the cursor of the hardware, and
-- the text that a string leaves on the screen.
use os_kernel.Base.{
  ℕ, ◌+◌, ◌*◌, ◌/◌, ◌^◌, ◌≡◌, refl, arith, ◌∙◌, ap, sym, ◌==◌, if◌then◌else◌, List, [], ◌∷◌, Option,
  some, ◌>>=◌, u8, u16,
}
use os_kernel.Ports.{Ports}
use os_kernel.Spinlock.{Spinlock, spinlock_acquire, spinlock_release}
use os_kernel.Vga.{
  Screen, Vga, update_cursor, put_char, write_loop, acquire, release, vga_put_char, vga_write,
}
use os_kernel.Vga.Inside.{OnScreen, Keeps, write_loop-Keeps, write_loop-put_char}

-- The registers of a CRT controller behind the ports 0x3D4, which selects one, and 0x3D5, which writes it.
pub record IsCrtc {D : Type 0} (io : Ports D) (index : D → ℕ) (register : D → ℕ → ℕ) : Type 0 where
  pub select-index : (v : ℕ) (d : D) → index (io.outb 0x3D4 v d) ≡ v
  pub select-register : (v r : ℕ) (d : D) → register (io.outb 0x3D4 v d) r ≡ register d r
  pub write-register :
      (v r : ℕ) (d : D)
      → register (io.outb 0x3D5 v d) r ≡ (if r == index d then v else register d r)

-- the place of the cursor that the registers 14 and 15 hold
abbrev pub shown_cursor : (ℕ → ℕ) → ℕ
shown_cursor registers = registers 14 * 2 ^ 8 + registers 15

-- the screen after each operation when the lock is free
module _ {D : Type 0} where
  abbrev pub shows : Ports D → Screen → Vga D → Vga D
  shows io s v = record {
    screen = s;
    vga_lock = record { locked = 0 };
    devices = update_cursor io s v.devices;
  }

  pub acquire_free :
      (v : Vga D)
      → v.vga_lock.locked ≡ 0
      → acquire v ≡ some (record v { vga_lock = record { locked = 1 } })
  unfolding acquire spinlock_acquire
  acquire_free v free = rw free refl

  pub vga_write_free :
      (io : Ports D) (str : List ℕ) (v : Vga D)
      → v.vga_lock.locked ≡ 0
      → vga_write io str v ≡ some (shows io (write_loop str v.screen) v)
  unfolding vga_write release spinlock_release
  vga_write_free io str v free = rw (acquire_free v free) refl

  pub vga_put_char_free :
      (io : Ports D) (c : ℕ) (v : Vga D)
      → v.vga_lock.locked ≡ 0
      → vga_put_char io c v ≡ some (shows io (put_char c v.screen) v)
  unfolding vga_put_char release spinlock_release
  vga_put_char_free io c v free = rw (acquire_free v free) refl

module _ {D : Type 0} (io : Ports D) (index : D → ℕ) (register : D → ℕ → ℕ)
    (crtc : IsCrtc io index register) where
  update_cursor_lem :
      (s : Screen) (d : D)
      → OnScreen s
      → shown_cursor (register (update_cursor io s d)) ≡ s.cursor_row * 80 + s.cursor_col
  unfolding update_cursor
  update_cursor_lem s d w =
      let pos = s.cursor_row * 80 + s.cursor_col in
      let d1 = io.outb 0x3D4 14 d in
      let d2 = io.outb 0x3D5 (u8 (u16 pos / 2 ^ 8)) d1 in
      let d3 = io.outb 0x3D4 15 d2 in
      let d4 = io.outb 0x3D5 (u8 (u16 pos)) d3 in
      let high : register d4 14 ≡ u8 (u16 pos / 2 ^ 8) =
        crtc.write-register (u8 (u16 pos)) 14 d3
        ∙ rw
            (
              crtc.select-index 15 d2,
              crtc.select-register 15 14 d2,
              crtc.write-register (u8 (u16 pos / 2 ^ 8)) 14 d1,
              crtc.select-index 14 d,
            )
            refl in
      let low : register d4 15 ≡ u8 (u16 pos) =
        crtc.write-register (u8 (u16 pos)) 15 d3 ∙ rw (crtc.select-index 15 d2) refl in
      rw (high, low) (omega (arith, w.row, w.col))

  -- When the lock is free and the cursor on the screen, `vga_write` ends with the lock free again and the
  -- cursor on the screen, has not changed the colour or memory behind the 2000 cells, and the cursor that
  -- the hardware shows is the cursor of the screen.
  pub vga_write-Keeps :
      (str : List ℕ) (v : Vga D)
      → v.vga_lock.locked ≡ 0
      → OnScreen v.screen
      → (v' : Vga D) × (vga_write io str v ≡ some v')
        × Keeps v.screen v'.screen
        × (v'.vga_lock.locked ≡ 0)
        × (shown_cursor (register v'.devices) ≡ v'.screen.cursor_row * 80 + v'.screen.cursor_col)
  vga_write-Keeps str v free w =
      let kept = write_loop-Keeps str v.screen w in
      (
        shows io (write_loop str v.screen) v,
        vga_write_free io str v free,
        kept,
        refl,
        update_cursor_lem (write_loop str v.screen) v.devices kept.on_screen,
      )

-- `vga_put_char` for each character of a string
abbrev pub put_all : {D : Type 0} → Ports D → List ℕ → Vga D → Option (Vga D)
put_all io [] v = some v
put_all io (c ∷ str) v = vga_put_char io c v >>= put_all io str

module _ {D : Type 0} (io : Ports D) where
  pub put_all_lem :
      (str : List ℕ) (v : Vga D)
      → v.vga_lock ≡ record { locked = 0 }
      → (v' : Vga D) × (put_all io str v ≡ some v')
        × (v'.screen ≡ write_loop str v.screen)
        × (v'.vga_lock ≡ record { locked = 0 })
  unfolding write_loop
  put_all_lem [] v free = (v, refl, refl, free)
  put_all_lem (c ∷ str) v free =
      let (v', r, same, free') = put_all_lem str (shows io (put_char c v.screen) v) refl in
      (
        v',
        rw (vga_put_char_free io c v (ap (λ (l : Spinlock). l.locked) free)) r,
        same ∙ sym (write_loop-put_char c str v.screen),
        free',
      )

  -- When the lock is free, `vga_write` leaves the screen and the lock as `vga_put_char` does when it is
  -- called for each character of the string.
  pub vga_write-vga_put_char :
      (str : List ℕ) (v : Vga D)
      → v.vga_lock ≡ record { locked = 0 }
      → (v' : Vga D) × (v'' : Vga D) × (vga_write io str v ≡ some v')
        × (put_all io str v ≡ some v'')
        × (v'.screen ≡ v''.screen)
        × (v'.vga_lock ≡ v''.vga_lock)
  vga_write-vga_put_char str v free =
      let (v'', r, same, free') = put_all_lem str v free in
      (
        shows io (write_loop str v.screen) v,
        v'',
        vga_write_free io str v (ap (λ (l : Spinlock). l.locked) free),
        r,
        sym same,
        sym free',
      )
