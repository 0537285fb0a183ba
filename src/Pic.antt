-- ===== src/Pic.antt =====
-- pic/pic.c: the two 8259 interrupt controllers, without the log messages; `pic_init` with them is in
-- Pic/Logged.
pub mod Chip
pub mod Remap
pub mod Bit
pub mod Masks
pub mod Logged
mod Examples
use os_kernel.Base.{ℕ, ◌-◌, ◌*◌, ◌^◌, bit_and, bit_or, u8, u32, ltb, leb, if◌then◌else◌}
use os_kernel.Ports.{Ports}

abbrev pub pic1_cmd : ℕ
pic1_cmd = 0x20

abbrev pub pic1_data : ℕ
pic1_data = 0x21

abbrev pub pic2_cmd : ℕ
pic2_cmd = 0xA0

abbrev pub pic2_data : ℕ
pic2_data = 0xA1

abbrev pub pic_eoi : ℕ
pic_eoi = 0x20

abbrev pub icw1_init : ℕ
icw1_init = 0x11

abbrev pub icw4_8086 : ℕ
icw4_8086 = 0x01

module _ {D : Type 0} (io : Ports D) where
  unfoldable pub io_wait : D → D
  io_wait d = io.outb 0x80 0x00 d

  unfoldable pub pic_init : D → D
  pic_init d =
      let mask1 = io.inb pic1_data d in
      let mask2 = io.inb pic2_data d in
      let d1 = io_wait (io.outb pic1_cmd icw1_init d) in
      let d2 = io_wait (io.outb pic2_cmd icw1_init d1) in
      let d3 = io_wait (io.outb pic1_data 0x20 d2) in
      let d4 = io_wait (io.outb pic2_data 0x28 d3) in
      let d5 = io_wait (io.outb pic1_data 0x04 d4) in
      let d6 = io_wait (io.outb pic2_data 0x02 d5) in
      let d7 = io_wait (io.outb pic1_data icw4_8086 d6) in
      let d8 = io_wait (io.outb pic2_data icw4_8086 d7) in
      let d9 = io.outb pic1_data mask1 d8 in io.outb pic2_data mask2 d9

  unfoldable pub pic_send_eoi : ℕ → D → D
  pic_send_eoi irq d =
      let d' = if leb 8 irq then io.outb pic2_cmd pic_eoi d else d in io.outb pic1_cmd pic_eoi d'

  -- the port and the line of the chip that `pic_mask_irq` and `pic_unmask_irq` choose
  unfoldable pub irq_port : ℕ → ℕ
  irq_port irq = if ltb irq 8 then pic1_data else pic2_data

  unfoldable pub irq_line : ℕ → ℕ
  irq_line irq = if ltb irq 8 then irq else u8 (irq - 8)

  unfoldable pub pic_mask_irq : ℕ → D → D
  pic_mask_irq irq d =
      let value = u8 (bit_or (io.inb (irq_port irq) d) (2 ^ irq_line irq)) in
      io.outb (irq_port irq) value d

  unfoldable pub pic_unmask_irq : ℕ → D → D
  pic_unmask_irq irq d =
      let value = u8 (bit_and (io.inb (irq_port irq) d) (2 ^ 32 - 1 - u32 (2 ^ irq_line irq))) in
      io.outb (irq_port irq) value d

  unfoldable pub pic_mask_all : D → D
  pic_mask_all d = let d' = io.outb pic1_data 0xFF d in io.outb pic2_data 0xFF d'

  unfoldable pub pic_unmask_all : D → D
  pic_unmask_all d = let d' = io.outb pic1_data 0x00 d in io.outb pic2_data 0x00 d'
