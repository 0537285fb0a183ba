-- ===== src/Pic/Chip.antt =====
-- The 8259 interrupt controller as its data sheet describes it, for the ports that pic/pic.c uses.
use os_kernel.Base.{ℕ, zero, suc, ◌+◌, ◌-◌, ◌*◌, ◌/◌, ◌^◌, Bool, ◌≡◌, ◌==◌, if◌then◌else◌, u8}
use os_kernel.Base.Bits.{bit}
use os_kernel.Ports.{Ports}

-- the master, behind the ports 0x20 and 0x21, and the slave, behind 0xA0 and 0xA1
pub data Chip : Type 0 where
  master slave : Chip

-- what a chip expects next on its data port: a mask, or the initialisation word of a number,
-- with whether no cascade word follows and whether a mode word does
pub data Stage : Type 0 where
  ready icw4 : Stage
  icw2 : Bool → Bool → Stage
  icw3 : Bool → Stage

-- The registers: the stage, the first vector, the cascade word, the mode word, the interrupt mask and
-- the interrupts in service, the lowest bit with the highest priority.
pub record Registers : Type 0 where
  pub stage : Stage
  pub vector : ℕ
  pub cascade : ℕ
  pub mode : ℕ
  pub imr : ℕ
  pub in_service : ℕ

-- where a PC has the two chips
abbrev pub cmd_port : Chip → ℕ
cmd_port master = 0x20
cmd_port slave = 0xA0

abbrev pub data_port : Chip → ℕ
data_port master = 0x21
data_port slave = 0xA1

-- A number without its lowest bit that is 1, among the bits from `i` on, `n` of them.
unfoldable pub without_lowest : ℕ → ℕ → ℕ → ℕ
without_lowest zero i x = x
without_lowest (suc n) i x =
    let rest = without_lowest n (i + 1) x in if bit x i == 1 then x - 2 ^ i else rest

-- What the data sheet leaves open, or what is not needed of it: the interrupts in service after the first
-- initialisation word, and the commands other than that word and the end of an interrupt.
pub record Rest : Type 0 where
  pub after_reset : ℕ → ℕ
  pub other : ℕ → Registers → Registers

-- A write to the command port. With bit 4 it is the first initialisation word, which clears the mask; bit 1
-- says that no cascade word follows, and bit 0 that a mode word does, without which the mode is 0. With 001 in the bits from 5 on and 00 in
-- bits 3 and 4 it is the end of an interrupt without a number, which takes the one of highest
-- priority out of service.
unfoldable pub write_cmd : Rest → ℕ → Registers → Registers
write_cmd rest v r =
    if bit v 4 == 1
    then record r {
      stage = icw2 (bit v 1 == 1) (bit v 0 == 1);
      mode = (if bit v 0 == 1 then r.mode else 0);
      imr = 0;
      in_service = rest.after_reset r.in_service;
    }
    else if v / 2 ^ 3 == 4
    then record r { in_service = without_lowest 8 0 r.in_service }
    else rest.other v r

abbrev after_cascade : Bool → Stage
after_cascade more = if more then icw4 else ready

-- A write to the data port. In 8086 mode the lowest three bits of the vector are those of the line.
unfoldable pub write_data : ℕ → Registers → Registers
write_data v r = elim r.stage [
  | ready ↦ record r { imr = v }
  | icw2 single more ↦ record r {
    vector = v / 2 ^ 3 * 2 ^ 3;
    stage = (if single then after_cascade more else icw3 more);
  }
  | icw3 more ↦ record r { cascade = v; stage = after_cascade more }
  | icw4 ↦ record r { mode = v; stage = ready }
]

unfoldable pub write_port : Rest → Chip → ℕ → ℕ → Registers → Registers
write_port rest c port v r =
    if port == cmd_port c
    then write_cmd rest v r
    else if port == data_port c
    then write_data v r
    else r

-- The ports lead to two such chips: a chip sees the bytes that are written to its ports, and its data
-- port reads the mask once it is ready.
pub record Is8259 {D : Type 0} (io : Ports D) : Type 0 where
  pub chip : Chip → D → Registers
  pub rest : Rest
  pub write :
      (c : Chip) (port v : ℕ) (d : D)
      → chip c (io.outb port v d) ≡ write_port rest c port (u8 v) (chip c d)
  pub read :
      (c : Chip) (d : D) → (chip c d).stage ≡ ready → io.inb (data_port c) d ≡ u8 (chip c d).imr
