-- ===== src/Pic/Bit.antt =====
-- One bit of the mask of pic/pic.c: setting and resetting it.
use native.Mathlib.Nat.{pow-le-pow_right}
use os_kernel.Base.{
  ℕ, ◌-◌, ◌^◌, ◌<◌, ◌≡◌, arith, ◌==◌, ltb, if◌then◌else◌, u8, u32, bit_or, bit_and, ap,
}
use os_kernel.Base.Bits.{bit, bit-lt, bit-bit_or, bit-bit_and}
use os_kernel.Base.Fields.{bit-mod, bit-two_pow, bit-complement}
use os_kernel.Pic.Chip.{Chip, master, slave, Registers}

-- the chip of a line, and the line of the chip
abbrev pub chip_of : ℕ → Chip
chip_of irq = if ltb irq 8 then master else slave

abbrev pub line_of : ℕ → ℕ
line_of irq = if ltb irq 8 then irq else irq - 8

-- the registers of chip `c'` when those of chip `c` become `new`
unfoldable pub put : Chip → Chip → Registers → Registers → Registers
put master master new old = new
put master slave new old = old
put slave master new old = old
put slave slave new old = new

pub bit-set :
    (n l k : ℕ) → k < 8 → bit (u8 (u8 (bit_or (u8 n) (2 ^ l)))) k ≡ (if k == l then 1 else bit n k)
bit-set n l k lt =
    let m = u8 n in
    ground (
      arith,
      bit-mod 8 (u8 (bit_or m (2 ^ l))) k,
      bit-mod 8 (bit_or m (2 ^ l)) k,
      bit-bit_or m (2 ^ l) k,
      bit-two_pow l k,
      bit-mod 8 n k,
      bit-lt n k,
    )

pub bit-reset :
    (n l k : ℕ)
    → l < 8
    → k < 8
    → bit (u8 (u8 (bit_and (u8 n) (2 ^ 32 - 1 - u32 (2 ^ l))))) k ≡ (if k == l then 0 else bit n k)
bit-reset n l k ll lt =
    let m = u8 n in
    let mask = 2 ^ 32 - 1 - u32 (2 ^ l) in
    let small : 2 ^ l < 2 ^ 32 =
      omega (arith, pow-le-pow_right {n = 2} (omega arith) {i = l} {j = 8} (omega arith)) in
    let same : u32 (2 ^ l) ≡ 2 ^ l = omega arith in
    ground (
      arith,
      bit-mod 8 (u8 (bit_and m mask)) k,
      bit-mod 8 (bit_and m mask) k,
      bit-bit_and m mask k,
      ap (λ x. bit (2 ^ 32 - 1 - x) k) same,
      bit-complement 32 (2 ^ l) k small,
      bit-two_pow l k,
      bit-mod 8 n k,
      bit-lt n k,
    )

pub line_of-lt : (irq : ℕ) → irq < 16 → line_of irq < 8
line_of-lt irq lt = ground arith
