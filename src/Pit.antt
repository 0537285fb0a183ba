-- ===== src/Pit.antt =====
-- pit/pit.c: the timer that raises interrupt line 0, without the log messages; with them, see Pit/Logged.
pub mod Timer
pub mod Rate
pub mod Logged
mod Examples
use os_kernel.Base.{ℕ, ◌/◌, ◌^◌, bit_and, u8, ◌==◌, ltb, if◌then◌else◌}
use os_kernel.Ports.{Ports}
use os_kernel.Pic.{pic_unmask_irq}

abbrev pub pit_base_freq : ℕ
pit_base_freq = 1193182

abbrev pub pit_min_freq : ℕ
pit_min_freq = 19

abbrev pub pit_max_freq : ℕ
pit_max_freq = 1193182

abbrev pub pit_data_ch0 : ℕ
pit_data_ch0 = 0x40

abbrev pub pit_cmd : ℕ
pit_cmd = 0x43

abbrev pub pit_cmd_binary_mode3 : ℕ
pit_cmd_binary_mode3 = 0x36

-- The devices and the static variable `current_pit_hz`.
pub record Pit (D : Type 0) : Type 0 where
  pub devices : D
  pub current_pit_hz : ℕ

module _ {D : Type 0} (io : Ports D) where
  -- The part of `pit_init` behind the computation of the divisor.
  unfoldable pub start_timer : ℕ → Pit D → Pit D
  start_timer divisor p =
      let d1 = io.outb pit_cmd pit_cmd_binary_mode3 p.devices in
      let d2 = io.outb pit_data_ch0 (u8 (bit_and divisor 0xFF)) d1 in
      let d3 = io.outb pit_data_ch0 (u8 (bit_and (divisor / 2 ^ 8) 0xFF)) d2 in
      record { devices = pic_unmask_irq io 0 d3; current_pit_hz = pit_base_freq / divisor }

  unfoldable pub pit_init : ℕ → Pit D → Pit D
  pit_init hz p =
      let capped = if ltb pit_max_freq hz then pit_max_freq else hz in
      let quotient = pit_base_freq / capped in
      let divisor = if quotient == 0 then 1 else quotient in
      if hz == 0 then p else start_timer divisor p

  unfoldable pub pit_get_frequency : Pit D → ℕ
  pit_get_frequency p = p.current_pit_hz
