-- ===== src/Pit/Timer.antt =====
-- Channel 0 of the 8253 timer as its data sheet describes it, for the ports that pit/pit.c uses.
use os_kernel.Base.{ℕ, ◌+◌, ◌*◌, ◌^◌, ◌≡◌, ◌==◌, if◌then◌else◌, u8}
use os_kernel.Ports.{Ports}
use os_kernel.Pit.{pit_data_ch0, pit_cmd, pit_cmd_binary_mode3}

-- What the data port expects: the low byte of a new count, or the high byte after a low one.
pub data Latch : Type 0 where
  low_byte : Latch
  high_byte : ℕ → Latch

-- The count that the channel divides its clock by, where 0 stands for 2 ^ 16.
pub record Channel : Type 0 where
  pub latch : Latch
  pub count : ℕ

unfoldable pub write_channel : ℕ → ℕ → Channel → Channel
write_channel port v c =
    if port == pit_cmd
    then (if v == pit_cmd_binary_mode3 then record c { latch = low_byte } else c)
    else if port == pit_data_ch0
    then elim c.latch [
      | low_byte ↦ record c { latch = high_byte v }
      | high_byte l ↦ record { latch = low_byte; count = l + 2 ^ 8 * v }
    ]
    else c

-- The ports lead to such a channel, which sees the bytes that are written to its ports.
pub record Is8253 {D : Type 0} (io : Ports D) : Type 0 where
  pub channel : D → Channel
  pub write :
      (port v : ℕ) (d : D) → channel (io.outb port v d) ≡ write_channel port (u8 v) (channel d)
