-- ===== src/Pit/Examples.antt =====
-- The theorems on the timer with a channel that follows its data sheet.
use os_kernel.Base.{refl, u8}
use os_kernel.Ports.{Ports}
use os_kernel.Pit.{Pit}
use os_kernel.Pit.Timer.{Channel, low_byte, write_channel, Is8253}

abbrev timer : Ports Channel
timer = record { inb = λ port c. 0; outb = λ port v c. write_channel port (u8 v) c }

abbrev timer-Is8253 : Is8253 timer
timer-Is8253 = record { channel = λ c. c; write = λ port v c. refl }

abbrev idle : Pit Channel
idle = record { devices = record { latch = low_byte; count = 0 }; current_pit_hz = 0 }
