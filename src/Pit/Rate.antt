-- ===== src/Pit/Rate.antt =====
-- The rate that `pit_init` of pit/pit.c sets.
use os_kernel.Ports.{Ports}
use os_kernel.Pit.{Pit}
