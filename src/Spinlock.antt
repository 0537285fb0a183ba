-- ===== src/Spinlock.antt =====
-- include/spinlock.h: the lock of the drivers. The kernel runs on one processor, so nothing can release a
-- lock that `spinlock_acquire` waits for: `none` is the loop that does not end.
use os_kernel.Base.{ℕ, ◌==◌, if◌then◌else◌, Option, none, some}

-- `spinlock_t`
pub record Spinlock : Type 0 where
  pub locked : ℕ

unfoldable pub spinlock_init : Spinlock → Spinlock
spinlock_init l = record l { locked = 0 }

-- The exchange writes 1 and returns the value before.
unfoldable pub spinlock_acquire : Spinlock → Option Spinlock
spinlock_acquire l = if l.locked == 0 then some (record l { locked = 1 }) else none

unfoldable pub spinlock_release : Spinlock → Spinlock
spinlock_release l = record l { locked = 0 }
