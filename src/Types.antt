-- ===== src/Types.antt =====
-- types/types.h: the page size and the alignment macros, in unsigned 64-bit arithmetic.
pub mod Align
use os_kernel.Base.{ℕ, ◌+◌, ◌-◌, ◌*◌, ◌^◌, bit_and, u64}

abbrev pub page_size : ℕ
page_size = 4096

-- `~(a - 1)` in 64 bits
abbrev pub not_below : ℕ → ℕ
not_below a = 2 ^ 64 - 1 - (a - 1)

unfoldable pub align_down : ℕ → ℕ → ℕ
align_down x a = bit_and x (not_below a)

unfoldable pub align_up : ℕ → ℕ → ℕ
align_up x a = bit_and (u64 (x + a - 1)) (not_below a)
