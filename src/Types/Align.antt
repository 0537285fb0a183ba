-- ===== src/Types/Align.antt =====
-- The alignment macros of types/types.h as arithmetic, at the page size.
use os_kernel.Base.{ℕ, ◌+◌, ◌-◌, ◌*◌, ◌/◌, ◌%◌, ◌^◌, ◌<◌, ◌≤◌, ◌≡◌, arith}
use os_kernel.Base.Fields.{bit_and_field}
use os_kernel.Types.{page_size, align_down, align_up}

pub align_down_page : (x : ℕ) → align_down x page_size ≡ x / 4096 % 2 ^ 52 * 4096
unfolding align_down
align_down_page x = bit_and_field 12 52 x

pub align_up_page : (x : ℕ) → align_up x page_size ≡ (x + 4095) % 2 ^ 64 / 4096 * 4096
unfolding align_up
align_up_page x = omega (arith, bit_and_field 12 52 ((x + 4096 - 1) % 2 ^ 64))

-- `ALIGN_DOWN` gives the greatest multiple of the page size that is not above its argument.
align_down_lem :
    (x : ℕ)
    → x < 2 ^ 64
    → (align_down x page_size % page_size ≡ 0)
      × (align_down x page_size ≤ x)
      × (x < align_down x page_size + page_size)
align_down_lem x h = omega (arith, align_down_page x)

-- `ALIGN_UP` gives the least multiple of the page size that is not below its argument, if that
-- multiple is below 2 ^ 64.
align_up_lem :
    (x : ℕ)
    → x + page_size ≤ 2 ^ 64
    → (align_up x page_size % page_size ≡ 0)
      × (x ≤ align_up x page_size)
      × (align_up x page_size < x + page_size)
align_up_lem x h = omega (arith, align_up_page x)
