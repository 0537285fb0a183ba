-- ===== src/Memory.antt =====
-- lib/memory.c: the routines on bytes and strings. A memory is a function from addresses to bytes, and a
-- pointer is an address; addresses do not wrap round. The results of `memcpy`, `memmove`, `memset` and
-- `strcpy` are their first argument, so only the memory is given.
pub mod Copy
pub mod Text
mod Examples
use os_kernel.Base.{
  ℕ, zero, suc, ◌+◌, ◌-◌, ◌==◌, ltb, u8, update, if◌then◌else◌, not, ◌&&◌, sub32, Option, none,
  some,
}

abbrev pub Bytes : Type 0
Bytes = ℕ → ℕ

-- The loop of `memcpy` at round `i`, with `left` rounds to go.
unfoldable pub memcpy_loop : ℕ → ℕ → ℕ → ℕ → Bytes → Bytes
memcpy_loop zero i d s m = m
memcpy_loop (suc left) i d s m = memcpy_loop left (i + 1) d s (update m (d + i) (m (s + i)))

unfoldable pub memcpy : ℕ → ℕ → ℕ → Bytes → Bytes
memcpy d s n m = memcpy_loop n 0 d s m

-- The two loops of `memmove`, with `n` rounds to go.
unfoldable pub forward_loop : ℕ → ℕ → ℕ → Bytes → Bytes
forward_loop zero d s m = m
forward_loop (suc n) d s m = forward_loop n (d + 1) (s + 1) (update m d (m s))

unfoldable pub backward_loop : ℕ → ℕ → ℕ → Bytes → Bytes
backward_loop zero d s m = m
backward_loop (suc n) d s m = backward_loop n (d - 1) (s - 1) (update m (d - 1) (m (s - 1)))

unfoldable pub memmove : ℕ → ℕ → ℕ → Bytes → Bytes
memmove d s n m = if ltb d s then forward_loop n d s m else backward_loop n (d + n) (s + n) m

-- The loop of `memset` at round `i`, with `left` rounds to go.
unfoldable pub memset_loop : ℕ → ℕ → ℕ → ℕ → Bytes → Bytes
memset_loop zero i d value m = m
memset_loop (suc left) i d value m = memset_loop left (i + 1) d value (update m (d + i) (u8 value))

unfoldable pub memset : ℕ → ℕ → ℕ → Bytes → Bytes
memset d value n m = memset_loop n 0 d value m

-- The loop of `strlen` from index `len` on. It ends at the first byte 0 and has no other bound: `fuel`
-- is the number of bytes it may read, and `none` that they were not enough. So for `strcmp` and `strcpy`.
unfoldable pub strlen_loop : ℕ → ℕ → ℕ → Bytes → Option ℕ
strlen_loop zero len str m = none
strlen_loop (suc fuel) len str m =
    let rest = strlen_loop fuel (len + 1) str m in if m (str + len) == 0 then some len else rest

unfoldable pub strlen : ℕ → ℕ → Bytes → Option ℕ
strlen fuel str m = strlen_loop fuel 0 str m

-- The difference of two bytes is an `int`, here its 32 bits.
unfoldable pub strcmp : ℕ → ℕ → ℕ → Bytes → Option ℕ
strcmp zero a b m = none
strcmp (suc fuel) a b m =
    let rest = strcmp fuel (a + 1) (b + 1) m in
    if not (m a == 0) && (m a == m b) then rest else some (sub32 (m a) (m b))

unfoldable pub strcpy : ℕ → ℕ → ℕ → Bytes → Option Bytes
strcpy zero d s m = none
strcpy (suc fuel) d s m =
    let m' = update m d (m s) in
    let rest = strcpy fuel (d + 1) (s + 1) m' in if m s == 0 then some m' else rest

-- The loop of `memcmp` at round `i`, with `left` rounds to go.
unfoldable pub memcmp_loop : ℕ → ℕ → ℕ → ℕ → Bytes → ℕ
memcmp_loop zero i a b m = 0
memcmp_loop (suc left) i a b m =
    let rest = memcmp_loop left (i + 1) a b m in
    if not (m (a + i) == m (b + i)) then sub32 (m (a + i)) (m (b + i)) else rest

unfoldable pub memcmp : ℕ → ℕ → ℕ → Bytes → ℕ
memcmp a b n m = memcmp_loop n 0 a b m
