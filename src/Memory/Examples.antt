-- ===== src/Memory/Examples.antt =====
-- The theorems on lib/memory.c at small memories.
use os_kernel.Base.{ℕ, ◌+◌, ◌^◌, ◌<◌, ◌≡◌, refl, arith, ltb, if◌then◌else◌, update}
use os_kernel.Memory.{Bytes, memmove, backward_loop}
use os_kernel.Memory.Copy.{moved, memmove_lem}
use os_kernel.Memory.Text.{IsText}

-- the bytes 1, 2, 3, ... up to 9 and zeros behind them
abbrev memory : Bytes
memory a = if ltb a 9 then a + 1 else 0

nine-IsText : IsText memory 0 9
nine-IsText = record { inside = λ i lt e. absurd (ground arith); end = refl }

memory-small : (j : ℕ) → memory j < 2 ^ 8
memory-small j = ground arith

-- the areas overlap, and the copy goes backwards
memmove_lem_example : memmove 2 0 4 memory 5 ≡ moved 2 0 4 memory 5
memmove_lem_example = memmove_lem 2 0 4 memory 5

-- the bytes 1, 2, 3, 4 moved up by two places
memmove-overlap : memmove 2 0 4 memory 5 ≡ 4
unfolding memmove backward_loop update
memmove-overlap = refl
