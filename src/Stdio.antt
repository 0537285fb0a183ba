-- ===== src/Stdio.antt =====
-- The interface of `printf` of the C library's stdio.h, with which the memory managers print. What it does is a
-- parameter of the definitions that call it.
use Prim.Native.String.{String}
use os_kernel.Base.{ℕ, List}

-- an argument behind the format: an integer or a string
pub data Value : Type 0 where
  word : ℕ → Value
  text : String → Value

-- `printf` as a function on the output so far
abbrev pub Printer : Type 0 → Type 0
Printer O = String → List Value → O → O
