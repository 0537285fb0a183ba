-- ===== src/Log.antt =====
-- log/log.c: messages with the time and a level, printed with `vprintf`. `t` is what `time_get_ticks`
-- returns when the message begins.
pub mod Message
pub mod Usable
pub mod Quiet
mod Examples
use os_kernel.Base.{ℕ, ◌+◌, u32, Option, none, some, ◌>>=◌, List, [], ◌∷◌, ◌++◌, length}
use os_kernel.Ports.{Ports}
use os_kernel.Vga.{Vga}
use os_kernel.Printf.{Arg, word, vprintf, printf}

-- the ANSI sequence of a colour with two digits, the level, and a space
abbrev pub info_tag : List ℕ
info_tag = 27 ∷ b'[' ∷ b'3' ∷ b'2' ∷ b'm' ∷ b'[' ∷ b'I' ∷ b'N' ∷ b'F' ∷ b'O' ∷ b']' ∷ b' ' ∷ []

abbrev pub warn_tag : List ℕ
warn_tag = 27 ∷ b'[' ∷ b'3' ∷ b'3' ∷ b'm' ∷ b'[' ∷ b'W' ∷ b'A' ∷ b'R' ∷ b'N' ∷ b']' ∷ b' ' ∷ []

abbrev pub error_tag : List ℕ
error_tag =
    27 ∷ b'[' ∷ b'3' ∷ b'1' ∷ b'm' ∷ b'[' ∷ b'E' ∷ b'R' ∷ b'R' ∷ b'O' ∷ b'R' ∷ b']' ∷ b' ' ∷ []

-- the sequence that goes back to white, and a new line
abbrev pub line_end : List ℕ
line_end = 27 ∷ b'[' ∷ b'0' ∷ b'm' ∷ 10 ∷ []

module _ {D : Type 0} (io : Ports D) where
  unfoldable pub print_timestamp : ℕ → Vga D → Option (Vga D)
  print_timestamp t v = do
    v1 ← printf io (b'[' ∷ []) [] v
    v2 ← printf io (b'%' ∷ b'd' ∷ []) (word (u32 t) ∷ []) v1
    printf io (b']' ∷ b' ' ∷ []) [] v2

  -- what the three functions do, which differ in their tag
  unfoldable pub log_message : List ℕ → ℕ → List ℕ → List Arg → Vga D → Option (Vga D)
  log_message tag t fmt args v = do
    v1 ← print_timestamp t v
    v2 ← printf io tag [] v1
    v3 ← vprintf io (length fmt + 1) fmt args v2
    printf io line_end [] v3

  unfoldable pub log_info : ℕ → List ℕ → List Arg → Vga D → Option (Vga D)
  log_info t fmt args v = log_message info_tag t fmt args v

  unfoldable pub log_warn : ℕ → List ℕ → List Arg → Vga D → Option (Vga D)
  log_warn t fmt args v = log_message warn_tag t fmt args v

  unfoldable pub log_error : ℕ → List ℕ → List Arg → Vga D → Option (Vga D)
  log_error t fmt args v = log_message error_tag t fmt args v
