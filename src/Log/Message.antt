-- ===== src/Log/Message.antt =====
-- The messages of log/log.c as pieces of output.
use mathlib.Core.Path.{subst}
use os_kernel.Base.{
  ℕ, ◌+◌, ◌-◌, ◌≤◌, ◌<◌, ◌≡◌, ◌≢◌, refl, arith, ◌==◌, not, ◌&&◌, u32, Bool, true, Option, some,
  ◌>>=◌, List, [], ◌∷◌, ◌++◌, length,
}
use os_kernel.Ports.{Ports}
use os_kernel.Vga.{Vga, Screen, write_loop}
use os_kernel.Printf.{Arg, printf}
use os_kernel.Printf.Format.{
  Piece, chars, number, hexadecimal, pointer, color, Formats, plain, percent_d, sequence, end,
  Draws, shade, ansi_shade,
}
use os_kernel.Printf.Draw.{PrintsPieces, vprintf_lem}
use os_kernel.Log.{
  info_tag, warn_tag, error_tag, line_end, print_timestamp, log_message, log_info, log_warn,
  log_error,
}

-- a text of which each character is a piece
abbrev pub letters : List ℕ → List Piece
letters [] = []
letters (c ∷ cs) = chars (c ∷ []) ∷ letters cs

-- neither an escape nor a `%`
abbrev pub all_plain : List ℕ → Bool
all_plain [] = true
all_plain (c ∷ cs) = not (c == 27) && (not (c == 37) && all_plain cs)

pub Formats-letters :
    {fmt : List ℕ} {args : List Arg} {ps : List Piece} (cs : List ℕ)
    → all_plain cs ≡ true
    → Formats fmt args ps
    → Formats (cs ++ fmt) args (letters cs ++ ps)
Formats-letters [] e f = f
Formats-letters (c ∷ cs) e f =
    let parts : (c ≢ 27) × (c ≢ 37) × (all_plain cs ≡ true) = ground arith in
    let (no_escape, no_percent, later) = parts in
    plain c no_escape no_percent (Formats-letters cs later f)

Draws-append :
    (ps qs : List Piece) (s s1 s2 : Screen) → Draws ps s s1 → Draws qs s1 s2 → Draws (ps ++ qs) s s2
Draws-append [] qs s s1 s2 d e = subst (λ x. Draws qs x s2) d e
Draws-append (chars t ∷ ps) qs s s1 s2 d e = Draws-append ps qs (write_loop t s) s1 s2 d e
Draws-append (number n ∷ ps) qs s s1 s2 (cs, is, d) e =
    (cs, is, Draws-append ps qs (write_loop cs s) s1 s2 d e)
Draws-append (hexadecimal n ∷ ps) qs s s1 s2 (cs, reads, len, d) e =
    (cs, reads, len, Draws-append ps qs (write_loop cs s) s1 s2 d e)
Draws-append (pointer n ∷ ps) qs s s1 s2 (cs, reads, len, d) e =
    (cs, reads, len, Draws-append ps qs (write_loop (48 ∷ 120 ∷ cs) s) s1 s2 d e)
Draws-append (color c ∷ ps) qs s s1 s2 d e = Draws-append ps qs (shade c s) s1 s2 d e

module _ {D : Type 0} (io : Ports D) where
  -- the lock is free, in the form of the theorems on `vprintf`
  abbrev IsFree : Vga D → Type 0
  IsFree v = v.vga_lock ≡ record { locked = 0 }

  -- one output after another
  pub PrintsPieces-bind :
      (ps qs : List Piece) (v : Vga D) (r : Option (Vga D)) (k : Vga D → Option (Vga D))
      → PrintsPieces io ps v r
      → ((v' : Vga D) → v'.vga_lock ≡ record { locked = 0 } → PrintsPieces io qs v' (k v'))
      → PrintsPieces io (ps ++ qs) v (r >>= k)
  PrintsPieces-bind ps qs v r k (v1, e, d, free) later =
      let (v2, e', d', free') = later v1 free in
      (v2, rw e e', Draws-append ps qs v.screen v1.screen v2.screen d d', free')

  pub printf_lem :
      {fmt : List ℕ} {args : List Arg} {ps : List Piece} (v : Vga D)
      → Formats fmt args ps
      → v.vga_lock ≡ record { locked = 0 }
      → PrintsPieces io ps v (printf io fmt args v)
  unfolding printf
  printf_lem {fmt} v f free = vprintf_lem io (length fmt + 1) v f (omega arith) free

-- the time in brackets, as an `int`
abbrev pub stamp : ℕ → List Piece
stamp t = letters (b'[' ∷ []) ++ ((number (u32 t) ∷ []) ++ letters (b']' ∷ b' ' ∷ []))

abbrev pub ending : List Piece
ending = color (some 0x0F) ∷ letters (10 ∷ [])

-- the pieces of a message at time `t` with the colour and the name of its level
abbrev pub message : ℕ → List ℕ → ℕ → List Piece → List Piece
message c level t ps = stamp t ++ ((color (some c) ∷ letters level) ++ (ps ++ ending))

abbrev pub info_level : List ℕ
info_level = b'[' ∷ b'I' ∷ b'N' ∷ b'F' ∷ b'O' ∷ b']' ∷ b' ' ∷ []

abbrev pub warn_level : List ℕ
warn_level = b'[' ∷ b'W' ∷ b'A' ∷ b'R' ∷ b'N' ∷ b']' ∷ b' ' ∷ []

abbrev pub error_level : List ℕ
error_level = b'[' ∷ b'E' ∷ b'R' ∷ b'R' ∷ b'O' ∷ b'R' ∷ b']' ∷ b' ' ∷ []

-- a tag: the sequence `3x` and the name of the level
tag-Formats :
    (x : ℕ) (level : List ℕ)
    → 48 ≤ x
    → x < 58
    → all_plain level ≡ true
    → Formats
        (27 ∷ b'[' ∷ b'3' ∷ x ∷ b'm' ∷ (level ++ []))
        []
        (color (ansi_shade (30 + (x - 48))) ∷ (letters level ++ []))
tag-Formats x level ge lt e =
    sequence (b'3' ∷ x ∷ []) (omega arith, omega arith, (ge, lt, tt)) (omega arith) refl
      (Formats-letters level e end)

line_end-Formats : Formats line_end [] ending
line_end-Formats =
    sequence (b'0' ∷ []) (omega arith, omega arith, tt) (omega arith) refl
      (Formats-letters (10 ∷ []) refl end)

module _ {D : Type 0} (io : Ports D) where
  print_timestamp_lem :
      (t : ℕ) (v : Vga D)
      → v.vga_lock ≡ record { locked = 0 }
      → PrintsPieces io (stamp t) v (print_timestamp io t v)
  unfolding print_timestamp
  print_timestamp_lem t v free =
      PrintsPieces-bind io (letters (b'[' ∷ []))
        ((number (u32 t) ∷ []) ++ letters (b']' ∷ b' ' ∷ [])) v _ _
        (printf_lem io v (Formats-letters (b'[' ∷ []) refl end) free)
        (λ v1 free1.
          PrintsPieces-bind io (number (u32 t) ∷ []) (letters (b']' ∷ b' ' ∷ [])) v1 _ _
            (printf_lem io v1 (percent_d (u32 t) (omega arith) end) free1)
            (λ v2 free2. printf_lem io v2 (Formats-letters (b']' ∷ b' ' ∷ []) refl end) free2))

  log_message_lem :
      {fmt : List ℕ} {args : List Arg} {ps : List Piece} (tag : List ℕ) (c : ℕ) (level : List ℕ)
      (t : ℕ) (v : Vga D)
      → Formats tag [] (color (some c) ∷ letters level)
      → Formats fmt args ps
      → v.vga_lock ≡ record { locked = 0 }
      → PrintsPieces io (message c level t ps) v (log_message io tag t fmt args v)
  unfolding log_message
  log_message_lem {fmt} {args} {ps} tag c level t v g f free =
      PrintsPieces-bind io (stamp t) ((color (some c) ∷ letters level) ++ (ps ++ ending)) v _ _
        (print_timestamp_lem t v free)
        (λ v1 free1.
          PrintsPieces-bind io (color (some c) ∷ letters level) (ps ++ ending) v1 _ _
            (printf_lem io v1 g free1)
            (λ v2 free2.
              PrintsPieces-bind io ps ending v2 _ _
                (vprintf_lem io (length fmt + 1) v2 f (omega arith) free2)
                (λ v3 free3. printf_lem io v3 line_end-Formats free3)))

  -- On a format with its arguments and a free lock, `log_info`, `log_warn` and `log_error` end and print the
  -- time in brackets as an `int`, the level in its colour, the pieces of the format, and a new line after
  -- the foreground is white again; the lock is free after them.
  pub log_lem :
      {fmt : List ℕ} {args : List Arg} {ps : List Piece} (t : ℕ) (v : Vga D)
      → Formats fmt args ps
      → v.vga_lock ≡ record { locked = 0 }
      → PrintsPieces io (message 0x02 info_level t ps) v (log_info io t fmt args v)
        × PrintsPieces io (message 0x06 warn_level t ps) v (log_warn io t fmt args v)
        × PrintsPieces io (message 0x04 error_level t ps) v (log_error io t fmt args v)
  unfolding log_info log_warn log_error
  log_lem t v f free = (
    log_message_lem info_tag 0x02 info_level t v
        (tag-Formats b'2' info_level (omega arith) (omega arith) refl) f free,
    log_message_lem warn_tag 0x06 warn_level t v
        (tag-Formats b'3' warn_level (omega arith) (omega arith) refl) f free,
    log_message_lem error_tag 0x04 error_level t v
        (tag-Formats b'1' error_level (omega arith) (omega arith) refl) f free,
  )
