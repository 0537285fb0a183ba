-- ===== src/Log/Usable.antt =====
-- The messages of log/log.c leave a screen that can be used again.
use mathlib.Core.Path.{subst}
use mathlib.Core.List.{append-nil}
use os_kernel.Base.{ℕ, ◌≡◌, true, Option, some, List, [], ◌++◌}
use os_kernel.Ports.{Ports}
use os_kernel.Vga.{Vga}
use os_kernel.Vga.Inside.{OnScreen}
use os_kernel.Printf.{Arg}
use os_kernel.Printf.Format.{Piece, Formats, end}
use os_kernel.Printf.Draw.{PrintsPieces}
use os_kernel.Printf.Stays.{Draws-Stays}
use os_kernel.Log.{log_info, log_warn, log_error}
use os_kernel.Log.Message.{
  letters, all_plain, message, info_level, warn_level, error_level, Formats-letters, log_lem,
}

-- the lock of the screen is free and the cursor on the screen
abbrev pub IsUsable : {D : Type 0} → Vga D → Type 0
IsUsable v = (v.vga_lock ≡ record { locked = 0 }) × OnScreen v.screen

-- the command ends with a usable screen
abbrev pub EndsUsable : {D : Type 0} → Option (Vga D) → Type 0
EndsUsable {D} r = (v' : Vga D) × (r ≡ some v') × IsUsable v'

module _ {D : Type 0} (io : Ports D) where
  PrintsPieces-EndsUsable :
      (ps : List Piece) (v : Vga D) (r : Option (Vga D))
      → IsUsable v
      → PrintsPieces io ps v r
      → EndsUsable r
  PrintsPieces-EndsUsable ps v r (free, w) (v', e, draws, free') =
      (v', e, (free', (Draws-Stays ps v.screen v'.screen w draws).0))

  pub log-EndsUsable :
      {fmt : List ℕ} {args : List Arg} {ps : List Piece} (t : ℕ) (v : Vga D)
      → Formats fmt args ps
      → IsUsable v
      → EndsUsable (log_info io t fmt args v)
        × EndsUsable (log_warn io t fmt args v)
        × EndsUsable (log_error io t fmt args v)
  log-EndsUsable {ps} t v f u =
      let (info, warn, error) = log_lem io t v f u.0 in
      (
        PrintsPieces-EndsUsable (message 0x02 info_level t ps) v _ u info,
        PrintsPieces-EndsUsable (message 0x06 warn_level t ps) v _ u warn,
        PrintsPieces-EndsUsable (message 0x04 error_level t ps) v _ u error,
      )

  -- messages without a `%`
  pub log_texts :
      (t : ℕ) (text : List ℕ) (v : Vga D)
      → all_plain text ≡ true
      → IsUsable v
      → EndsUsable (log_info io t text [] v)
        × EndsUsable (log_warn io t text [] v)
        × EndsUsable (log_error io t text [] v)
  log_texts t text v e u =
      let f : Formats text [] (letters text ++ []) =
        subst (λ x. Formats x [] (letters text ++ [])) (append-nil text)
          (Formats-letters text e end) in
      log-EndsUsable t v f u

  pub log_text :
      (t : ℕ) (text : List ℕ) (v : Vga D)
      → all_plain text ≡ true
      → IsUsable v
      → EndsUsable (log_info io t text [] v)
  log_text t text v e u = (log_texts t text v e u).0
