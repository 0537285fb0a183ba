-- ===== src/Pit/Logged.antt =====
-- `pit_init` of pit/pit.c with the messages that it prints; `log_debug` is an empty stub of kernel/stubs.c.
use native.Mathlib.Nat.{div-le_self}
use os_kernel.Base.{
  ℕ, ◌/◌, ◌^◌, ◌<◌, ◌≡◌, refl, arith, ◌==◌, ltb, if◌then◌else◌, Option, some, ◌>>=◌, List, [], ◌∷◌,
  codes, Bool-cases, inl, inr, if_cases,
}
use os_kernel.Ports.{Ports}
use os_kernel.Vga.{Vga}
use os_kernel.Printf.{word}
use os_kernel.Printf.Format.{Formats, Piece, percent_d, end}
use os_kernel.Log.{log_info, log_warn, log_error}
use os_kernel.Log.Message.{Formats-letters}
use os_kernel.Log.Usable.{IsUsable, EndsUsable, log-EndsUsable, log_texts, log_text}
use os_kernel.Pit.{pit_base_freq, pit_min_freq, pit_max_freq, pit_init, start_timer}

abbrev pub low_message : List ℕ
low_message = codes "PIT: Requested frequency %d Hz is very low (min recommended %d Hz)."

abbrev pub high_message : List ℕ
high_message =
    codes "PIT: Requested frequency %d Hz exceeds maximum theoretical frequency %d Hz. Capping."

abbrev pub rate_message : List ℕ
rate_message = codes "PIT: Initializing with desired frequency %d Hz (actual %d Hz, divisor %d)."

div-small : (d : ℕ) → pit_base_freq / d < 2 ^ 32
div-small d = omega (arith, div-le_self pit_base_freq d)

module _ {D : Type 0} (io : Ports D) where
  -- the part behind the computation of the divisor
  unfoldable pub start_timer_logged : ℕ → ℕ → ℕ → Vga D → Option (Vga D × ℕ)
  start_timer_logged t hz divisor v = do
    v1 ← log_info io t rate_message (word hz ∷ word (pit_base_freq / divisor) ∷ word divisor ∷ []) v
    let p =
        start_timer io divisor
          (record { devices = v1.devices; current_pit_hz = pit_base_freq / divisor })
    v2 ←
        log_info io t (codes "PIT: Timer initialized and IRQ0 unmasked.") []
          (record v1 { devices = p.devices })
    some (v2, p.current_pit_hz)

  -- `current` is the frequency that was set before; the result has the one that is set after.
  unfoldable pub pit_init_logged : ℕ → ℕ → ℕ → Vga D → Option (Vga D × ℕ)
  pit_init_logged t hz current v =
      let capped = if ltb pit_max_freq hz then pit_max_freq else hz in
      let quotient = pit_base_freq / capped in
      let divisor = if quotient == 0 then 1 else quotient in
      if hz == 0
      then (do
        v' ←
            log_error io t
              (codes "PIT: Attempted to set frequency to 0 Hz. Aborting initialization.") [] v
        some (v', current))
      else (do
        v1 ←
            (if ltb hz pit_min_freq
              then log_warn io t low_message (word hz ∷ word pit_min_freq ∷ []) v
              else some v)
        v2 ←
            (if ltb pit_max_freq hz
              then log_warn io t high_message (word hz ∷ word pit_max_freq ∷ []) v1
              else some v1)
        start_timer_logged t capped divisor v2)

  low_Formats :
      (a b : ℕ)
      → a < 2 ^ 32
      → b < 2 ^ 32
      → (ps : List Piece) × Formats low_message (word a ∷ word b ∷ []) ps
  low_Formats a b ha hb = (
    _,
    Formats-letters (codes "PIT: Requested frequency ") refl (
        percent_d a ha (
          Formats-letters (codes " Hz is very low (min recommended ") refl
            (percent_d b hb (Formats-letters (codes " Hz).") refl end)))),
  )

  high_Formats :
      (a b : ℕ)
      → a < 2 ^ 32
      → b < 2 ^ 32
      → (ps : List Piece) × Formats high_message (word a ∷ word b ∷ []) ps
  high_Formats a b ha hb = (
    _,
    Formats-letters (codes "PIT: Requested frequency ") refl (
        percent_d a ha (
          Formats-letters (codes " Hz exceeds maximum theoretical frequency ") refl
            (percent_d b hb (Formats-letters (codes " Hz. Capping.") refl end)))),
  )

  rate_Formats :
      (a b c : ℕ)
      → a < 2 ^ 32
      → b < 2 ^ 32
      → c < 2 ^ 32
      → (ps : List Piece) × Formats rate_message (word a ∷ word b ∷ word c ∷ []) ps
  rate_Formats a b c ha hb hc = (
    _,
    Formats-letters (codes "PIT: Initializing with desired frequency ") refl (
        percent_d a ha (
          Formats-letters (codes " Hz (actual ") refl (
            percent_d b hb (
              Formats-letters (codes " Hz, divisor ") refl
                (percent_d c hc (Formats-letters (codes ").") refl end)))))),
  )

  start_timer_logged_lem :
      (t hz divisor : ℕ) (v : Vga D)
      → hz < 2 ^ 32
      → divisor < 2 ^ 32
      → IsUsable v
      → (v' : Vga D) × (start_timer_logged t hz divisor v ≡ some (v', pit_base_freq / divisor))
        × IsUsable v'
  unfolding start_timer_logged start_timer
  start_timer_logged_lem t hz divisor v small small' u =
      let quotient : pit_base_freq / divisor < 2 ^ 32 = div-small divisor in
      let (ps, f) = rate_Formats hz (pit_base_freq / divisor) divisor small quotient small' in
      let (v1, e1, u1) = (log-EndsUsable io t v f u).0 in
      let p =
        start_timer io divisor
          (record { devices = v1.devices; current_pit_hz = pit_base_freq / divisor }) in
      let (v2, e2, u2) =
        log_text io t (codes "PIT: Timer initialized and IRQ0 unmasked.")
          (record v1 { devices = p.devices }) refl u1 in
      (v2, rw (e1, ◌>>=◌, e2) refl, u2)

  -- `pit_init` ends and sets the frequency that its device part sets.
  pub pit_init_logged_lem :
      (t hz current : ℕ) (v : Vga D)
      → hz < 2 ^ 32
      → IsUsable v
      → (v' : Vga D) × (n : ℕ) × (pit_init_logged t hz current v ≡ some (v', n))
        × IsUsable v'
        × ((d : D)
            → n
              ≡ (pit_init io hz (record { devices = d; current_pit_hz = current })).current_pit_hz)
  unfolding pit_init_logged pit_init start_timer
  pit_init_logged_lem t hz current v small u = elim (Bool-cases (hz == 0)) [
    | inl zero_rate ↦
        let (v1, e1, u1) =
          (log_texts io t
            (codes "PIT: Attempted to set frequency to 0 Hz. Aborting initialization.") v refl
            u).2 in
        (v1, current, rw (zero_rate, e1, ◌>>=◌) refl, u1, λ d. rw zero_rate refl)
    | inr some_rate ↦
        let (v1, e1, u1) =
          if_cases EndsUsable (ltb hz pit_min_freq)
            (log_warn io t low_message (word hz ∷ word pit_min_freq ∷ []) v) (some v)
            (λ h. (log-EndsUsable io t v (low_Formats hz pit_min_freq small (omega arith)).1 u).1)
            (λ h. (v, refl, u)) in
        let (v2, e2, u2) =
          if_cases EndsUsable (ltb pit_max_freq hz)
            (log_warn io t high_message (word hz ∷ word pit_max_freq ∷ []) v1) (some v1)
            (λ h.
              (log-EndsUsable io t v1 (high_Formats hz pit_max_freq small (omega arith)).1 u1).1)
            (λ h. (v1, refl, u1)) in
        let capped : ℕ = if ltb pit_max_freq hz then pit_max_freq else hz in
        let quotient : ℕ = pit_base_freq / capped in
        let divisor : ℕ = if quotient == 0 then 1 else quotient in
        let (v3, e3, u3) =
          start_timer_logged_lem t capped divisor v2 (ground arith)
            (ground (arith, div-small capped)) u2 in
        (
          v3,
          pit_base_freq / divisor,
          rw (some_rate, e1, ◌>>=◌, e2, ◌>>=◌) e3,
          u3,
          λ d. rw some_rate refl,
        )
  ]
