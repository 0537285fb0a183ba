-- ===== src/Log/Quiet.antt =====
-- The output of lib/printf.c and log/log.c writes no ports but those of the screen's cursor.
use os_kernel.Base.{
  ℕ, zero, suc, ◌+◌, ◌*◌, ◌/◌, ◌^◌, ◌≡◌, ◌⊎◌, inl, inr, refl, ap, ◌∙◌, sym, Bool, true, false, not,
  ◌||◌, ◌==◌, leb, u8, bit_and, Option, none, some, ◌>>=◌, Option-cases, List, [], ◌∷◌, get_elem?,
  length, if_cases,
}
use os_kernel.Ports.{Ports}
use os_kernel.Spinlock.{spinlock_acquire}
use os_kernel.Vga.{
  Vga, Screen, acquire, release, update_cursor, vga_put_char, vga_write, vga_set_color,
}
use os_kernel.Printf.{
  Arg, hex, ansi_code, ansi_color, next_word, next_text, print_buffer, print_number, hex_loop,
  print_hex, print_ptr, ansi_end, handle_ansi, directive, vprintf, printf,
}
use os_kernel.Log.{print_timestamp, log_message, log_warn, warn_tag, line_end}

-- `f` is what does not depend on the writes to the ports 0x3D4 and 0x3D5.
module _ {D X : Type 0} (io : Ports D) (f : D → X)
    (quiet : (port v : ℕ) (d : D)
      → (port ≡ 0x3D4) ⊎ (port ≡ 0x3D5)
      → f (io.outb port v d) ≡ f d) where
  -- the result, if there is one, has devices as far as `f` tells like `d`
  abbrev Keeps : {A : Type 0} → (A → D) → D → Option A → Type 0
  Keeps {A} devices_of d r = (a : A) → r ≡ some a → f (devices_of a) ≡ f d

  Keeps-none : {A : Type 0} (devices_of : A → D) (d : D) → Keeps devices_of d none
  Keeps-none devices_of d a e = cc e

  Keeps-some :
      {A : Type 0} (devices_of : A → D) (d : D) (x : A)
      → f (devices_of x) ≡ f d
      → Keeps devices_of d (some x)
  Keeps-some {A} devices_of d x h a e = ap (λ y. f (devices_of y)) (sym (inner x a e)) ∙ h
    where
      inner : (x a : A) → ◌≡◌ {A = Option A} (some x) (some a) → x ≡ a
      inner x a e = cc

  Keeps-bind :
      {A B : Type 0} (of : A → D) (of' : B → D) (d : D) (r : Option A) (k : A → Option B)
      → Keeps of d r
      → ((a : A) → Keeps of' (of a) (k a))
      → Keeps of' d (r >>= k)
  Keeps-bind of of' d none k h later b e = cc e
  Keeps-bind of of' d (some a) k h later b e = later a b e ∙ h a refl

  -- a step before that does not touch the devices
  Keeps-pure :
      {A B : Type 0} (of : B → D) (d : D) (r : Option A) (k : A → Option B)
      → ((a : A) → Keeps of d (k a))
      → Keeps of d (r >>= k)
  Keeps-pure of d none k later b e = cc e
  Keeps-pure of d (some a) k later b e = later a b e

  devices_of : Vga D → D
  devices_of v = v.devices

  update_cursor-Keeps : (s : Screen) (d : D) → f (update_cursor io s d) ≡ f d
  unfolding update_cursor
  update_cursor-Keeps s d =
      quiet _ _ _ (inr refl)
      ∙ quiet _ _ _ (inl refl)
      ∙ quiet _ _ _ (inr refl)
      ∙ quiet _ _ d (inl refl)

  acquire-Keeps : (v : Vga D) → Keeps devices_of v.devices (acquire v)
  unfolding acquire devices_of
  acquire-Keeps v = elim (Option-cases (spinlock_acquire v.vga_lock)) [
    | inl stuck ↦ rw (acquire, stuck) (Keeps-none devices_of v.devices)
    | inr (l, taken) ↦ rw (acquire, taken) (Keeps-some devices_of v.devices _ refl)
  ]

  put_char-Keeps : (c : ℕ) (v : Vga D) → Keeps devices_of v.devices (vga_put_char io c v)
  unfolding vga_put_char release devices_of
  put_char-Keeps c v =
      Keeps-bind devices_of devices_of v.devices (acquire v) _ (acquire-Keeps v)
        (λ v1. Keeps-some devices_of v1.devices _ (update_cursor-Keeps _ v1.devices))

  write-Keeps : (t : List ℕ) (v : Vga D) → Keeps devices_of v.devices (vga_write io t v)
  unfolding vga_write release devices_of
  write-Keeps t v =
      Keeps-bind devices_of devices_of v.devices (acquire v) _ (acquire-Keeps v)
        (λ v1. Keeps-some devices_of v1.devices _ (update_cursor-Keeps _ v1.devices))

  color-Keeps : (c : ℕ) (v : Vga D) → Keeps devices_of v.devices (vga_set_color c v)
  unfolding vga_set_color release devices_of
  color-Keeps c v =
      Keeps-bind devices_of devices_of v.devices (acquire v) _ (acquire-Keeps v)
        (λ v1. Keeps-some devices_of v1.devices _ refl)

  buffer-Keeps : (buf : List ℕ) (v : Vga D) → Keeps devices_of v.devices (print_buffer io buf v)
  unfolding print_buffer devices_of
  buffer-Keeps [] v = Keeps-some devices_of v.devices v refl
  buffer-Keeps (c ∷ buf) v =
      Keeps-bind devices_of devices_of v.devices _ _ (put_char-Keeps c v) (buffer-Keeps buf)

  number-Keeps : (n : ℕ) (v : Vga D) → Keeps devices_of v.devices (print_number io n v)
  unfolding print_number devices_of
  number-Keeps n v =
      if_cases (Keeps devices_of v.devices) (n == 0) _ _ (λ h. put_char-Keeps 48 v)
        (λ h.
          if_cases (Keeps devices_of v.devices) (leb (2 ^ 31) n) _ _
            (λ h.
              Keeps-bind devices_of devices_of v.devices _ _ (put_char-Keeps 45 v)
                (λ v1. Keeps-pure devices_of v1.devices _ _ (λ buf. buffer-Keeps buf v1)))
            (λ h. Keeps-pure devices_of v.devices _ _ (λ buf. buffer-Keeps buf v)))

  hex-Keeps :
      (left : ℕ) (started : Bool) (n : ℕ) (v : Vga D)
      → Keeps devices_of v.devices (hex_loop io left started n v)
  unfolding hex_loop devices_of
  hex-Keeps zero started n v = Keeps-some devices_of v.devices v refl
  hex-Keeps (suc left) started n v =
      let digit = bit_and (n / 2 ^ (4 * left)) 0xF in
      if_cases (Keeps devices_of v.devices) (not (digit == 0) || (started || (left == 0)))
        (do c ← get_elem? hex digit; v1 ← vga_put_char io c v; hex_loop io left true n v1)
        (hex_loop io left started n v)
        (λ h. Keeps-pure devices_of v.devices (get_elem? hex digit) _ (λ c.
          Keeps-bind devices_of devices_of v.devices _ _ (put_char-Keeps c v)
            (hex-Keeps left true n)))
        (λ h. hex-Keeps left started n v)

  ptr-Keeps : (n : ℕ) (v : Vga D) → Keeps devices_of v.devices (print_ptr io n v)
  unfolding print_ptr devices_of
  ptr-Keeps n v =
      Keeps-bind devices_of devices_of v.devices _ _ (write-Keeps (48 ∷ 120 ∷ []) v)
        (hex-Keeps 8 false n)

  abbrev Jump : Type 0
  Jump = Option (List ℕ) × Vga D

  jump_of : Jump → D
  jump_of x = x.1.devices

  ansi_end-Keeps :
      (code : ℕ) (p : List ℕ) (v : Vga D) → Keeps jump_of v.devices (ansi_end io code p v)
  unfolding ansi_end devices_of jump_of
  ansi_end-Keeps code [] v = Keeps-some jump_of v.devices _ refl
  ansi_end-Keeps code (c ∷ p) v =
      if_cases (Keeps jump_of v.devices) (not (c == 109)) (some (none, v))
        (elim (ansi_color code) [
          | none ↦ some (some p, v)
          | some color ↦ do v1 ← vga_set_color color v; some (some p, v1)
        ])
        (λ h. Keeps-some jump_of v.devices _ refl)
        (λ h. elim (Option-cases (ansi_color code)) [
          | inl nothing ↦ rw nothing (Keeps-some jump_of v.devices (some p, v) refl)
          | inr (color, chosen) ↦ rw chosen (
              Keeps-bind devices_of jump_of v.devices (vga_set_color color v)
                (λ v1. some (some p, v1)) (color-Keeps color v)
                (λ v1. Keeps-some jump_of v1.devices (some p, v1) refl))
        ])

  handle_ansi-Keeps : (p : List ℕ) (v : Vga D) → Keeps jump_of v.devices (handle_ansi io p v)
  unfolding handle_ansi jump_of
  handle_ansi-Keeps [] v = Keeps-some jump_of v.devices _ refl
  handle_ansi-Keeps (c ∷ p) v =
      if_cases (Keeps jump_of v.devices) (not (c == 91)) (some (none, v))
        (ansi_code 0 p >>= λ x. ansi_end io x.0 x.1 v) (λ h. Keeps-some jump_of v.devices _ refl)
        (λ h. Keeps-pure jump_of v.devices (ansi_code 0 p) _ (λ x. ansi_end-Keeps x.0 x.1 v))

  abbrev Rest : Type 0
  Rest = List ℕ × List Arg × Vga D

  rest_of : Rest → D
  rest_of x = x.2.devices

  -- a directive that prints its argument
  shown-Keeps :
      {A : Type 0} (fmt : List ℕ) (next : Option (A × List Arg))
      (print : A → Vga D → Option (Vga D)) (v : Vga D)
      → ((a : A) → Keeps devices_of v.devices (print a v))
      → Keeps rest_of v.devices (next >>= λ x. print x.0 v >>= λ v1. some (fmt, x.1, v1))
  unfolding devices_of rest_of
  shown-Keeps fmt next print v h = Keeps-pure rest_of v.devices next _ (λ x.
      Keeps-bind devices_of rest_of v.devices (print x.0 v) (λ v1. some (fmt, x.1, v1)) (h x.0)
        (λ v1. Keeps-some rest_of v1.devices (fmt, x.1, v1) refl))

  directive-Keeps :
      (fmt : List ℕ) (args : List Arg) (v : Vga D)
      → Keeps rest_of v.devices (directive io fmt args v)
  unfolding directive print_hex rest_of devices_of
  directive-Keeps [] args v = Keeps-none rest_of v.devices
  directive-Keeps (c ∷ fmt) args v =
      if_cases K (c == 100) _ _
        (λ h. shown-Keeps fmt (next_word args) (print_number io) v (λ n. number-Keeps n v))
        (λ h.
          if_cases K (c == 120) _ _
            (λ h. shown-Keeps fmt (next_word args) (print_hex io) v (λ n. hex-Keeps 8 false n v))
            (λ h.
              if_cases K (c == 112) _ _
                (λ h. shown-Keeps fmt (next_word args) (print_ptr io) v (λ n. ptr-Keeps n v))
                (λ h.
                  if_cases K (c == 115) _ _
                    (λ h. shown-Keeps fmt (next_text args) (vga_write io) v (λ t. write-Keeps t v))
                    (λ h.
                      if_cases K (c == 99) _ _
                        (λ h.
                          shown-Keeps fmt (next_word args) (λ n. vga_put_char io (u8 n)) v
                            (λ n. put_char-Keeps (u8 n) v))
                        (λ h.
                          Keeps-bind devices_of rest_of v.devices (vga_put_char io c v)
                            (λ v1. some (fmt, args, v1)) (put_char-Keeps c v)
                            (λ v1. Keeps-some rest_of v1.devices (fmt, args, v1) refl))))))
    where
      K : Option Rest → Type 0
      K = Keeps rest_of v.devices

  vprintf-Keeps :
      (fuel : ℕ) (fmt : List ℕ) (args : List Arg) (v : Vga D)
      → Keeps devices_of v.devices (vprintf io fuel fmt args v)
  unfolding vprintf devices_of jump_of rest_of
  vprintf-Keeps zero fmt args v = Keeps-none devices_of v.devices
  vprintf-Keeps (suc fuel) [] args v = Keeps-some devices_of v.devices v refl
  vprintf-Keeps (suc fuel) (c ∷ fmt) args v =
      if_cases (Keeps devices_of v.devices) (c == 27) _ _
        (λ h.
          Keeps-bind jump_of devices_of v.devices (handle_ansi io fmt v) _ (handle_ansi-Keeps fmt v)
            (go_on (vprintf-Keeps fuel)))
        (λ h.
          if_cases (Keeps devices_of v.devices) (c == 37) _ _
            (λ h.
              Keeps-bind rest_of devices_of v.devices (directive io fmt args v) _
                (directive-Keeps fmt args v) (λ x. vprintf-Keeps fuel x.0 x.1 x.2))
            (λ h.
              Keeps-bind devices_of devices_of v.devices (vga_put_char io c v) _
                (put_char-Keeps c v) (vprintf-Keeps fuel fmt args)))
    where
      go_on :
          ((fmt : List ℕ) (args : List Arg) (v : Vga D)
            → Keeps devices_of v.devices (vprintf io fuel fmt args v))
          → (x : Jump)
          → Keeps devices_of (jump_of x) (elim x.0 [
            | none ↦ (do v2 ← vga_put_char io c x.1; vprintf io fuel fmt args v2)
            | some rest ↦ vprintf io fuel rest args x.1
          ])
      go_on later (none, v1) =
          Keeps-bind devices_of devices_of v1.devices (vga_put_char io c v1) _ (put_char-Keeps c v1)
            (later fmt args)
      go_on later (some rest, v1) = later rest args v1

  printf-Keeps :
      (fmt : List ℕ) (args : List Arg) (v : Vga D)
      → Keeps devices_of v.devices (printf io fmt args v)
  unfolding printf
  printf-Keeps fmt args v = vprintf-Keeps (length fmt + 1) fmt args v

  -- A warning leaves what the cursor's ports do not reach.
  pub log_warn-Keeps :
      (t : ℕ) (fmt : List ℕ) (args : List Arg) (v v' : Vga D)
      → log_warn io t fmt args v ≡ some v'
      → f v'.devices ≡ f v.devices
  unfolding log_warn log_message print_timestamp devices_of
  log_warn-Keeps t fmt args v =
      Keeps-bind devices_of devices_of v.devices (print_timestamp io t v) _
        (Keeps-bind devices_of devices_of v.devices (printf io (b'[' ∷ []) [] v) _
          (printf-Keeps (b'[' ∷ []) [] v)
          (λ v1.
            Keeps-bind devices_of devices_of v1.devices _ _ (printf-Keeps _ _ v1)
              (printf-Keeps (b']' ∷ b' ' ∷ []) [])))
        (λ v1. Keeps-bind devices_of devices_of v1.devices _ _ (printf-Keeps warn_tag [] v1) (λ v2.
          Keeps-bind devices_of devices_of v2.devices _ _ (vprintf-Keeps _ fmt args v2)
            (printf-Keeps line_end [])))
