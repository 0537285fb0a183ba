-- ===== src/Printf/Decimal.antt =====
-- `print_number` of lib/printf.c: the decimal print of an `int` and its reading.
use mathlib.Core.Path.{subst}
use os_kernel.Base.{
  ℕ, zero, suc, ◌+◌, ◌-◌, ◌*◌, ◌/◌, ◌%◌, ◌^◌, ◌≤◌, ◌<◌, ◌≡◌, ◌≢◌, ◌⊎◌, refl, arith, ◌∙◌, ap, sym,
  ◌==◌, leb, u32, Option, some, ◌>>=◌, Bool-cases, List, [], ◌∷◌, ==→ne, ==_iff, inl, inr, leb→le,
  length,
}
use os_kernel.Ports.{Ports}
use os_kernel.Spinlock.{Spinlock}
use os_kernel.Vga.{Vga, vga_put_char, write_loop, put_char}
use os_kernel.Vga.Inside.{write_loop-put_char}
use os_kernel.Vga.Write.{put_all, put_all_lem, shows, vga_put_char_free}
use os_kernel.Printf.{number_digits, print_buffer, print_number}

-- the number that starts with `n` and goes on with the digits
abbrev pub read_digits : ℕ → List ℕ → ℕ
read_digits n [] = n
read_digits n (c ∷ cs) = read_digits (n * 10 + (c - 48)) cs

abbrev pub AreDigits : List ℕ → Type 0
AreDigits [] = Unit {0}
AreDigits (c ∷ cs) = (48 ≤ c) × (c < 58) × AreDigits cs

abbrev pub first_char : List ℕ → ℕ
first_char [] = 0
first_char (c ∷ cs) = c

-- The text is the decimal numeral of `n`: digits without a zero in front, but for 0 itself.
pub record IsNumeral (n : ℕ) (cs : List ℕ) : Type 0 where
  pub digits : AreDigits cs
  pub value : read_digits 0 cs ≡ n
  pub not_empty : 1 ≤ length cs
  pub shortest : n ≢ 0 → first_char cs ≢ 48
  pub nought : n ≡ 0 → cs ≡ 48 ∷ []

-- The text is the decimal numeral of the `int` with the 32 bits `num`, with a minus sign if it is negative.
abbrev pub IsInt : ℕ → List ℕ → Type 0
IsInt num cs =
    ((num < 2 ^ 31) × IsNumeral num cs)
    ⊎ ((2 ^ 31 ≤ num) × (ds : List ℕ) × (cs ≡ 45 ∷ ds) × IsNumeral (2 ^ 32 - num) ds)

-- the digits of a number, before those that are there already
record AreDigitsOf (n : ℕ) (buf out : List ℕ) : Type 0 where
  digits : AreDigits buf → AreDigits out
  value : read_digits 0 out ≡ read_digits n buf
  longer : length buf ≤ length out
  leading : n ≢ 0 → (first_char out ≢ 48) × (length buf < length out)

none_added : (buf : List ℕ) → AreDigitsOf 0 buf buf
none_added buf = record {
  digits = λ d. d;
  value = refl;
  longer = omega arith;
  leading = λ ne. absurd (ne refl);
}

number_digits-zero : (room n : ℕ) (buf : List ℕ) → n ≡ 0 → number_digits room n buf ≡ some buf
unfolding number_digits
number_digits-zero zero n buf done = rw done refl
number_digits-zero (suc room) n buf done = rw done refl

number_digits_lem :
    (room n : ℕ) (buf : List ℕ)
    → n < 10 ^ room
    → (out : List ℕ) × (number_digits room n buf ≡ some out) × AreDigitsOf n buf out
unfolding number_digits
number_digits_lem zero n buf lt =
    let done : n ≡ 0 = omega (arith, lt) in rw done (buf, refl, none_added buf)
number_digits_lem (suc room) n buf lt = elim (Bool-cases (n == 0)) [
  | inl end ↦ let done = (==_iff n 0).0 end in rw done (buf, refl, none_added buf)
  | inr more ↦
      let (out, r, ih) =
        number_digits_lem room (n / 10) ((48 + n % 10) ∷ buf) (omega (arith, lt)) in
      rw more (
        out,
        r,
        record {
          digits = λ d. ih.digits (omega arith, omega arith, d);
          value = ih.value ∙ ap (λ x. read_digits x buf) (omega arith);
          longer = omega (arith, ih.longer);
          leading = λ ne. (first out r ih ne, omega (arith, ih.longer));
        },
      )
]
  where
    some_first :
        (xs ys : List ℕ)
        → ◌≡◌ {A = Option (List ℕ)} (some xs) (some ys)
        → first_char xs ≡ first_char ys
    some_first xs ys e = cc

    first :
        (out : List ℕ)
        → number_digits room (n / 10) ((48 + n % 10) ∷ buf) ≡ some out
        → AreDigitsOf (n / 10) ((48 + n % 10) ∷ buf) out
        → n ≢ 0
        → first_char out ≢ 48
    first out r ih ne = elim (Bool-cases (n / 10 == 0)) [
      | inr further ↦ (ih.leading (==→ne (n / 10) 0 further)).0
      | inl last ↦
          let done = (==_iff (n / 10) 0).0 last in
          let all : some ((48 + n % 10) ∷ buf) ≡ some out =
            sym (number_digits-zero room (n / 10) ((48 + n % 10) ∷ buf) done) ∙ r in
          let head : 48 + n % 10 ≡ first_char out = some_first _ _ all in omega arith
    ]

-- the digits of a number that is not 0, in the room of `buf`
number_digits-IsNumeral :
    (n : ℕ)
    → n ≢ 0
    → n < 10 ^ 32
    → (cs : List ℕ) × (number_digits 32 n [] ≡ some cs) × IsNumeral n cs
number_digits-IsNumeral n ne lt =
    let (cs, r, d) = number_digits_lem 32 n [] lt in
    (
      cs,
      r,
      record {
        digits = d.digits tt;
        value = d.value;
        not_empty = (d.leading ne).1;
        shortest = λ _. (d.leading ne).0;
        nought = λ e. absurd (ne e);
      },
    )

module _ {D : Type 0} (io : Ports D) where
  print_buffer-put_all : (buf : List ℕ) (v : Vga D) → print_buffer io buf v ≡ put_all io buf v
  unfolding print_buffer
  print_buffer-put_all [] v = refl
  print_buffer-put_all (c ∷ buf) v =
      λ i. vga_put_char io c v >>= (λ v1. print_buffer-put_all buf v1 i)

  -- the text `cs` is printed, and the lock is free
  abbrev pub Prints : List ℕ → Vga D → Option (Vga D) → Type 0
  Prints cs v r =
      (v' : Vga D) × (r ≡ some v')
      × (v'.screen ≡ write_loop cs v.screen)
      × (v'.vga_lock ≡ record { locked = 0 })

  pub print_buffer-Prints :
      (cs : List ℕ) (v : Vga D)
      → v.vga_lock ≡ record { locked = 0 }
      → Prints cs v (print_buffer io cs v)
  print_buffer-Prints cs v free = rw (print_buffer-put_all cs v) (put_all_lem io cs v free)

  -- one character before a text
  pub put_char-Prints :
      (c : ℕ) (cs : List ℕ) (v : Vga D) (k : Vga D → Option (Vga D))
      → v.vga_lock ≡ record { locked = 0 }
      → ((v' : Vga D) → v'.vga_lock ≡ record { locked = 0 } → Prints cs v' (k v'))
      → Prints (c ∷ cs) v (vga_put_char io c v >>= k)
  put_char-Prints c cs v k free later =
      let (v', r, same, free') = later (shows io (put_char c v.screen) v) refl in
      (
        v',
        rw (vga_put_char_free io c v (ap (λ (l : Spinlock). l.locked) free)) r,
        same ∙ sym (write_loop-put_char c cs v.screen),
        free',
      )

  -- When the lock is free, `print_number` ends with the lock free, and prints the decimal digits of the `int`
  -- without a zero in front, behind a minus sign when it is negative.
  pub print_number_lem :
      (num : ℕ) (v : Vga D)
      → num < 2 ^ 32
      → v.vga_lock ≡ record { locked = 0 }
      → (cs : List ℕ) × Prints cs v (print_number io num v) × IsInt num cs
  unfolding print_number write_loop
  print_number_lem num v lt free = elim (Bool-cases (num == 0)) [
    | inl nought ↦
        let done = (==_iff num 0).0 nought in
        rw done (
          48 ∷ [],
          rw (vga_put_char_free io 48 v (ap (λ (l : Spinlock). l.locked) free)) (
            shows io (put_char 48 v.screen) v,
            refl,
            sym (write_loop-put_char 48 [] v.screen),
            refl,
          ),
          inl (
            omega arith,
            record {
              digits = (omega arith, omega arith, tt);
              value = refl;
              not_empty = omega arith;
              shortest = λ ne. absurd (ne refl);
              nought = λ e. refl;
            },
          ),
        )
    | inr some_digit ↦ elim (Bool-cases (leb (2 ^ 31) num)) [
      | inl negative ↦
          let low = leb→le (2 ^ 31) num negative in
          let bits : u32 (2 ^ 32 - num) ≡ 2 ^ 32 - num = omega arith in
          let (cs, r, d) =
            number_digits-IsNumeral (u32 (2 ^ 32 - num)) (omega arith) (omega arith) in
          (
            45 ∷ cs,
            rw (some_digit, negative)
                (put_char-Prints 45 cs v _ free
                  (λ v' free'. rw r (print_buffer-Prints cs v' free'))),
            inr (low, cs, refl, subst (λ x. IsNumeral x cs) bits d),
          )
      | inr positive ↦
          let (cs, r, d) = number_digits-IsNumeral num (==→ne num 0 some_digit) (omega arith) in
          (cs, rw (some_digit, positive, r) (print_buffer-Prints cs v free), inl (ground arith, d))
    ]
  ]
