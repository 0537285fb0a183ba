-- ===== src/Memory/Text.antt =====
-- The routines of lib/memory.c on strings, and `memcmp`.
use os_kernel.Base.{
  ℕ, zero, suc, ◌+◌, ◌^◌, ◌<◌, ◌≤◌, ◌≡◌, ◌≢◌, ◌⊎◌, ◌↔◌, inl, inr, refl, arith, ◌==◌, update, ap,
  ◌∙◌, Bool-cases, ==_iff, ==→ne, ne→==, some, sub32,
}
use os_kernel.Memory.{Bytes, strlen_loop, strlen, strcmp, strcpy, memcmp_loop, memcmp, forward_loop}
use os_kernel.Memory.Copy.{moved, forward_loop-moved, forward_loop-apart}

-- a string of `n` bytes at `s`, with its end mark
pub record IsText (m : Bytes) (s n : ℕ) : Type 0 where
  pub inside : (i : ℕ) → i < n → m (s + i) ≢ 0
  pub end : m (s + n) ≡ 0

strlen_loop_lem :
    (fuel len s n : ℕ) (m : Bytes)
    → IsText m s n
    → len ≤ n
    → n < len + fuel
    → strlen_loop fuel len s m ≡ some n
unfolding strlen_loop
strlen_loop_lem zero len s n m t le lt = absurd (omega arith)
strlen_loop_lem (suc fuel) len s n m t le lt = elim (Bool-cases (m (s + len) == 0)) [
  | inl zero_byte ↦ let here : len ≡ n = ground (arith, t.inside len) in rw zero_byte (ap some here)
  | inr other ↦
      let before : len ≢ n = λ e. ==→ne _ _ other (ap (λ i. m (s + i)) e ∙ t.end) in
      rw other (strlen_loop_lem fuel (len + 1) s n m t (omega (arith, before)) (omega arith))
]

-- `strlen` on a string of `n` bytes returns `n`, once it may read those and the end mark.
strlen_lem : (fuel s n : ℕ) (m : Bytes) → IsText m s n → n < fuel → strlen fuel s m ≡ some n
unfolding strlen
strlen_lem fuel s n m t lt = strlen_loop_lem fuel 0 s n m t (omega arith) (omega arith)

memcmp_loop_lem :
    (left i a b : ℕ) (m : Bytes)
    → ((j : ℕ) → m j < 2 ^ 8)
    → (memcmp_loop left i a b m ≡ 0) ↔ ((j : ℕ) → i ≤ j → j < i + left → m (a + j) ≡ m (b + j))
unfolding memcmp_loop
memcmp_loop_lem zero i a b m small = (λ e j le lt. absurd (omega arith), λ h. refl)
memcmp_loop_lem (suc left) i a b m small = elim (Bool-cases (m (a + i) == m (b + i))) [
  | inl same ↦
      let (to, from) = memcmp_loop_lem left (i + 1) a b m small in
      let here = (==_iff _ _).0 same in
      rw same (
        λ e j le lt. elim (Bool-cases (j == i)) [
          | inl now ↦ rw ((==_iff _ _).0 now) here
          | inr later ↦ to e j (omega (arith, ==→ne _ _ later)) (omega arith)
        ],
        λ h. from (λ j le lt. h j (omega arith) (omega arith)),
      )
  | inr other ↦
      let ne = ==→ne _ _ other in
      rw other (
        λ e. absurd (ne (omega (arith, small (a + i), small (b + i)))),
        λ h. absurd (ne (h i (omega arith) (omega arith))),
      )
]

-- `memcmp` returns 0 exactly when the two areas hold the same bytes.
memcmp_lem :
    (a b n : ℕ) (m : Bytes)
    → ((j : ℕ) → m j < 2 ^ 8)
    → (memcmp a b n m ≡ 0) ↔ ((j : ℕ) → j < n → m (a + j) ≡ m (b + j))
unfolding memcmp
memcmp_lem a b n m small =
    let (to, from) = memcmp_loop_lem n 0 a b m small in
    (λ e j lt. to e j (omega arith) (omega arith), λ h. from (λ j le lt. h j (omega arith)))

-- the string without its first byte
rest-IsText : {m : Bytes} (s n : ℕ) → IsText m s (suc n) → IsText m (s + 1) n
rest-IsText {m} s n t = record {
  inside = λ i lt e. t.inside (suc i) (omega arith) (ap m {y = s + 1 + i} (omega arith) ∙ e);
  end = ap m {y = s + suc n} (omega arith) ∙ t.end;
}

-- the first bytes of two areas
head : (m : Bytes) (a b : ℕ) → m (a + 0) ≡ m (b + 0) → m a ≡ m b
head m a b e = ap m {y = a + 0} (omega arith) ∙ e ∙ ap m (omega arith)

sub32_eq_zero : (x y : ℕ) → x < 2 ^ 8 → y < 2 ^ 8 → sub32 x y ≡ 0 → x ≡ y
sub32_eq_zero x y hx hy e = omega arith

-- Two areas agree when their first bytes do and the areas behind do.
both_areas :
    (m : Bytes) (a b n : ℕ)
    → m a ≡ m b
    → ((j : ℕ) → j ≤ n → m (a + 1 + j) ≡ m (b + 1 + j))
    → (j : ℕ) → j ≤ suc n
    → m (a + j) ≡ m (b + j)
both_areas m a b n first rest zero le = ap m (omega arith) ∙ first ∙ ap m {y = b + 0} (omega arith)
both_areas m a b n first rest (suc j) le =
    ap m {y = a + 1 + j} (omega arith) ∙ rest j (omega arith) ∙ ap m (omega arith)

-- `strcmp` of a string of `n` bytes with another area ends within `n + 1` steps, and returns 0 exactly
-- when the other area holds the same string.
strcmp_lem :
    (fuel a b n : ℕ) (m : Bytes)
    → ((j : ℕ) → m j < 2 ^ 8)
    → IsText m a n
    → n < fuel
    → (r : ℕ) × (strcmp fuel a b m ≡ some r) × ((r ≡ 0) ↔ ((j : ℕ) → j ≤ n → m (a + j) ≡ m (b + j)))
unfolding strcmp
strcmp_lem zero a b n m small t lt = absurd (omega arith)
strcmp_lem (suc fuel) a b zero m small t lt =
    let ends : m a ≡ 0 = ap m {y = a + 0} (omega arith) ∙ t.end in
    (
      sub32 (m a) (m b),
      ground (arith, ends),
      (
        λ e j le.
            ap m {y = a} (omega arith)
            ∙ sub32_eq_zero (m a) (m b) (small a) (small b) e
            ∙ ap m (omega arith),
        λ h. omega (arith, head m a b (h 0 (omega arith))),
      ),
    )
strcmp_lem (suc fuel) a b (suc n) m small t lt =
    let goes : m a ≢ 0 = λ e. t.inside 0 (omega arith) (ap m {y = a} (omega arith) ∙ e) in
    elim (Bool-cases (m a == m b)) [
      | inl same ↦
          let (r, e, (to, from)) =
            strcmp_lem fuel (a + 1) (b + 1) n m small (rest-IsText a n t) (omega arith) in
          (
            r,
            rw (ne→== (m a) 0 goes, same) e,
            (
              λ z. both_areas m a b n ((==_iff _ _).0 same) (to z),
              λ h. from (λ j le.
                  ap m {y = a + suc j} (omega arith)
                  ∙ h (suc j) (omega arith)
                  ∙ ap m (omega arith)),
            ),
          )
      | inr other ↦ (
        sub32 (m a) (m b),
        rw (ne→== (m a) 0 goes, other) refl,
        (
          λ z. absurd (==→ne _ _ other (sub32_eq_zero (m a) (m b) (small a) (small b) z)),
          λ h. absurd (==→ne _ _ other (head m a b (h 0 (omega arith)))),
        ),
      )
    ]

-- a write outside a string leaves it a string
update-IsText :
    {m : Bytes} (s n d v : ℕ) → (d < s) ⊎ (s + n < d) → IsText m s n → IsText (update m d v) s n
unfolding update
update-IsText {m} s n d v apart t = record {
  inside = λ i lt. ground (arith, t.inside i lt);
  end = ground (arith, t.end);
}

strcpy-forward_loop :
    (fuel d s n : ℕ) (m : Bytes)
    → IsText m s n
    → (d < s) ⊎ (s + n < d)
    → n < fuel
    → strcpy fuel d s m ≡ some (forward_loop (suc n) d s m)
unfolding strcpy forward_loop
strcpy-forward_loop zero d s n m t apart lt = absurd (omega arith)
strcpy-forward_loop (suc fuel) d s zero m t apart lt =
    let ends : m s ≡ 0 = ap m {y = s + 0} (omega arith) ∙ t.end in rw ends refl
strcpy-forward_loop (suc fuel) d s (suc n) m t apart lt =
    let goes : m s ≢ 0 = λ e. t.inside 0 (omega arith) (ap m {y = s} (omega arith) ∙ e) in
    rw (ne→== (m s) 0 goes) (
      strcpy-forward_loop fuel (d + 1) (s + 1) n (update m d (m s))
        (update-IsText (s + 1) n d (m s) (ground arith) (rest-IsText s n t)) (ground arith)
        (omega arith))

-- `strcpy` of a string of `n` bytes to an area that begins below it or behind it ends within `n + 1`
-- steps, with the string and its end mark at the destination, and every other byte as it was.
strcpy_lem :
    (fuel d s n : ℕ) (m : Bytes)
    → IsText m s n
    → (d < s) ⊎ (s + n < d)
    → n < fuel
    → (m' : Bytes) × (strcpy fuel d s m ≡ some m') × ((a : ℕ) → m' a ≡ moved d s (suc n) m a)
strcpy_lem fuel d s n m t apart lt = (
  forward_loop (suc n) d s m,
  strcpy-forward_loop fuel d s n m t apart lt,
  λ a. elim apart [
    | inl below ↦ forward_loop-moved (suc n) d s m a below
    | inr behind ↦ forward_loop-apart (suc n) d s m a (omega arith)
  ],
)
