-- ===== src/Idt/Gates.antt =====
-- The gates that `idt_init` of gdt_and_idt/idt.c installs, as the processor reads them.
use os_kernel.Base.{
  ℕ, zero, suc, ◌+◌, ◌-◌, ◌^◌, ◌<◌, ◌≡◌, refl, arith, ◌==◌, if◌then◌else◌, update, ap, ◌∙◌, List,
  [], ◌∷◌, Option, none, some, Option-cases, Bool, true, false, ◌||◌, ◌&&◌, ltb, leb, ◌≤◌, ◌⊎◌,
  Bool-cases, inl, inr, ==_iff, ==→ne, sym,
}
use mathlib.Core.Path.{subst}
use os_kernel.Idt.{
  Idt, IdtEntry, idt_set_entry, idt_register_handler, clear_tables, set_gates, register_handlers,
  idt_init, gates,
}
use os_kernel.Idt.Packed.{
  descriptor, gate_offset, gate_selector, gate_type, packed, idt_set_entry-packed, packed-fields,
}

-- the row of a vector in a list of gates, of which each vector has at most one
lookup : List (ℕ × ℕ × ℕ) → ℕ → Option (ℕ × ℕ)
lookup [] v = none
lookup ((vector, handler, type_attr) ∷ rest) v =
    let later = lookup rest v in
    elim later [
      | some row ↦ some row
      | none ↦ if v == vector then some (handler, type_attr) else none
    ]

gate_at : Option (ℕ × ℕ) → IdtEntry → IdtEntry
gate_at none old = old
gate_at (some (handler, type_attr)) old = packed handler 0x08 type_attr

set_gates_lem :
    (rows : List (ℕ × ℕ × ℕ)) (t : Idt) (v : ℕ)
    → (set_gates rows t).idt v ≡ gate_at (lookup rows v) (t.idt v)
unfolding set_gates lookup gate_at update
set_gates_lem [] t v = refl
set_gates_lem ((vector, handler, type_attr) ∷ rest) t v =
    set_gates_lem rest (idt_set_entry t vector handler 0x08 type_attr) v
    ∙ ap (λ (f : ℕ → IdtEntry). gate_at (lookup rest v) (f v))
        (idt_set_entry-packed t vector handler 0x08 type_attr)
    ∙ elim (Option-cases (lookup rest v)) [
      | inl missing ↦
          rw missing (elim (Bool-cases (v == vector)) [
            | inl same ↦ rw same refl
            | inr other ↦ rw other refl
          ])
      | inr (row, there) ↦ rw there refl
    ]

-- `P` from `i` on, `n` times
Each : (ℕ → Type 0) → ℕ → ℕ → Type 0
Each P zero i = Unit {0}
Each P (suc n) i = P i × Each P n (i + 1)

Each-at : (P : ℕ → Type 0) (n i : ℕ) → Each P n i → (v : ℕ) → i ≤ v → v < i + n → P v
unfolding Each
Each-at P zero i all v le lt = absurd (omega arith)
Each-at P (suc n) i (now, later) v le lt = elim (Bool-cases (v == i)) [
  | inl same ↦ subst P (sym ((==_iff _ _).0 same)) now
  | inr other ↦ Each-at P n (i + 1) later v (omega (arith, ==→ne _ _ other)) (omega arith)
]

abbrev exception_type : ℕ → ℕ
exception_type v = if (v == 1) || (v == 3) then 0x8F else 0x8E

lookup-exception :
    (isr irq : ℕ → ℕ) (v : ℕ) → v < 22 → lookup (gates isr irq) v ≡ some (isr v, exception_type v)
unfolding lookup Each
lookup-exception isr irq v lt =
    Each-at (λ v. lookup (gates isr irq) v ≡ some (isr v, exception_type v)) 22 0
      (
        refl,
        (
          refl,
          (
            refl,
            (
              refl,
              (
                refl,
                (
                  refl,
                  (
                    refl,
                    (
                      refl,
                      (
                        refl,
                        (
                          refl,
                          (
                            refl,
                            (
                              refl,
                              (
                                refl,
                                (
                                  refl,
                                  (
                                    refl,
                                    (refl, (refl, (refl, (refl, (refl, (refl, (refl, tt))))))),
                                  ),
                                ),
                              ),
                            ),
                          ),
                        ),
                      ),
                    ),
                  ),
                ),
              ),
            ),
          ),
        ),
      )
      v (omega arith) lt

lookup-irq :
    (isr irq : ℕ → ℕ) (v : ℕ)
    → 32 ≤ v
    → v < 48
    → lookup (gates isr irq) v ≡ some (irq (v - 32), 0x8E)
unfolding lookup Each
lookup-irq isr irq v le lt =
    Each-at (λ v. lookup (gates isr irq) v ≡ some (irq (v - 32), 0x8E)) 16 32
      (
        refl,
        (
          refl,
          (
            refl,
            (
              refl,
              (
                refl,
                (
                  refl,
                  (
                    refl,
                    (refl, (refl, (refl, (refl, (refl, (refl, (refl, (refl, (refl, tt))))))))),
                  ),
                ),
              ),
            ),
          ),
        ),
      )
      v le lt

abbrev has_stub : ℕ → Bool
has_stub v = ltb v 22 || (leb 32 v && ltb v 48)

all_stubs : List (ℕ × ℕ × ℕ) → Bool
all_stubs [] = true
all_stubs ((vector, handler, type_attr) ∷ rest) = has_stub vector && all_stubs rest

stubs : (isr irq : ℕ → ℕ) → all_stubs (gates isr irq) ≡ true
unfolding all_stubs
stubs isr irq = refl

lookup-other :
    (rows : List (ℕ × ℕ × ℕ)) (v : ℕ)
    → all_stubs rows ≡ true
    → has_stub v ≡ false
    → lookup rows v ≡ none
unfolding lookup all_stubs
lookup-other [] v h o = refl
lookup-other ((vector, handler, type_attr) ∷ rest) v h o = elim (Bool-cases (v == vector)) [
  | inl same ↦ absurd (ground (arith, (==_iff _ _).0 same))
  | inr other ↦ rw (lookup-other rest v (ground arith) o, other) refl
]

-- the handler table and the calls that fill it leave the gates alone
idt_init-gate :
    (isr irq : ℕ → ℕ) (address : ℕ) (t : Idt) (v : ℕ)
    → (idt_init isr irq address t).idt v
      ≡ gate_at (lookup (gates isr irq) v) ((clear_tables t).idt v)
unfolding idt_init register_handlers idt_register_handler
idt_init-gate isr irq address t v = set_gates_lem (gates isr irq) _ v

-- the gate of a stub: its address, the kernel's code segment and a type
abbrev pub IsGate : ℕ → ℕ → IdtEntry → Type 0
IsGate handler type e =
    (gate_offset (descriptor e) ≡ handler)
    × (gate_selector (descriptor e) ≡ 0x08)
    × (gate_type (descriptor e) ≡ type)

-- With stubs at 32-bit addresses, after `idt_init`: the gates of the exceptions 0 to 21 lead to their
-- stubs in the kernel's code segment, as trap gates for 1 and 3 and interrupt gates for the rest; the
-- gates of the vectors 32 to 47 lead to the stubs of the interrupt lines 0 to 15 as interrupt gates; and every other
-- gate is zero, hence not present.
pub idt_init-gates :
    (isr irq : ℕ → ℕ) (address : ℕ) (t : Idt)
    → ((k : ℕ) → isr k < 2 ^ 32)
    → ((k : ℕ) → irq k < 2 ^ 32)
    → (v : ℕ)
    → (v < 22
        → IsGate
            (isr v)
            (if (v == 1) || (v == 3) then 0x8F else 0x8E)
            ((idt_init isr irq address t).idt v))
      × (32 ≤ v → v < 48 → IsGate (irq (v - 32)) 0x8E ((idt_init isr irq address t).idt v))
      × (22 ≤ v → (v < 32) ⊎ (48 ≤ v) → descriptor ((idt_init isr irq address t).idt v) ≡ 0)
unfolding gate_at clear_tables
idt_init-gates isr irq address t small_isr small_irq v = rw (idt_init-gate isr irq address t v) (
  λ lt.
      rw (lookup-exception isr irq v lt)
        (packed-fields (isr v) 0x08 (exception_type v) (small_isr v) (omega arith) (ground arith)),
  λ le lt.
      rw (lookup-irq isr irq v le lt)
        (packed-fields (irq (v - 32)) 0x08 0x8E (small_irq (v - 32)) (omega arith) (omega arith)),
  λ le out. rw (lookup-other (gates isr irq) v (stubs isr irq) (ground arith)) refl,
)
