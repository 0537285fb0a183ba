-- ===== src/Idt/Handlers.antt =====
-- The table of C handlers that `idt_init` of gdt_and_idt/idt.c leaves.
use os_kernel.Base.{
  ℕ, zero, suc, ◌+◌, ◌<◌, ◌≡◌, refl, arith, ◌==◌, leb, ltb, ◌&&◌, if◌then◌else◌, update, Option,
  none, some, Option-cases, le→leb, lt→ltb, Bool-cases, ==_iff, ==→ne, sym, List, [], ◌∷◌, ◌∙◌, inl,
  inr, ap,
}
use os_kernel.Idt.{
  Idt, Handler, isr_unhandled_interrupt, isr_divide_by_zero, isr_invalid_opcode, isr_double_fault,
  isr_general_protection, isr_page_fault, irq0_timer_handler, idt_entry_count, idt_register_handler,
  clear_tables, gates, set_gates, register_handlers, fill_loop, idt_init, idt_set_entry,
}

-- the handler of each vector after `idt_init`
abbrev pub handler_of : ℕ → Handler
handler_of v =
    if v == 0
    then isr_divide_by_zero
    else if v == 6
    then isr_invalid_opcode
    else if v == 8
    then isr_double_fault
    else if v == 13
    then isr_general_protection
    else if v == 14
    then isr_page_fault
    else if v == 32
    then irq0_timer_handler
    else isr_unhandled_interrupt

-- a missing handler among the vectors in a range becomes the general one
filled : Option Handler → Option Handler
filled none = some isr_unhandled_interrupt
filled (some h) = some h

fill_loop_lem :
    (left i : ℕ) (handlers : ℕ → Option Handler) (v : ℕ)
    → fill_loop left i handlers v
      ≡ (if leb i v && ltb v (i + left) then filled (handlers v) else handlers v)
unfolding fill_loop filled update
fill_loop_lem zero i handlers v = ground arith
fill_loop_lem (suc left) i handlers v = elim (Option-cases (handlers i)) [
  | inl missing ↦ rw missing (
      fill_loop_lem left (i + 1) _ v ∙ elim (Bool-cases (v == i)) [
        | inl same ↦
            let here : v ≡ i = (==_iff _ _).0 same in
            let now : filled (handlers v) ≡ some isr_unhandled_interrupt =
              ap (λ x. filled (handlers x)) here ∙ ap filled missing in
            rw same (ground (arith, here, now))
        | inr other ↦ rw other (ground (arith, ==→ne _ _ other))
      ])
  | inr (h, there) ↦ rw there (
      fill_loop_lem left (i + 1) handlers v ∙ elim (Bool-cases (v == i)) [
        | inl same ↦
            let here : v ≡ i = (==_iff _ _).0 same in
            let now : filled (handlers v) ≡ handlers v =
              ap (λ x. filled (handlers x)) here
              ∙ ap filled there
              ∙ sym (ap handlers here ∙ there) in
            ground (arith, here, now)
        | inr other ↦ ground (arith, ==→ne _ _ other)
      ])
]

set_gates-isr_handlers :
    (rows : List (ℕ × ℕ × ℕ)) (t : Idt) → (set_gates rows t).isr_handlers ≡ t.isr_handlers
unfolding set_gates idt_set_entry
set_gates-isr_handlers [] t = refl
set_gates-isr_handlers ((v, h, a) ∷ rows) t =
    set_gates-isr_handlers rows (idt_set_entry t v h 0x08 a)

register_handlers-filled :
    (t : Idt) (v : ℕ)
    → t.isr_handlers v ≡ none
    → filled ((register_handlers t).isr_handlers v) ≡ some (handler_of v)
unfolding register_handlers idt_register_handler update filled
register_handlers-filled t v h = ground (arith, ap filled h)

-- After `idt_init` each of the 256 vectors has a C handler: the exceptions 0, 6, 8, 13 and 14 have
-- theirs, vector 32 that of the timer, and all others the general one, whatever was registered before.
pub idt_init-handlers :
    (isr irq : ℕ → ℕ) (address : ℕ) (t : Idt) (v : ℕ)
    → v < idt_entry_count
    → (idt_init isr irq address t).isr_handlers v ≡ some (handler_of v)
unfolding idt_init clear_tables
idt_init-handlers isr irq address t v lt =
    fill_loop_lem idt_entry_count 0 _ v
    ∙ rw (le→leb 0 v (omega arith), lt→ltb v idt_entry_count lt)
        (register_handlers-filled _ v
          (ap (λ (f : ℕ → Option Handler). f v) (set_gates-isr_handlers (gates isr irq) _)))
