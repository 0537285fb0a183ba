-- ===== src/Process/Ring.antt =====
-- The ready queue of scheduler.c as a ring.
use os_kernel.Base.{
  ℕ, zero, suc, ◌<◌, ◌≤◌, ◌≡◌, ◌≢◌, ◌⊎◌, inl, inr, refl, arith, ◌==◌, update, update_self,
  update_ne, ap, sym, ◌∙◌, Bool-cases, ==_iff, ==→ne, ne→==, none, some, List, [], ◌∷◌, ◌++◌,
  length,
}
use os_kernel.Process.{
  Pcb, ProcessState, ready, running, Scheduler, set_next, set_state, find_end, add_to_ready_queue,
  start_process, schedule,
}

-- `x` is none of the addresses
abbrev pub IsOutside : ℕ → List ℕ → Type 0
IsOutside x [] = Unit {0}
IsOutside x (y ∷ ys) = (x ≢ y) × IsOutside x ys

-- From the block `p` the links lead through the blocks `rest`, all different, and then to `head`.
abbrev pub Leads : (ℕ → Pcb) → ℕ → ℕ → List ℕ → Type 0
Leads pcbs head p [] = (pcbs p).next ≡ some head
Leads pcbs head p (q ∷ rest) =
    ((pcbs p).next ≡ some q) × (q ≢ head) × IsOutside p (q ∷ rest) × Leads pcbs head q rest

-- The queue is a ring of different blocks, in their order from the head on.
abbrev pub IsRing : Scheduler → List ℕ → Type 0
IsRing s [] = s.ready_queue_head ≡ none
IsRing s (head ∷ rest) = (s.ready_queue_head ≡ some head) × Leads s.pcbs head head rest

last : ℕ → List ℕ → ℕ
last p [] = p
last p (q ∷ rest) = last q rest

find_end-last :
    (fuel head p : ℕ) (rest : List ℕ) (pcbs : ℕ → Pcb)
    → Leads pcbs head p rest
    → length rest < fuel
    → find_end fuel head pcbs p ≡ some (last p rest)
unfolding find_end last
find_end-last zero head p rest pcbs l lt = absurd (omega arith)
find_end-last (suc fuel) head p [] pcbs l lt = rw (find_end, l) (ground arith)
find_end-last (suc fuel) head p (q ∷ rest) pcbs (e, ne, out, l) lt =
    rw (find_end, e, ne→== q head ne) (find_end-last fuel head q rest pcbs l (omega arith))

set_next_self : (a b : ℕ) (pcbs : ℕ → Pcb) → (set_next a b pcbs a).next ≡ some b
unfolding set_next
set_next_self a b pcbs = ap (λ x. x.next) (update_self pcbs a (record (pcbs a) { next = some b }))

set_next_ne :
    (a b : ℕ) (pcbs : ℕ → Pcb) (r : ℕ) → r ≢ a → (set_next a b pcbs r).next ≡ (pcbs r).next
unfolding set_next
set_next_ne a b pcbs r h =
    ap (λ x. x.next) (update_ne pcbs a (record (pcbs a) { next = some b }) r h)

IsOutside-last : (x p : ℕ) (rest : List ℕ) → IsOutside x (p ∷ rest) → x ≢ last p rest
unfolding last
IsOutside-last x p [] (ne, _) = ne
IsOutside-last x p (q ∷ rest) (ne, out) = IsOutside-last x q rest out

IsOutside-append :
    (x y : ℕ) (rest : List ℕ) → IsOutside x rest → x ≢ y → IsOutside x (rest ++ (y ∷ []))
IsOutside-append x y [] out ne = (ne, tt)
IsOutside-append x y (q ∷ rest) (h, out) ne = (h, IsOutside-append x y rest out ne)

-- linking in a new block behind the last one
Leads-set_next :
    (head p new : ℕ) (rest : List ℕ) (pcbs : ℕ → Pcb)
    → Leads pcbs head p rest
    → new ≢ head
    → IsOutside new (p ∷ rest)
    → Leads (set_next new head (set_next (last p rest) new pcbs)) head p (rest ++ (new ∷ []))
unfolding last
Leads-set_next head p new [] pcbs l nh (out, _) = (
  set_next_ne new head (set_next p new pcbs) p (λ e. out (sym e)) ∙ set_next_self p new pcbs,
  nh,
  ((λ e. out (sym e)), tt),
  set_next_self new head (set_next p new pcbs),
)
Leads-set_next head p new (q ∷ rest) pcbs (e, ne, (pq, o), l) nh (out, outs) = (
  set_next_ne new head (set_next (last q rest) new pcbs) p (λ e. out (sym e))
      ∙ set_next_ne (last q rest) new pcbs p (IsOutside-last p q rest (pq, o))
      ∙ e,
  ne,
  (pq, IsOutside-append p new rest o (λ e. out (sym e))),
  Leads-set_next head q new rest pcbs l nh outs,
)

-- On a queue that is a ring, `add_to_ready_queue` with a new block ends, once it may visit each block,
-- and leaves the ring with that block at its end, or a ring of the block alone if the queue was empty.
pub add_to_ready_queue_lem :
    (fuel pcb : ℕ) (s : Scheduler) (blocks : List ℕ)
    → IsRing s blocks
    → IsOutside pcb blocks
    → length blocks ≤ fuel
    → (s' : Scheduler) × (add_to_ready_queue fuel pcb s ≡ some s')
      × IsRing s' (blocks ++ (pcb ∷ []))
      × (s'.current_process ≡ s.current_process)
unfolding add_to_ready_queue
add_to_ready_queue_lem fuel pcb s [] empty out le = (
  record s { ready_queue_head = some pcb; pcbs = set_next pcb pcb s.pcbs },
  rw (add_to_ready_queue, empty) refl,
  (refl, set_next_self pcb pcb s.pcbs),
  refl,
)
add_to_ready_queue_lem fuel pcb s (head ∷ rest) (first, l) (ne, out) le = (
  record s {
    ready_queue_head = some head;
    pcbs = set_next pcb head (set_next (last head rest) pcb s.pcbs);
  },
  rw (add_to_ready_queue, first, find_end-last fuel head head rest s.pcbs l (omega arith))
      (ap
        (λ x. some (record s {
          ready_queue_head = x;
          pcbs = set_next pcb head (set_next (last head rest) pcb s.pcbs);
        }))
        first),
  (refl, Leads-set_next head head pcb rest s.pcbs l ne (ne, out)),
  refl,
)

set_state_self : (p : ℕ) (st : ProcessState) (pcbs : ℕ → Pcb) → (set_state p st pcbs p).state ≡ st
unfolding set_state
set_state_self p st pcbs = ap (λ x. x.state) (update_self pcbs p (record (pcbs p) { state = st }))

set_state_ne :
    (p : ℕ) (st : ProcessState) (pcbs : ℕ → Pcb) (r : ℕ)
    → r ≢ p
    → (set_state p st pcbs r).state ≡ (pcbs r).state
unfolding set_state
set_state_ne p st pcbs r h =
    ap (λ x. x.state) (update_ne pcbs p (record (pcbs p) { state = st }) r h)

set_state-next :
    (p : ℕ) (st : ProcessState) (pcbs : ℕ → Pcb) (r : ℕ)
    → (set_state p st pcbs r).next ≡ (pcbs r).next
unfolding set_state
set_state-next p st pcbs r = elim (Bool-cases (r == p)) [
  | inl same ↦
      let here = (==_iff _ _).0 same in
      ap (λ i. (update pcbs p (record (pcbs p) { state = st }) i).next) here
      ∙ ap (λ x. x.next) (update_self pcbs p (record (pcbs p) { state = st }))
      ∙ sym (ap (λ i. (pcbs i).next) here)
  | inr other ↦
      ap (λ x. x.next) (update_ne pcbs p (record (pcbs p) { state = st }) r (==→ne _ _ other))
]

schedule-idle :
    (s : Scheduler) (q : ℕ)
    → s.current_process ≡ none
    → s.ready_queue_head ≡ some q
    → schedule s ≡ start_process (some q) s.pcbs s
unfolding schedule start_process
schedule-idle s q idle first = rw (schedule, idle) (ap (λ x. start_process x s.pcbs s) first)

schedule-next :
    (s : Scheduler) (p q : ℕ)
    → s.current_process ≡ some p
    → (s.pcbs p).next ≡ some q
    → schedule s ≡ start_process (some q) (set_state p ready s.pcbs) s
unfolding schedule start_process
schedule-next s p q current link =
    rw (schedule, current) (ap (λ x. start_process x (set_state p ready s.pcbs) s) link)

-- `schedule` with nothing running starts the head of the queue; otherwise it makes the running process
-- ready and runs the one that its link leads to. Either way no link and no head changes.
pub schedule_lem :
    (s : Scheduler) (p q : ℕ)
    → ((s.current_process ≡ none) × (s.ready_queue_head ≡ some q))
      ⊎ ((s.current_process ≡ some p) × ((s.pcbs p).next ≡ some q))
    → ((schedule s).current_process ≡ some q)
      × (((schedule s).pcbs q).state ≡ running)
      × (s.current_process ≡ some p → p ≢ q → ((schedule s).pcbs p).state ≡ ready)
      × ((schedule s).ready_queue_head ≡ s.ready_queue_head)
      × ((r : ℕ) → ((schedule s).pcbs r).next ≡ (s.pcbs r).next)
unfolding start_process
schedule_lem s p q h = elim h [
  | inl (idle, first) ↦ rw (schedule-idle s q idle first) (
    refl,
    set_state_self q running s.pcbs,
    λ e ne. absurd (cc),
    refl,
    set_state-next q running s.pcbs,
  )
  | inr (current, link) ↦ rw (schedule-next s p q current link) (
    refl,
    set_state_self q running (set_state p ready s.pcbs),
    λ e ne. set_state_ne q running (set_state p ready s.pcbs) p ne ∙ set_state_self p ready s.pcbs,
    refl,
    λ r. set_state-next q running (set_state p ready s.pcbs) r ∙ set_state-next p ready s.pcbs r,
  )
]
