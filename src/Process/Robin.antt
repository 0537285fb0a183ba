-- ===== src/Process/Robin.antt =====
-- Successive calls of `schedule` of scheduler.c on a ring.
use os_kernel.Base.{ℕ, ◌≡◌, ◌∙◌, some, none, inl, inr, List, [], ◌∷◌, ◌++◌}
use os_kernel.Process.{Pcb, running, Scheduler, schedule}
use os_kernel.Process.Ring.{Leads, IsRing, schedule_lem}

-- Calls of `schedule`, one for each block of the list, run these blocks in this order.
abbrev pub Runs : List ℕ → Scheduler → Type 0
Runs [] s = Unit {0}
Runs (p ∷ rest) s =
    ((schedule s).current_process ≡ some p)
    × (((schedule s).pcbs p).state ≡ running)
    × Runs rest (schedule s)

-- blocks with the same links
Leads-ext :
    (head p : ℕ) (rest : List ℕ) (pcbs pcbs' : ℕ → Pcb)
    → ((r : ℕ) → (pcbs' r).next ≡ (pcbs r).next)
    → Leads pcbs head p rest
    → Leads pcbs' head p rest
Leads-ext head p [] pcbs pcbs' same l = same p ∙ l
Leads-ext head p (q ∷ rest) pcbs pcbs' same (e, ne, out, l) =
    (same p ∙ e, ne, out, Leads-ext head q rest pcbs pcbs' same l)

Leads-Runs :
    (head p : ℕ) (rest : List ℕ) (s : Scheduler)
    → s.current_process ≡ some p
    → Leads s.pcbs head p rest
    → Runs (rest ++ (head ∷ [])) s
Leads-Runs head p [] s current l =
    let (runs, state, was, first, same) = schedule_lem s p head (inr (current, l)) in
    (runs, state, tt)
Leads-Runs head p (q ∷ rest) s current (e, ne, out, l) =
    let (runs, state, was, first, same) = schedule_lem s p q (inr (current, e)) in
    (
      runs,
      state,
      Leads-Runs head q rest (schedule s) runs
          (Leads-ext head q rest s.pcbs (schedule s).pcbs same l),
    )

-- When the queue is a ring and nothing runs, successive calls of `schedule` run each block of the
-- ring once, in the order of the queue, and then the head again.
pub schedule-Runs :
    (s : Scheduler) (head : ℕ) (rest : List ℕ)
    → IsRing s (head ∷ rest)
    → s.current_process ≡ none
    → Runs (head ∷ (rest ++ (head ∷ []))) s
schedule-Runs s head rest (first, l) idle =
    let (runs, state, was, kept, same) = schedule_lem s head head (inl (idle, first)) in
    (
      runs,
      state,
      Leads-Runs head head rest (schedule s) runs
          (Leads-ext head head rest s.pcbs (schedule s).pcbs same l),
    )
