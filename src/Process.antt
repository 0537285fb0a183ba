-- ===== src/Process.antt =====
-- pcb.h and scheduler.c: the process control blocks and the circular ready queue. A pointer to a block is
-- an address, and `none` is NULL.
pub mod Ring
pub mod Create
pub mod Robin
mod Examples
use os_kernel.Base.{ℕ, zero, suc, update, Option, none, some, ◌==◌, if◌then◌else◌}

-- `process_state_t`
pub data ProcessState : Type 0 where
  ready running blocked terminated : ProcessState

-- `pcb_t`
pub record Pcb : Type 0 where
  pub pid : ℕ
  pub state : ProcessState
  pub eax : ℕ
  pub ebx : ℕ
  pub ecx : ℕ
  pub edx : ℕ
  pub esi : ℕ
  pub edi : ℕ
  pub esp : ℕ
  pub ebp : ℕ
  pub eip : ℕ
  pub eflags : ℕ
  pub next : Option ℕ

-- The blocks in memory and the two static variables.
pub record Scheduler : Type 0 where
  pub pcbs : ℕ → Pcb
  pub current_process : Option ℕ
  pub ready_queue_head : Option ℕ

unfoldable pub set_next : ℕ → ℕ → (ℕ → Pcb) → ℕ → Pcb
set_next p q pcbs = update pcbs p (record (pcbs p) { next = some q })

unfoldable pub set_state : ℕ → ProcessState → (ℕ → Pcb) → ℕ → Pcb
set_state p st pcbs = update pcbs p (record (pcbs p) { state = st })

-- The loop that looks for the end of the queue from `temp` on. It has no bound in C: `fuel` is the number
-- of blocks it may visit, and `none` that they were not enough or that a link is NULL.
unfoldable pub find_end : ℕ → ℕ → (ℕ → Pcb) → ℕ → Option ℕ
find_end zero head pcbs temp = none
find_end (suc fuel) head pcbs temp = elim (pcbs temp).next [
  | none ↦ none
  | some next ↦ let rest = find_end fuel head pcbs next in if next == head then some temp else rest
]

unfoldable pub add_to_ready_queue : ℕ → ℕ → Scheduler → Option Scheduler
add_to_ready_queue fuel pcb s = elim s.ready_queue_head [
  | none ↦ some (record s { ready_queue_head = some pcb; pcbs = set_next pcb pcb s.pcbs })
  | some head ↦ elim (find_end fuel head s.pcbs head) [
    | none ↦ none
    | some temp ↦ some (record s { pcbs = set_next pcb head (set_next temp pcb s.pcbs) })
  ]
]

-- The part of `schedule` behind the choice of the process. The last call, of `context_switch`, is assembly
-- and left out.
unfoldable pub start_process : Option ℕ → (ℕ → Pcb) → Scheduler → Scheduler
start_process none pcbs s = record s { pcbs = pcbs; current_process = none }
start_process (some p) pcbs s = record s {
  pcbs = set_state p running pcbs;
  current_process = some p;
}

unfoldable pub schedule : Scheduler → Scheduler
schedule s = elim s.current_process [
  | none ↦ start_process s.ready_queue_head s.pcbs s
  | some p ↦ start_process (s.pcbs p).next (set_state p ready s.pcbs) s
]
