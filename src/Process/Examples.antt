-- ===== src/Process/Examples.antt =====
-- The theorems on the ready queue with a queue of two processes.
use os_kernel.Base.{
  ℕ, ◌≡◌, refl, arith, ◌==◌, if◌then◌else◌, Option, none, some, [], ◌∷◌, true, ◌⊎◌,
}
use os_kernel.Process.{Pcb, ProcessState, ready, running, Scheduler, add_to_ready_queue}
use os_kernel.Kmalloc.{Heap}
use os_kernel.Kmalloc.Blocks.{allocate}
use os_kernel.Process.Create.{Processes, pcb_size, create_process, Creates, create_process_lem}
use os_kernel.Process.Robin.{Runs, schedule-Runs}
use os_kernel.Process.Ring.{IsRing, add_to_ready_queue_lem}

abbrev block : ProcessState → Option ℕ → Pcb
block st next = record {
  pid = 1;
  state = st;
  eax = 0;
  ebx = 0;
  ecx = 0;
  edx = 0;
  esi = 0;
  edi = 0;
  esp = 0;
  ebp = 0;
  eip = 0;
  eflags = 0x202;
  next = next;
}

-- the blocks 10 and 20 link to each other, and 10 runs
abbrev two : Scheduler
two = record {
  pcbs = λ p.
      if p == 10
      then block running (some 20)
      else if p == 20
      then block ready (some 10)
      else block ready none;
  current_process = some 10;
  ready_queue_head = some 10;
}

add_to_ready_queue_lem_example :
    (s' : Scheduler) × (add_to_ready_queue 2 30 two ≡ some s')
    × IsRing s' (10 ∷ 20 ∷ 30 ∷ [])
    × (s'.current_process ≡ some 10)
add_to_ready_queue_lem_example =
    add_to_ready_queue_lem 2 30 two (10 ∷ 20 ∷ [])
      (refl, (refl, λ e. absurd (omega arith), (λ e. absurd (omega arith), tt), refl))
      (λ e. absurd (omega arith), (λ e. absurd (omega arith), tt)) (omega arith)

-- nothing runs yet
abbrev idle : Scheduler
idle = record two { current_process = none }

schedule-Runs_example : Runs (10 ∷ 20 ∷ 10 ∷ []) idle
schedule-Runs_example =
    schedule-Runs idle 10 (20 ∷ [])
      (refl, (refl, λ e. absurd (omega arith), (λ e. absurd (omega arith), tt), refl)) refl

-- one free block of 100 bytes behind its header
abbrev heap : Heap
heap = record {
  headers = λ a. record { size = 100; is_free = 1; next = none };
  heap_start = some 1000;
}

abbrev processes : Processes
processes = record { heap = heap; pcbs = λ p. block ready none; next_pid = 1 }

create_process_lem_example :
    ((allocate pcb_size 1000 ((100, true) ∷ []) ≡ none)
      × (create_process 2 0x400000 processes ≡ some (none, processes)))
    ⊎ Creates 0x400000 1000 1112 ((100, true) ∷ []) processes (create_process 2 0x400000 processes)
create_process_lem_example =
    create_process_lem 2 0x400000 1000 1112 processes ((100, true) ∷ [])
      (record { begins = refl; chain = (refl, refl); small = omega arith }) (omega arith)
