-- ===== src/Scheduler/Reach.antt =====
-- Histories of calls on the scheduler of kernel/scheduler.c, and what every call keeps.
use ninjastorms.Prelude.{
  ℕ, ◌+◌, ◌<◌, ◌≤◌, ◌≡◌, ◌≢◌, refl, sym, ◌∙◌, ap, true, false, none, some, List, [], ◌∷◌, ◌++◌,
  arith, length, length-set, set, Bool-cases, ◌⊎◌, inl, inr,
}
use ninjastorms.Prelude.Circular.{items_of_eq}
use native.Mathlib.Decide.{dec_lt}
use ninjastorms.Scheduler.{
  Task, TaskPtr, Scheduler, Board, max_task_number, schedule, add_task, start_scheduler, run_first,
  boot, is_privileged,
}
use ninjastorms.Scheduler.Queue.{waiting, IsValid, enqueue, dequeue, remove-IsValid, remove-dequeue}
use ninjastorms.Scheduler.Tasks.{add_task_lem, add_task-refuses, add_task-IsValid}
use ninjastorms.Scheduler.Rotation.{
  line, remove_frame, schedule-IsValid, schedule_frame, schedule_rotates,
}
use ninjastorms.Scheduler.Pending.{
  pending, occurrences, NoneLost, NoneLost-append, NoneLost-rotate, NoneLost-errno, NoneLost-same,
  pending_on, pending_off,
}

-- The calls that change the scheduler: a task is added in any processor mode, the scheduler starts
-- with a task to run, and once it runs an interrupt saves the registers of a task, and the timer calls
-- `schedule`.
pub data Step (b : Board) : Scheduler → Scheduler → Type 0 where
  adds : (s : Scheduler) (cpsr entry : ℕ) → Step b s (add_task b cpsr entry s).1
  starts : (s : Scheduler) → waiting s ≢ [] → Step b s (start_scheduler b s).0
  interrupts : (s : Scheduler) → s.is_running ≡ true → Step b s (schedule s)
  saves :
      (s : Scheduler) (i : ℕ) (task : Task)
      → s.is_running ≡ true
      → Step b s (record s { tasks = set s.tasks i task })

pub data Reach (b : Board) : Scheduler → Type 0 where
  booted : Reach b boot
  after : {s t : Scheduler} → Reach b s → Step b s t → Reach b t

abbrev Inv : Scheduler → Type 0
Inv s = IsValid s × (s.task_count < max_task_number → NoneLost s)

adds-pending :
    (b : Board) (cpsr entry : ℕ) (s : Scheduler)
    → IsValid s
    → NoneLost s
    → is_privileged cpsr ≡ true
    → s.task_count + 1 < max_task_number
    → pending (add_task b cpsr entry s).1 ≡ pending s ++ some s.task_count ∷ []
unfolding enqueue
adds-pending b cpsr entry s v n p h =
    let (_, _, queue, _, _, current, running) = add_task_lem b cpsr entry s v p (omega arith) in
    elim (Bool-cases s.is_running) [
      | inl on ↦ ground (arith, queue, current, running, n.counted)
      | inr off ↦ ground (arith, queue, running, n.counted)
    ]

refused-Inv :
    (b : Board) (cpsr entry : ℕ) (s : Scheduler)
    → Inv s
    → (is_privileged cpsr ≡ false) ⊎ (max_task_number ≤ s.task_count)
    → Inv (add_task b cpsr entry s).1
refused-Inv b cpsr entry s (v, n) why = (
  add_task-IsValid b cpsr entry s v,
  rw (add_task-refuses b cpsr entry s why) (λ h. NoneLost-errno s _ (n h)),
)

adds-Inv : (b : Board) (cpsr entry : ℕ) (s : Scheduler) → Inv s → Inv (add_task b cpsr entry s).1
adds-Inv b cpsr entry s (v, n) = elim (Bool-cases (is_privileged cpsr)) [
  | inr user ↦ refused-Inv b cpsr entry s (v, n) (inl user)
  | inl p ↦ elim (dec_lt s.task_count max_task_number) [
    | no full ↦ refused-Inv b cpsr entry s (v, n) (inr (omega arith))
    | yes free ↦ (
      add_task-IsValid b cpsr entry s v,
      λ h.
          let (_, count, _, _, _, _, _) = add_task_lem b cpsr entry s v p free in
          let n' = n (omega arith) in
          NoneLost-append s _ n' (adds-pending b cpsr entry s v n' p (omega (arith, count))) count,
    )
  ]
]

interrupts-Inv : (s : Scheduler) → s.is_running ≡ true → Inv s → Inv (schedule s)
interrupts-Inv s on (v, n) = (
  schedule-IsValid s v,
  λ h.
      let (count, _, running) = schedule_frame s in
      let n' = n (omega (arith, count)) in
      let fits : length (waiting s) + 1 < max_task_number =
        omega (arith, n'.counted, ap length (pending_on s on), count) in
      NoneLost-rotate s (schedule s) s.current_task (waiting s) n' (pending_on s on)
        (pending_on (schedule s) (running ∙ on) ∙ schedule_rotates s v fits) count,
)

run_first-IsValid : (s : Scheduler) → IsValid s → IsValid (run_first s)
unfolding run_first
run_first-IsValid s v = let v' = remove-IsValid s v in ground arith

dequeue_of_ne_nil : (q : List TaskPtr) → q ≢ [] → (dequeue q).0 ∷ (dequeue q).1 ≡ q
unfolding dequeue
dequeue_of_ne_nil [] h = absurd (h refl)
dequeue_of_ne_nil (x ∷ q) h = refl

-- Starting takes the first waiting task out of the queue and runs it.
line-run_first : (s : Scheduler) → IsValid s → waiting s ≢ [] → line (run_first s) ≡ waiting s
unfolding run_first
line-run_first s v ne = ground (arith, remove-dequeue s v, dequeue_of_ne_nil (waiting s) ne)

run_first_frame :
    (s : Scheduler) → ((run_first s).task_count ≡ s.task_count) × ((run_first s).is_running ≡ true)
unfolding run_first
run_first_frame s = ground (arith, remove_frame s)

start_on : (b : Board) (s : Scheduler) → s.is_running ≡ true → (start_scheduler b s).0 ≡ s
unfolding start_scheduler
start_on b s on = ground arith

start_off :
    (b : Board) (s : Scheduler) → s.is_running ≡ false → (start_scheduler b s).0 ≡ run_first s
unfolding start_scheduler
start_off b s off = ground arith

starts-Inv : (b : Board) (s : Scheduler) → waiting s ≢ [] → Inv s → Inv (start_scheduler b s).0
starts-Inv b s ne (v, n) = elim (Bool-cases s.is_running) [
  | inl on ↦ rw (start_on b s on) (v, n)
  | inr off ↦ rw (start_off b s off) (
    run_first-IsValid s v,
    λ h.
        let (count, running) = run_first_frame s in
        NoneLost-same s (run_first s) (n (omega (arith, count)))
          (pending_on (run_first s) running ∙ line-run_first s v ne ∙ sym (pending_off s off))
          count,
  )
]

pub boot-IsValid : IsValid boot
boot-IsValid = record {
  start_in = omega arith;
  end_in = omega arith;
  ring_size = refl;
  table_size = refl;
  count_le = omega arith;
}

pub boot-waiting : waiting boot ≡ []
boot-waiting = items_of_eq max_task_number none boot.ring_buffer 0

boot-Inv : Inv boot
unfolding occurrences
boot-Inv = (
  boot-IsValid,
  λ h. record {
    counted = ap length boot-waiting;
    once = λ i. ap (occurrences i) boot-waiting ∙ ground arith;
  },
)

saves-Inv :
    (s : Scheduler) (i : ℕ) (task : Task) → Inv s → Inv (record s { tasks = set s.tasks i task })
saves-Inv s i task (v, n) = (
  record {
    start_in = v.start_in;
    end_in = v.end_in;
    ring_size = v.ring_size;
    table_size = length-set s.tasks i task ∙ v.table_size;
    count_le = v.count_le;
  },
  λ h. record { counted = (n h).counted; once = (n h).once },
)

Step-Inv : (b : Board) (s t : Scheduler) → Step b s t → Inv s → Inv t
Step-Inv b s t (adds _ cpsr entry) h = adds-Inv b cpsr entry s h
Step-Inv b s t (starts _ ne) h = starts-Inv b s ne h
Step-Inv b s t (interrupts _ on) h = interrupts-Inv s on h
Step-Inv b s t (saves _ i task on) h = saves-Inv s i task h

Reach-Inv : (b : Board) {s : Scheduler} → Reach b s → Inv s
Reach-Inv b booted = boot-Inv
Reach-Inv b (after {s} {t} r st) = Step-Inv b s t st (Reach-Inv b r)

-- In every history with at most 15 tasks, each task that was added waits or runs, exactly once, and
-- nothing else does: as many tasks are pending as were added.
pub Reach-NoneLost :
    (b : Board) (s : Scheduler) → Reach b s → s.task_count < max_task_number → NoneLost s
Reach-NoneLost b s r h = (Reach-Inv b r).1 h

-- In every history the indices of the run queue stay inside the arrays, and so does the number of
-- tasks.
pub Reach-IsValid : (b : Board) (s : Scheduler) → Reach b s → IsValid s
Reach-IsValid b s r = (Reach-Inv b r).0
