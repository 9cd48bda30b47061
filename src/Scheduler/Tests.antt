-- ===== src/Scheduler/Tests.antt =====
-- The scheduler's theorems at concrete states: two tasks of which one runs, and a full run queue.
use ninjastorms.Prelude.{
  ℕ, ◌+◌, ◌≡◌, refl, true, none, some, List, [], ◌∷◌, arith, length, min, replicate,
}
use ninjastorms.Prelude.Circular.{items}
use ninjastorms.Scheduler.{
  Scheduler, versatilepb, max_task_number, ring_buffer_insert, ring_buffer_remove, add_task,
  schedule, start_scheduler, run_first, enter, boot, is_privileged, zero_task,
}
use ninjastorms.Scheduler.Queue.{waiting, IsValid, enqueue, dequeue, queue_refines}
use ninjastorms.Scheduler.Rotation.{line, schedule_times, round_robin, schedule_loses}
use ninjastorms.Scheduler.Reach.{Reach, booted, after, adds, starts, interrupts, Reach-NoneLost}
use ninjastorms.Scheduler.Pending.{NoneLost}
use ninjastorms.Scheduler.Boot.{add_tasks, pointers, add_tasks_at_boot}

-- Supervisor mode, in which the kernel adds its tasks.
abbrev svc : ℕ
svc = 0x13

svc-is_privileged : is_privileged svc ≡ true
unfolding is_privileged
svc-is_privileged = refl

-- Task 0 runs, task 1 waits.
abbrev two_tasks : Scheduler
two_tasks = record {
  task_count = 2;
  buffer_start = 1;
  buffer_end = 2;
  is_running = true;
  tasks = replicate 16 zero_task;
  ring_buffer = some 0 ∷ some 1 ∷ replicate 14 none;
  current_task = some 0;
  errno = 0;
}

two_tasks-IsValid : IsValid two_tasks
two_tasks-IsValid = record {
  start_in = omega arith;
  end_in = omega arith;
  ring_size = refl;
  table_size = refl;
  count_le = omega arith;
}

two_tasks_wait : waiting two_tasks ≡ some 1 ∷ []
unfolding items
two_tasks_wait = refl

-- Task 15 runs, the others wait.
abbrev all_tasks : Scheduler
all_tasks = record {
  task_count = 16;
  buffer_start = 0;
  buffer_end = 15;
  is_running = true;
  tasks = replicate 16 zero_task;
  ring_buffer =
      some 0
      ∷ some 1
      ∷ some 2
      ∷ some 3
      ∷ some 4
      ∷ some 5
      ∷ some 6
      ∷ some 7
      ∷ some 8
      ∷ some 9
      ∷ some 10
      ∷ some 11
      ∷ some 12
      ∷ some 13
      ∷ some 14
      ∷ none
      ∷ [];
  current_task = some 15;
  errno = 0;
}

all_tasks-IsValid : IsValid all_tasks
all_tasks-IsValid = record {
  start_in = omega arith;
  end_in = omega arith;
  ring_size = refl;
  table_size = refl;
  count_le = omega arith;
}

all_tasks_wait : length (waiting all_tasks) + 1 ≡ max_task_number
unfolding items
all_tasks_wait = refl

queue_refines_example :
    let inserted = ring_buffer_insert (some 0) two_tasks in
    let (first, removed) = ring_buffer_remove two_tasks in
    (waiting inserted ≡ enqueue (some 0) (waiting two_tasks))
    × ((first, waiting removed) ≡ dequeue (waiting two_tasks))
    × IsValid inserted
    × IsValid removed
queue_refines_example = queue_refines (some 0) two_tasks two_tasks-IsValid

round_robin_example : line (schedule_times 1 two_tasks) ≡ some 1 ∷ some 0 ∷ []
unfolding items
round_robin_example =
    round_robin (some 0 ∷ []) (some 1 ∷ []) two_tasks two_tasks-IsValid refl (omega arith)

schedule_loses_example : line (schedule all_tasks) ≡ waiting all_tasks
schedule_loses_example = schedule_loses all_tasks all_tasks-IsValid all_tasks_wait

-- A task is added and the scheduler starts.
abbrev one_added : Scheduler
one_added = (add_task versatilepb svc 0x100 boot).1

abbrev one_runs : Scheduler
one_runs = (start_scheduler versatilepb one_added).0

one_added_waits : waiting one_added ≡ some 0 ∷ []
unfolding items add_task ring_buffer_insert enter is_privileged
one_added_waits = refl

one_runs-is_running : one_runs.is_running ≡ true
unfolding add_task ring_buffer_insert enter is_privileged start_scheduler run_first
    ring_buffer_remove
one_runs-is_running = refl

-- Another task is added, and a timer interrupt comes.
abbrev history : Scheduler
history = schedule (add_task versatilepb svc 0x200 one_runs).1

history-count : history.task_count ≡ 2
unfolding add_task ring_buffer_insert enter is_privileged start_scheduler run_first
    ring_buffer_remove schedule
history-count = refl

history-is_running : (add_task versatilepb svc 0x200 one_runs).1.is_running ≡ true
unfolding add_task ring_buffer_insert enter is_privileged start_scheduler run_first
    ring_buffer_remove
history-is_running = refl

history-Reach : Reach versatilepb history
history-Reach =
    after
      (after
        (after (after booted (adds boot svc 0x100)) (starts one_added (λ e. cc one_added_waits)))
        (adds one_runs svc 0x200))
      (interrupts _ history-is_running)

Reach-NoneLost_example : NoneLost history
Reach-NoneLost_example =
    Reach-NoneLost versatilepb history history-Reach (omega (arith, history-count))

-- Sixteen entry points.
abbrev entries : List ℕ
entries = replicate 16 0x8000

add_tasks_at_boot_example :
    let (rs, s) = add_tasks versatilepb svc entries boot in
    (rs ≡ replicate (length entries) 0)
    × (s.task_count ≡ length entries)
    × (waiting s ≡ pointers (min (length entries) 15) 0)
add_tasks_at_boot_example =
    add_tasks_at_boot versatilepb svc entries svc-is_privileged (omega arith)
