-- ===== src/Scheduler/Queue.antt =====
-- The run queue of kernel/scheduler.c as a first-in first-out queue.
use ninjastorms.Prelude.{
  ◌+◌, ◌<◌, ◌≤◌, ◌≡◌, none, List, [], ◌∷◌, ◌++◌, arith, length, length-set, if◌then◌else◌, ltb,
}
use ninjastorms.Prelude.Circular.{
  items, items-set, items_of_ne, items_of_eq, items-full_iff, length-items-lt,
}
use ninjastorms.Scheduler.{
  TaskPtr, Scheduler, max_task_number, ring_buffer_insert, ring_buffer_remove,
}

-- The tasks that wait, the next one to run first.
abbrev pub waiting : Scheduler → List TaskPtr
waiting s = items max_task_number none s.ring_buffer s.buffer_start s.buffer_end

-- The indices stay inside the arrays, which keep their sizes.
pub record IsValid (s : Scheduler) : Type 0 where
  pub start_in : s.buffer_start < max_task_number
  pub end_in : s.buffer_end < max_task_number
  pub ring_size : length s.ring_buffer ≡ max_task_number
  pub table_size : length s.tasks ≡ max_task_number
  pub count_le : s.task_count ≤ max_task_number

-- The queue that the ring buffer stands for: it takes a task in while it holds fewer than 15.
unfoldable pub enqueue : TaskPtr → List TaskPtr → List TaskPtr
enqueue task q = if ltb (length q + 1) max_task_number then q ++ task ∷ [] else q

unfoldable pub dequeue : List TaskPtr → TaskPtr × List TaskPtr
dequeue [] = (none, [])
dequeue (task ∷ q) = (task, q)

pub insert-IsValid :
    (task : TaskPtr) (s : Scheduler) → IsValid s → IsValid (ring_buffer_insert task s)
unfolding ring_buffer_insert
insert-IsValid task s v = ground (arith, length-set s.ring_buffer s.buffer_end task)

pub remove-IsValid : (s : Scheduler) → IsValid s → IsValid (ring_buffer_remove s).1
unfolding ring_buffer_remove
remove-IsValid s v = ground arith

-- `ring_buffer_insert` as `enqueue`.
pub insert-enqueue :
    (task : TaskPtr) (s : Scheduler)
    → IsValid s
    → waiting (ring_buffer_insert task s) ≡ enqueue task (waiting s)
unfolding ring_buffer_insert enqueue
insert-enqueue task s v = ground (
  arith,
  items-set max_task_number none s.ring_buffer task s.buffer_start s.buffer_end,
  items-full_iff max_task_number none s.ring_buffer s.buffer_start s.buffer_end,
  length-items-lt max_task_number none s.ring_buffer s.buffer_start s.buffer_end,
)

-- `ring_buffer_remove` as `dequeue`.
pub remove-dequeue :
    (s : Scheduler)
    → IsValid s
    → let (task, s') = ring_buffer_remove s in (task, waiting s') ≡ dequeue (waiting s)
unfolding ring_buffer_remove dequeue
remove-dequeue s v = ground (
  arith,
  items_of_ne max_task_number none s.ring_buffer s.buffer_start s.buffer_end,
  items_of_eq max_task_number none s.ring_buffer s.buffer_start,
)

-- On valid indices the ring buffer is a queue of at most 15 tasks: `ring_buffer_insert` appends to
-- the waiting tasks while fewer than 15 wait, and drops the task otherwise; `ring_buffer_remove`
-- takes the first of them, or null when none waits. Both keep the indices valid.
pub queue_refines :
    (task : TaskPtr) (s : Scheduler)
    → IsValid s
    → let inserted = ring_buffer_insert task s in
      let (first, removed) = ring_buffer_remove s in
      (waiting inserted ≡ enqueue task (waiting s))
      × ((first, waiting removed) ≡ dequeue (waiting s))
      × IsValid inserted
      × IsValid removed
queue_refines task s v =
    (insert-enqueue task s v, remove-dequeue s v, insert-IsValid task s v, remove-IsValid s v)
