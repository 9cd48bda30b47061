-- ===== src/Scheduler/Rotation.antt =====
-- `schedule` of kernel/scheduler.c as a rotation of the running and the waiting tasks.
use ninjastorms.Prelude.{
  ℕ, zero, suc, ◌+◌, ◌<◌, ◌≡◌, refl, sym, ◌∙◌, ap, List, [], ◌∷◌, ◌++◌, arith, length,
  length-append, append_assoc, append-nil,
}
use ninjastorms.Scheduler.{
  TaskPtr, Scheduler, max_task_number, ring_buffer_insert, ring_buffer_remove, schedule,
}
use ninjastorms.Scheduler.Queue.{
  waiting, IsValid, enqueue, dequeue, insert-IsValid, insert-enqueue, remove-IsValid,
  remove-dequeue,
}
use ninjastorms.Scheduler.Tasks.{insert_frame}

-- The running task, and behind it those that wait.
abbrev pub line : Scheduler → List TaskPtr
line s = s.current_task ∷ waiting s

pub remove_frame :
    (s : Scheduler)
    → let s' = (ring_buffer_remove s).1 in
      (s'.task_count ≡ s.task_count)
      × (s'.tasks ≡ s.tasks)
      × (s'.is_running ≡ s.is_running)
      × (s'.errno ≡ s.errno)
unfolding ring_buffer_remove
remove_frame s = ground arith

pub schedule-IsValid : (s : Scheduler) → IsValid s → IsValid (schedule s)
unfolding schedule
schedule-IsValid s v =
    let s₁ = ring_buffer_insert s.current_task s in
    let v₂ = remove-IsValid s₁ (insert-IsValid s.current_task s v) in ground arith

pub schedule_frame :
    (s : Scheduler)
    → let s' = schedule s in
      (s'.task_count ≡ s.task_count) × (s'.tasks ≡ s.tasks) × (s'.is_running ≡ s.is_running)
unfolding schedule
schedule_frame s =
    ground
      (arith, insert_frame s.current_task s, remove_frame (ring_buffer_insert s.current_task s))

-- `schedule` enters the running task in the queue and runs the first of the queue.
schedule-dequeue :
    (s : Scheduler)
    → IsValid s
    → ((schedule s).current_task, waiting (schedule s))
      ≡ dequeue (enqueue s.current_task (waiting s))
unfolding schedule
schedule-dequeue s v =
    remove-dequeue (ring_buffer_insert s.current_task s) (insert-IsValid s.current_task s v)
    ∙ ap dequeue (insert-enqueue s.current_task s v)

dequeue-append :
    (q : List TaskPtr) (t : TaskPtr) → let (h, r) = dequeue (q ++ t ∷ []) in h ∷ r ≡ q ++ t ∷ []
unfolding dequeue
dequeue-append [] t = refl
dequeue-append (x ∷ q) t = refl

-- With fewer than 15 tasks waiting, `schedule` rotates the line by one.
pub schedule_rotates :
    (s : Scheduler)
    → IsValid s
    → length (waiting s) + 1 < max_task_number
    → line (schedule s) ≡ waiting s ++ s.current_task ∷ []
unfolding enqueue
schedule_rotates s v room =
    ground (arith, schedule-dequeue s v, dequeue-append (waiting s) s.current_task)

-- On valid indices and with 15 tasks waiting, `schedule` loses the running task: only those that waited are left.
pub schedule_loses :
    (s : Scheduler)
    → IsValid s
    → length (waiting s) + 1 ≡ max_task_number
    → line (schedule s) ≡ waiting s
unfolding enqueue dequeue
schedule_loses s v full = go (waiting s) full (schedule-dequeue s v)
  where
    go :
        (q : List TaskPtr)
        → length q + 1 ≡ max_task_number
        → ((schedule s).current_task, waiting (schedule s)) ≡ dequeue (enqueue s.current_task q)
        → line (schedule s) ≡ q
    go [] h e = absurd (omega arith)
    go (x ∷ q) h e = ground arith

-- `n` timer interrupts in a row.
pub schedule_times : ℕ → Scheduler → Scheduler
schedule_times zero s = s
schedule_times (suc n) s = schedule_times n (schedule s)

-- On valid indices and with at most 15 tasks in all, as many calls of `schedule` as stand before a task in the line bring
-- it to the front, and those before it behind the others, in their order.
pub round_robin :
    (xs ys : List TaskPtr) (s : Scheduler)
    → IsValid s
    → line s ≡ xs ++ ys
    → length xs + length ys < max_task_number
    → line (schedule_times (length xs) s) ≡ ys ++ xs
unfolding schedule_times
round_robin [] ys s v e h = e ∙ sym (append-nil ys)
round_robin (x ∷ xs) ys s v e h =
    round_robin xs (ys ++ x ∷ []) (schedule s) (schedule-IsValid s v) turned
      (omega (arith, length-append ys (x ∷ [])))
    ∙ append_assoc ys (x ∷ []) xs
  where
    counts : suc (length (waiting s)) ≡ suc (length xs + length ys)
    counts = omega (arith, ap length e, length-append xs ys)

    turned : line (schedule s) ≡ xs ++ (ys ++ x ∷ [])
    turned =
        ground (arith, schedule_rotates s v (omega (arith, counts)), append_assoc xs ys (x ∷ []), e)
