-- ===== src/Scheduler/Boot.antt =====
-- Tasks that are added before the scheduler starts, up to the last entry of the task table.
use ninjastorms.Prelude.{
  ℕ, zero, suc, ◌+◌, ◌<◌, ◌≤◌, ◌≡◌, ◌≢◌, get_or, refl, ◌∙◌, ap, true, some, List, [], ◌∷◌, ◌++◌,
  arith, length, min, replicate, subst,
}
use ninjastorms.Scheduler.{
  TaskPtr, Scheduler, Board, Action, max_task_number, add_task, boot, is_privileged,
  start_scheduler, run_first, timer_load_value, zero_task,
}
use ninjastorms.Scheduler.Queue.{waiting, IsValid, enqueue, dequeue, remove-dequeue}
use ninjastorms.Scheduler.Rotation.{remove_frame}
use ninjastorms.Scheduler.Tasks.{add_task_lem, add_task-IsValid}
use ninjastorms.Scheduler.Reach.{Reach, booted, after, adds, starts, boot-IsValid, boot-waiting}
use native.Mathlib.Decide.{dec_lt}

-- One `add_task` for each entry point, with what they return.
pub add_tasks : Board → ℕ → List ℕ → Scheduler → List ℕ × Scheduler
add_tasks b cpsr [] s = ([], s)
add_tasks b cpsr (e ∷ es) s =
    let (r, s') = add_task b cpsr e s in let (rs, s'') = add_tasks b cpsr es s' in (r ∷ rs, s'')

-- The pointers to the entries from `i` on.
pub pointers : ℕ → ℕ → List TaskPtr
pointers zero i = []
pointers (suc n) i = some i ∷ pointers n (i + 1)

pointers-append : (n i : ℕ) → pointers n i ++ some (i + n) ∷ [] ≡ pointers (suc n) i
unfolding pointers
pointers-append zero i = ap (λ k. some k ∷ []) (omega arith)
pointers-append (suc n) i =
    ap (λ q. some i ∷ q)
      (ap (λ k. pointers n (i + 1) ++ some k ∷ []) (omega arith) ∙ pointers-append n (i + 1))

length-pointers : (n i : ℕ) → length (pointers n i) ≡ n
unfolding pointers
length-pointers zero i = refl
length-pointers (suc n) i = ap suc (length-pointers n (i + 1))

enqueue-pointers : (n : ℕ) → enqueue (some n) (pointers (min n 15) 0) ≡ pointers (min (n + 1) 15) 0
unfolding enqueue
enqueue-pointers n = elim (dec_lt n 15) [
  | yes h ↦
      let e : min n 15 ≡ n = omega arith in
      let e' : min (n + 1) 15 ≡ suc n = omega arith in
      rw (e, e')
        (ground (
          arith,
          length-pointers n 0,
          pointers-append n 0,
          ap (λ k. pointers n 0 ++ some k ∷ []) {x = 0 + n} {y = n} (omega arith),
        ))
  | no h ↦
      let e : min n 15 ≡ 15 = omega arith in
      let e' : min (n + 1) 15 ≡ 15 = omega arith in
      rw (e, e') (ground (arith, length-pointers 15 0))
]

-- What holds after `n` tasks have been added to the scheduler as it boots.
record Filled (n : ℕ) (s : Scheduler) : Type 0 where
  valid : IsValid s
  counted : s.task_count ≡ n
  queued : waiting s ≡ pointers (min n 15) 0

add_task-Filled :
    (b : Board) (cpsr entry n : ℕ) (s : Scheduler)
    → is_privileged cpsr ≡ true
    → n < max_task_number
    → Filled n s
    → ((add_task b cpsr entry s).0 ≡ 0) × Filled (n + 1) (add_task b cpsr entry s).1
add_task-Filled b cpsr entry n s p h f =
    let (r, count, queue, _, _, _, _) =
      add_task_lem b cpsr entry s f.valid p (omega (arith, f.counted)) in
    (
      r,
      record {
        valid = add_task-IsValid b cpsr entry s f.valid;
        counted = omega (arith, count, f.counted);
        queued =
            queue
            ∙ ap (enqueue (some s.task_count)) f.queued
            ∙ ap (λ k. enqueue (some k) (pointers (min n 15) 0)) f.counted
            ∙ enqueue-pointers n;
      },
    )

add_tasks-Filled :
    (b : Board) (cpsr : ℕ) (es : List ℕ) (n : ℕ) (s : Scheduler)
    → is_privileged cpsr ≡ true
    → n + length es ≤ max_task_number
    → Filled n s
    → ((add_tasks b cpsr es s).0 ≡ replicate (length es) 0)
      × Filled (n + length es) (add_tasks b cpsr es s).1
unfolding add_tasks
add_tasks-Filled b cpsr [] n s p h f =
    (refl, let e : n ≡ n + 0 = omega arith in subst (λ k. Filled k s) e f)
add_tasks-Filled b cpsr (x ∷ es) n s p h f =
    let s' = (add_task b cpsr x s).1 in
    let (r, f') = add_task-Filled b cpsr x n s p (omega arith) f in
    let (rs, f'') = add_tasks-Filled b cpsr es (n + 1) s' p (omega arith) f' in
    let e : n + 1 + length es ≡ n + suc (length es) = omega arith in
    (ground (arith, r, rs), subst (λ k. Filled k (add_tasks b cpsr es s').1) e f'')

-- From boot, up to 16 tasks can be added in a privileged mode: each call returns 0 and all are
-- counted, but only the first 15 wait to run: the sixteenth does not.
pub add_tasks_at_boot :
    (b : Board) (cpsr : ℕ) (es : List ℕ)
    → is_privileged cpsr ≡ true
    → length es ≤ max_task_number
    → let (rs, s) = add_tasks b cpsr es boot in
      (rs ≡ replicate (length es) 0)
      × (s.task_count ≡ length es)
      × (waiting s ≡ pointers (min (length es) 15) 0)
unfolding pointers
add_tasks_at_boot b cpsr es p h =
    let (rs, f) =
      add_tasks-Filled b cpsr es 0 boot p (omega arith)
        (record { valid = boot-IsValid; counted = refl; queued = boot-waiting }) in
    (rs, omega (arith, f.counted), f.queued ∙ ap (λ k. pointers (min k 15) 0) (omega arith))

-- The first task of a scheduler that starts.
module _ (b : Board) (cpsr entry : ℕ) (p : is_privileged cpsr ≡ true) where
  abbrev first_state : Scheduler
  first_state = (add_task b cpsr entry boot).1

  first_waiting : waiting first_state ≡ some 0 ∷ []
  unfolding enqueue
  first_waiting =
      let (_, _, queue, _, _, _, _) = add_task_lem b cpsr entry boot boot-IsValid p (omega arith) in
      queue ∙ ap (enqueue (some 0)) boot-waiting

  start_scheduler-first : start_scheduler b first_state ≡ (
    run_first first_state,
    Action.timer_stop
        ∷ Action.init_interrupt_handling
        ∷ Action.timer_start (timer_load_value b)
        ∷ Action.load_current_task_state (run_first first_state).current_task
        ∷ [],
  )
  unfolding start_scheduler
  start_scheduler-first =
      let (_, _, _, _, _, _, running) =
        add_task_lem b cpsr entry boot boot-IsValid p (omega arith) in
      rw running refl

  run_first_lem :
      ((run_first first_state).current_task ≡ some 0)
      × ((run_first first_state).task_count ≡ 1)
      × ((run_first first_state).tasks ≡ first_state.tasks)
  unfolding run_first dequeue
  run_first_lem =
      let (_, count, _, _, _, _, _) = add_task_lem b cpsr entry boot boot-IsValid p (omega arith) in
      let first = remove-dequeue first_state (add_task-IsValid b cpsr entry boot boot-IsValid) in
      let (same_count, same_tasks, _, _) = remove_frame first_state in
      (
        ap (λ (q : TaskPtr × List TaskPtr). q.0) (first ∙ ap dequeue first_waiting),
        same_count ∙ count,
        same_tasks,
      )

  run_first-is_running : (run_first first_state).is_running ≡ true
  unfolding run_first
  run_first-is_running = refl

  -- From boot, one task is added in a privileged mode and the scheduler starts: that task runs.
  pub one_task :
      (t : Scheduler) × (start_scheduler b first_state ≡ (
        t,
        Action.timer_stop
            ∷ Action.init_interrupt_handling
            ∷ Action.timer_start (timer_load_value b)
            ∷ Action.load_current_task_state t.current_task
            ∷ [],
      ))
      × (t.is_running ≡ true)
      × (t.current_task ≡ some 0)
      × (t.task_count ≡ 1)
      × (t.tasks ≡ first_state.tasks)
      × Reach b t
      × ((get_or first_state.tasks 0 zero_task).pc ≡ entry)
  one_task =
      let (_, _, _, ready, _, _, _) = add_task_lem b cpsr entry boot boot-IsValid p (omega arith) in
      let (current, count, tasks) = run_first_lem in
      let some_wait : waiting first_state ≢ [] = λ e. cc first_waiting in
      let r = after (after booted (adds boot cpsr entry)) (starts first_state some_wait) in
      (
        run_first first_state,
        start_scheduler-first,
        run_first-is_running,
        current,
        count,
        tasks,
        subst (λ (q : Scheduler × List Action). Reach b q.0) start_scheduler-first r,
        ready.at_entry,
      )
