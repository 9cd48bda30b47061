-- ===== src/Interrupt/Context/Resume.antt =====
-- What every history of tasks keeps: each of them goes on where it was stopped.
use native.Mathlib.Decide.{ℕ_discrete}
use ninjastorms.Prelude.{
  ℕ, ◌^◌, ◌<◌, ◌≤◌, ◌≡◌, ◌≢◌, refl, sym, ap, ◌∙◌, subst, Bool, true, false, some, ◌==◌, arith,
  update,
}
use ninjastorms.Scheduler.{Task, Scheduler, Board, add_task, max_task_number}
use ninjastorms.Scheduler.Tasks.{add_task-task_count}
use ninjastorms.Scheduler.Reach.{Reach, after, adds, Reach-IsValid}
use ninjastorms.Interrupt.Context.{
  pushed, saved_context, save_current_task_state, load_current_task_state, change_task,
  store_context, switch, behind_save,
}
use ninjastorms.Interrupt.Context.Saved.{
  IsContext, context, update-IsContext, saved, some_injective, load_lem, some_task, some_pair,
  returned, switch-task_count, entered,
}
use ninjastorms.Interrupt.Context.History.{System, Event, Runs, IsSound, current-lt, stop_lem}

stops-IsSound :
    (b : Board) (s : System) (timer : Bool) (i : ℕ) (cpu : Task) (t : Scheduler)
    → IsSound b s
    → s.scheduler.task_count < max_task_number
    → s.scheduler.current_task ≡ some i
    → change_task timer s.cpu s.scheduler ≡ some (cpu, t)
    → IsSound b (record { scheduler = t; cpu = cpu; stopped = update s.stopped i s.cpu })
stops-IsSound b s timer i cpu t v h e run =
    let (j, eq, _, sound) = stop_lem b s timer i v h e in
    subst
      (λ (x : Task × Scheduler).
        IsSound b (record { scheduler = x.1; cpu = x.0; stopped = update s.stopped i s.cpu }))
      (some_pair (update s.stopped i s.cpu j, switch timer (saved i s.cpu s.scheduler)) (cpu, t)
        (sym eq ∙ run))
      sound

enters-IsSound :
    (b : Board) (s : System) (cpsr entry : ℕ)
    → IsSound b s
    → entry < 2 ^ 32
    → IsSound b (record s {
      scheduler = (add_task b cpsr entry s.scheduler).1;
      stopped =
          update s.stopped s.scheduler.task_count
            (context (add_task b cpsr entry s.scheduler).1 s.scheduler.task_count);
    })
enters-IsSound b s cpsr entry v h =
    let n = s.scheduler.task_count in
    let t = (add_task b cpsr entry s.scheduler).1 in
    let r = after v.reach (adds s.scheduler cpsr entry) in
    let (running, current, grows, contexts, others) =
      entered b cpsr entry s.scheduler (Reach-IsValid b s.scheduler v.reach) h v.contexts in
    let keeps : (i : ℕ)
        → i < t.task_count
        → s.scheduler.current_task ≢ some i
        → context t i ≡ update s.stopped n (context t n) i =
      λ i l ne. elim (ℕ_discrete n i) [
        | yes e ↦ let q : (n == i) ≡ true = ground arith in rw (q, e) refl
        | no ne' ↦
            let q : (n == i) ≡ false = ground arith in
            rw q (others i ne' ∙ v.kept i (omega (arith, grows, l, ne')) ne)
      ] in
    record {
      reach = r;
      running = running ∙ v.running;
      cpu_ok = v.cpu_ok;
      contexts = contexts;
      stopped_ok = update-IsContext s.stopped n (context t n) v.stopped_ok (contexts n);
      kept = λ i l ne. keeps i l (λ e. ne (current ∙ e));
    }

-- An interrupt adds no task.
stops-task_count :
    (timer : Bool) (cpu : Task) (s : Scheduler) (i : ℕ) (cpu' : Task) (t : Scheduler)
    → s.current_task ≡ some i
    → change_task timer cpu s ≡ some (cpu', t)
    → t.task_count ≡ s.task_count
unfolding change_task save_current_task_state
stops-task_count timer cpu s i cpu' t e run =
    let x = saved_context (pushed cpu) cpu in
    ap (λ (y : Scheduler). y.task_count)
      (returned (switch timer (saved i x s)) (load_current_task_state (switch timer (saved i x s)))
        (cpu', t) (sym (ap (λ p. behind_save timer (store_context p x s)) e) ∙ run))
    ∙ switch-task_count timer (saved i x s)

-- No event takes a task away.
Event-task_count :
    (b : Board) (s t : System) → Event b s t → s.scheduler.task_count ≤ t.scheduler.task_count
Event-task_count b _ _ (Event.runs s cpu c) = omega arith
Event-task_count b _ _ (Event.enters s cpsr entry h) = add_task-task_count b cpsr entry s.scheduler
Event-task_count b _ _ (Event.stops s timer i cpu u e run) =
    omega (arith, stops-task_count timer s.cpu s.scheduler i cpu u e run)

launched-IsSound :
    (b : Board) (s : Scheduler) (cpu : Task)
    → Reach b s
    → s.is_running ≡ true
    → s.task_count < max_task_number
    → load_current_task_state s ≡ some cpu
    → ((i : ℕ) → IsContext (context s i))
    → IsSound b (record { scheduler = s; cpu = cpu; stopped = context s })
launched-IsSound b s cpu r on h load c =
    let (j, ej, lt) = current-lt b s r on h in
    record {
      reach = r;
      running = on;
      cpu_ok = subst IsContext (some_task (context s j) cpu (sym (load_lem s j ej) ∙ load)) (c j);
      contexts = c;
      stopped_ok = c;
      kept = λ i l n. refl;
    }

Event-IsSound :
    (b : Board) (s t : System)
    → Event b s t
    → t.scheduler.task_count < max_task_number
    → IsSound b s
    → IsSound b t
Event-IsSound b _ _ (Event.runs s cpu c) h v = record {
  reach = v.reach;
  running = v.running;
  cpu_ok = c;
  contexts = v.contexts;
  stopped_ok = v.stopped_ok;
  kept = v.kept;
}
Event-IsSound b _ _ (Event.enters s cpsr entry e) h v = enters-IsSound b s cpsr entry v e
Event-IsSound b _ _ (Event.stops s timer i cpu u e run) h v =
    stops-IsSound b s timer i cpu u v
      (omega (arith, stops-task_count timer s.cpu s.scheduler i cpu u e run)) e run

Runs-IsSound :
    (b : Board) (s : System) → Runs b s → s.scheduler.task_count < max_task_number → IsSound b s
Runs-IsSound b _ (Runs.launched s cpu r on load c) h = launched-IsSound b s cpu r on h load c
Runs-IsSound b _ (Runs.continues {s} {t} so_far e) h =
    Event-IsSound b s t e h (Runs-IsSound b s so_far (omega (arith, Event-task_count b s t e)))

pub Runs-IsContext :
    (b : Board) (s : System) → Runs b s → s.scheduler.task_count < max_task_number → IsContext s.cpu
Runs-IsContext b s so_far h = (Runs-IsSound b s so_far h).cpu_ok

-- In every history of a board in which the task table has not been filled, an interrupt that stops the running
-- task `i`, whether it is the timer's or not, ends: some task `j` of the table becomes the running one, and it goes
-- on with exactly the registers, the stack pointer, the program counter and the status that the processor had when
-- `j` was stopped last, or with the ones of its entry if it has not run. The registers that `i` goes on with, later or
-- at once, are the ones it has now.
pub tasks_resume :
    (b : Board) (s : System) (timer : Bool) (i : ℕ)
    → Runs b s
    → s.scheduler.task_count < max_task_number
    → s.scheduler.current_task ≡ some i
    → let t = switch timer (saved i s.cpu s.scheduler) in
      let stopped = update s.stopped i s.cpu in
      (j : ℕ) × (change_task timer s.cpu s.scheduler ≡ some (stopped j, t))
      × (t.current_task ≡ some j)
      × (j < t.task_count)
      × Runs b (record { scheduler = t; cpu = stopped j; stopped = stopped })
tasks_resume b s timer i so_far h e =
    let (j, run, ej, v) = stop_lem b s timer i (Runs-IsSound b s so_far h) h e in
    let t = switch timer (saved i s.cpu s.scheduler) in
    let n = switch-task_count timer (saved i s.cpu s.scheduler) in
    let (k, ek, lt) = current-lt b t v.reach v.running (omega (arith, n)) in
    (
      j,
      run,
      ej,
      omega (arith, lt, some_injective (sym ej ∙ ek)),
      Runs.continues so_far (Event.stops s timer i (update s.stopped i s.cpu j) t e run),
    )
