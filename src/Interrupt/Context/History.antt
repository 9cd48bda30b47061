-- ===== src/Interrupt/Context/History.antt =====
-- Histories of tasks that run, are interrupted and go on, and what one interrupt does in them.
use native.Mathlib.Decide.{ℕ_discrete}
use ninjastorms.Prelude.{
  ℕ, ◌^◌, ◌<◌, ◌≡◌, ◌≢◌, sym, ap, ◌∙◌, subst, Bool, true, false, some, ◌==◌, get_or, arith, update,
  get_or-set_self, get_or-set_ne,
}
use ninjastorms.Scheduler.{Task, Scheduler, Board, zero_task, add_task, max_task_number}
use ninjastorms.Scheduler.Queue.{waiting}
use ninjastorms.Scheduler.Pending.{pending_on}
use ninjastorms.Scheduler.Current.{current_some}
use ninjastorms.Scheduler.Reach.{Reach, after, saves, Reach-NoneLost, Reach-IsValid}
use ninjastorms.Interrupt.Context.{load_current_task_state, change_task, switch, on_return}
use ninjastorms.Interrupt.Context.Saved.{
  IsContext, context, update-IsContext, set-IsContext, saved, some_injective, change_task_lem,
  load_lem, switch_lem,
}

-- The scheduler, the registers of the processor, and, for each task, the registers it had when it was stopped last, or
-- the ones it was entered with.
pub record System : Type 0 where
  pub scheduler : Scheduler
  pub cpu : Task
  pub stopped : ℕ → Task

-- The running task changes its registers as it likes; a task is added; or an interrupt stops the running task.
pub data Event (b : Board) : System → System → Type 0 where
  runs : (s : System) (cpu : Task) → IsContext cpu → Event b s (record s { cpu = cpu })
  enters :
      (s : System) (cpsr entry : ℕ)
      → entry < 2 ^ 32
      → Event b s (record s {
        scheduler = (add_task b cpsr entry s.scheduler).1;
        stopped =
            update s.stopped s.scheduler.task_count
              (context (add_task b cpsr entry s.scheduler).1 s.scheduler.task_count);
      })
  stops :
      (s : System) (timer : Bool) (i : ℕ) (cpu : Task) (t : Scheduler)
      → s.scheduler.current_task ≡ some i
      → change_task timer s.cpu s.scheduler ≡ some (cpu, t)
      → Event b s (record { scheduler = t; cpu = cpu; stopped = update s.stopped i s.cpu })

-- The histories from the load of the first task on.
pub data Runs (b : Board) : System → Type 0 where
  launched :
      (s : Scheduler) (cpu : Task)
      → Reach b s
      → s.is_running ≡ true
      → load_current_task_state s ≡ some cpu
      → ((i : ℕ) → IsContext (context s i))
      → Runs b (record { scheduler = s; cpu = cpu; stopped = context s })
  continues : {s t : System} → Runs b s → Event b s t → Runs b t

pub record IsSound (b : Board) (s : System) : Type 0 where
  pub reach : Reach b s.scheduler
  pub running : s.scheduler.is_running ≡ true
  pub cpu_ok : IsContext s.cpu
  pub contexts : (i : ℕ) → IsContext (context s.scheduler i)
  pub stopped_ok : (i : ℕ) → IsContext (s.stopped i)
  pub kept :
      (i : ℕ)
      → i < s.scheduler.task_count
      → s.scheduler.current_task ≢ some i
      → context s.scheduler i ≡ s.stopped i

pub current-lt :
    (b : Board) (s : Scheduler)
    → Reach b s
    → s.is_running ≡ true
    → s.task_count < max_task_number
    → (j : ℕ) × (s.current_task ≡ some j) × (j < s.task_count)
current-lt b s r on h = current_some s (waiting s) (Reach-NoneLost b s r h) (pending_on s on)

-- Each task but the new running one has the registers it was stopped with.
saved_kept :
    (b : Board) (s : System) (i j : ℕ)
    → IsSound b s
    → s.scheduler.task_count < max_task_number
    → s.scheduler.current_task ≡ some i
    → j < s.scheduler.task_count
    → context (saved i s.cpu s.scheduler) j ≡ update s.stopped i s.cpu j
saved_kept b s i j v h e lt = elim (ℕ_discrete i j) [
  | yes p ↦
      let t : (i == j) ≡ true = ground arith in
      let valid = Reach-IsValid b s.scheduler v.reach in
      rw (t, sym p)
        (get_or-set_self s.scheduler.tasks i s.cpu zero_task (omega (arith, valid.table_size)))
  | no n ↦
      let t : (i == j) ≡ false = ground arith in
      rw t (
        get_or-set_ne s.scheduler.tasks i j s.cpu zero_task n
        ∙ v.kept j lt (λ e'. n (some_injective (sym e ∙ e'))))
]

-- The task that runs next goes on with the registers it was stopped with, and all others keep theirs.
pub stop_lem :
    (b : Board) (s : System) (timer : Bool) (i : ℕ)
    → IsSound b s
    → s.scheduler.task_count < max_task_number
    → s.scheduler.current_task ≡ some i
    → let t = switch timer (saved i s.cpu s.scheduler) in
      let stopped = update s.stopped i s.cpu in
      (j : ℕ) × (change_task timer s.cpu s.scheduler ≡ some (stopped j, t))
      × (t.current_task ≡ some j)
      × IsSound b (record { scheduler = t; cpu = stopped j; stopped = stopped })
stop_lem b s timer i v h e =
    let s' = saved i s.cpu s.scheduler in
    let r' = after v.reach (saves s.scheduler i s.cpu v.running) in
    let (r, on, tasks, count) = switch_lem b timer s' r' v.running in
    let t = switch timer s' in
    let stopped = update s.stopped i s.cpu in
    let (j, ej, lt) = current-lt b t r on (omega (arith, count)) in
    let loaded : (k : ℕ) → k < t.task_count → context t k ≡ stopped k = λ k l.
      ap (λ ts. get_or ts k zero_task) tasks ∙ saved_kept b s i k v h e (omega (arith, count, l)) in
    let all_stopped = update-IsContext s.stopped i s.cpu v.stopped_ok v.cpu_ok in
    let entries = set-IsContext s.scheduler.tasks i s.cpu v.contexts v.cpu_ok in
    (
      j,
      change_task_lem timer s.cpu s.scheduler i v.cpu_ok e
          ∙ ap (on_return t) (load_lem t j ej ∙ ap some (loaded j lt)),
      ej,
      record {
        reach = r;
        running = on;
        cpu_ok = all_stopped j;
        contexts = λ k. subst (λ ts. IsContext (get_or ts k zero_task)) (sym tasks) (entries k);
        stopped_ok = all_stopped;
        kept = λ k l n. loaded k l;
      },
    )
