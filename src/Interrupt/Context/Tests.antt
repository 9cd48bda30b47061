-- ===== src/Interrupt/Context/Tests.antt =====
-- Two tasks on the board VersatilePB: the first is stopped by the timer.
use ninjastorms.Prelude.{ℕ, ◌<◌, ◌≡◌, true, some, arith, update}
use ninjastorms.Scheduler.{versatilepb}
use ninjastorms.Scheduler.Two.{started, started_lem}
use ninjastorms.Interrupt.Context.{change_task, switch}
use ninjastorms.Interrupt.Context.Saved.{context, saved}
use ninjastorms.Interrupt.Context.History.{Runs}
use ninjastorms.Interrupt.Context.Resume.{tasks_resume}
use ninjastorms.Interrupt.Context.Two.{working, interrupted, interrupted-Runs}

tasks_resume_example :
    let t = switch true (saved 0 working started) in
    let stopped = update (context started) 0 working in
    (j : ℕ) × (change_task true working started ≡ some (stopped j, t))
    × (t.current_task ≡ some j)
    × (j < t.task_count)
    × Runs versatilepb (record { scheduler = t; cpu = stopped j; stopped = stopped })
tasks_resume_example =
    tasks_resume versatilepb interrupted true 0 interrupted-Runs (omega (arith, started_lem.3))
      started_lem.2
