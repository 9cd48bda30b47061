-- ===== src/Scheduler/Two.antt =====
-- kernel/scheduler.c on the board VersatilePB with two tasks, from the static initialisers to the first task.
use ninjastorms.Prelude.{ℕ, ◌≡◌, refl, true, some, [], ◌∷◌}
use ninjastorms.Prelude.Circular.{items}
use ninjastorms.Scheduler.{
  Scheduler, versatilepb, boot, add_task, start_scheduler, run_first, ring_buffer_insert,
  ring_buffer_remove, enter, is_privileged,
}
use ninjastorms.Scheduler.Queue.{waiting}
use ninjastorms.Scheduler.Reach.{Reach, booted, after, adds, starts}

abbrev pub svc : ℕ
svc = 0x13

abbrev pub first_added : Scheduler
first_added = (add_task versatilepb svc 0x100 boot).1

abbrev pub both_added : Scheduler
both_added = (add_task versatilepb svc 0x200 first_added).1

abbrev pub started : Scheduler
started = (start_scheduler versatilepb both_added).0

boot-Reach : Reach versatilepb boot
boot-Reach = booted

pub first_added-Reach : Reach versatilepb first_added
first_added-Reach = after booted (adds boot svc 0x100)

both_added-waiting : waiting both_added ≡ some 0 ∷ some 1 ∷ []
unfolding items add_task ring_buffer_insert enter is_privileged
both_added-waiting = refl

pub started_lem :
    (started.tasks ≡ both_added.tasks)
    × (started.is_running ≡ true)
    × (started.current_task ≡ some 0)
    × (started.task_count ≡ 2)
unfolding add_task ring_buffer_insert enter is_privileged start_scheduler run_first
    ring_buffer_remove
started_lem = (refl, refl, refl, refl)

pub started-Reach : Reach versatilepb started
started-Reach =
    after (after first_added-Reach (adds first_added svc 0x200))
      (starts both_added (λ e. cc both_added-waiting))
