-- ===== src/Syscall/Dispatch.antt =====
-- What a system call does to the scheduler.
use native.Mathlib.Decide.{ℕ_discrete}
use ninjastorms.Prelude.{
  ℕ, ◌≤◌, ◌≡◌, ◌≢◌, refl, ap, ◌⊎◌, inl, inr, false, some, arith, if◌then◌else◌,
}
use ninjastorms.Scheduler.{
  Scheduler, Board, max_task_number, add_task, is_privileged, epermission, etoomanytasks,
}
use ninjastorms.Scheduler.Tasks.{add_task-refuses}
use ninjastorms.Scheduler.Reach.{Reach, after, adds}
use ninjastorms.Scheduler.Pending.{pending}
use ninjastorms.Syscall.{create_process_no, create_process_dispatch, syscall_dispatcher}

-- The scheduler's state but for `errno`.
abbrev pub SameTasks : Scheduler → Scheduler → Type 0
SameTasks s t =
    (s.task_count ≡ t.task_count)
    × (s.tasks ≡ t.tasks)
    × (pending s ≡ pending t)
    × (s.current_task ≡ t.current_task)

-- In every history of the scheduler, a system call with any number either makes a call of `add_task`,
-- which continues the history, or leaves all tasks as they were.
pub syscall_dispatcher-Reach :
    (b : Board) (cpsr syscallno function : ℕ) (s : Scheduler)
    → Reach b s
    → let t = (syscall_dispatcher b cpsr syscallno function s).1 in
      ((syscallno ≡ create_process_no) × Reach b t)
      ⊎ ((syscallno ≢ create_process_no) × SameTasks s t)
unfolding syscall_dispatcher create_process_dispatch
syscall_dispatcher-Reach b cpsr syscallno function s r =
    elim (ℕ_discrete syscallno create_process_no) [
      | yes e ↦
          let run : (syscall_dispatcher b cpsr syscallno function s).1
              ≡ (add_task b cpsr function s).1 =
            ground arith in
          inl (e, rw run (after r (adds s cpsr function)))
      | no n ↦ inr (n, ground arith)
    ]

pub create_process-adds :
    (b : Board) (cpsr function : ℕ) (s : Scheduler)
    → syscall_dispatcher b cpsr create_process_no function s
      ≡ (some 0, (add_task b cpsr function s).1)
unfolding syscall_dispatcher create_process_dispatch
create_process-adds b cpsr function s = refl

-- A program that asks for a process outside a privileged mode, or when the task table is full, is told
-- that it succeeded: the result is 0, `errno` alone has changed.
pub create_process_hides :
    (b : Board) (cpsr function : ℕ) (s : Scheduler)
    → (is_privileged cpsr ≡ false) ⊎ (max_task_number ≤ s.task_count)
    → syscall_dispatcher b cpsr create_process_no function s
      ≡ (some 0, record s { errno = if is_privileged cpsr then etoomanytasks else epermission })
unfolding syscall_dispatcher create_process_dispatch
create_process_hides b cpsr function s why =
    ap (λ (out : ℕ × Scheduler). (some 0, out.1)) (add_task-refuses b cpsr function s why)
