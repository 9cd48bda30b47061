-- ===== src/Boot/Tasks.antt =====
-- The tasks of kernel/main.c. `n` is the variable that a task counts up; the modes and the addresses of the functions are
-- arguments.
pub mod Adding
mod Tests
use ninjastorms.Prelude.{ℕ, ◌+◌, ◌-◌, ◌%◌, ◌^◌, Option, List, [], ◌∷◌, if◌then◌else◌, ltb}
use ninjastorms.Device.{Io, pure, ◌>>=◌, ◌>>◌, print}
use ninjastorms.Stdio.{int}
use ninjastorms.Scheduler.{Scheduler, Board, add_task}
use ninjastorms.Demo.{spin}
use ninjastorms.Syscall.Calls.{create_process, shutdown}

-- "  task a: %i\n", with the letter of the task.
abbrev task_text : ℕ → List ℕ
task_text letter =
    b' ' ∷ b' ' ∷ b't' ∷ b'a' ∷ b's' ∷ b'k' ∷ b' ' ∷ letter ∷ b':' ∷ b' ' ∷ b'%' ∷ b'i' ∷ b'\n' ∷ []

-- One round of the loop of a task, with the wait behind it.
pub task_round : ℕ → ℕ → Io ℕ
task_round letter n = do
  print (task_text letter) (int n ∷ [])
  spin 10000000
  pure ((n + 1) % 2 ^ 32)

abbrev pub task_a : ℕ → Io ℕ
task_a n = task_round b'a' n

abbrev pub task_b : ℕ → Io ℕ
task_b n = task_round b'b' n

abbrev pub task_c : ℕ → Io ℕ
task_c n = task_round b'c' n

-- "add task failed with errno %i \n"
abbrev pub add_failed : List ℕ
add_failed =
    b'a' ∷ b'd' ∷ b'd' ∷ b' ' ∷ b't' ∷ b'a' ∷ b's' ∷ b'k' ∷ b' ' ∷ b'f' ∷ b'a' ∷ b'i' ∷ b'l' ∷ b'e'
    ∷ b'd' ∷ b' ' ∷ b'w' ∷ b'i' ∷ b't' ∷ b'h' ∷ b' ' ∷ b'e' ∷ b'r' ∷ b'r' ∷ b'n' ∷ b'o' ∷ b' '
    ∷ b'%' ∷ b'i' ∷ b' ' ∷ b'\n' ∷ []

-- The call of `add_task` in front of the loop of `task_d`, with `task_c` as the function. The result is a signed word.
pub task_d_start : Board → ℕ → ℕ → Scheduler → Io Scheduler
task_d_start b cpsr task_c s =
    let (direct_call_result, s') = add_task b cpsr task_c s in
    (if ltb (2 ^ 31 - 1) direct_call_result then print add_failed (int s'.errno ∷ []) else pure tt)
    >> pure s'

-- One round of the loop of `task_d`.
pub task_d : Board → ℕ → Scheduler → Io (ℕ × Scheduler)
unfolding task_round
task_d b n s = task_round b'd' n >>= λ n'.
    if ltb 5 n' then (shutdown b s >>= λ (r, s'). pure (n', s')) else pure (n', s)

-- The addresses of the data of the two calls are arguments.
pub syscall_test : Board → ℕ → ℕ → ℕ → Scheduler → Io Scheduler
syscall_test b address task_a task_b s = do
  (r, s') ← create_process b address task_a s
  (r', s'') ← create_process b address task_b s'
  pure s''
