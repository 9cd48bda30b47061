-- ===== src/Syscall.antt =====
-- kernel/syscall_handler.c: the dispatch of system calls, with the numbers of
-- kernel/syscall_handler.h. What `puts` and `printf` write stands in Syscall.Calls,
-- with the callers' side. The function of a `create_process_spec` is an argument.
pub mod Dispatch
pub mod Calls
use ninjastorms.Prelude.{ℕ, Option, none, some, if◌then◌else◌, ◌==◌}
use ninjastorms.Scheduler.{Scheduler, Board, add_task, minus_one}

-- `enum SYSCALL_NUMBER`
abbrev pub zero_syscall : ℕ
zero_syscall = 0

abbrev pub create_process_no : ℕ
create_process_no = 1

abbrev pub shutdown_no : ℕ
shutdown_no = 99

abbrev pub einvalidsyscallno : ℕ
einvalidsyscallno = 4

-- The results are optional: `none` is that of a function that ends without a `return`.
pub syscall_zero_dispatch : Scheduler → Option ℕ × Scheduler
syscall_zero_dispatch s = (some 0, s)

pub create_process_dispatch : Board → ℕ → ℕ → Scheduler → Option ℕ × Scheduler
create_process_dispatch b cpsr function s = (some 0, (add_task b cpsr function s).1)

-- `halt_execution` does nothing.
pub shutdown_dispatch : Scheduler → Option ℕ × Scheduler
shutdown_dispatch s = (none, s)

pub syscall_dispatcher : Board → ℕ → ℕ → ℕ → Scheduler → Option ℕ × Scheduler
unfolding syscall_zero_dispatch create_process_dispatch shutdown_dispatch
syscall_dispatcher b cpsr syscallno function s =
    if syscallno == zero_syscall
    then syscall_zero_dispatch s
    else if syscallno == create_process_no
    then create_process_dispatch b cpsr function s
    else if syscallno == shutdown_no
    then shutdown_dispatch s
    else (some minus_one, record s { errno = einvalidsyscallno })
