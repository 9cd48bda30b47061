-- ===== src/Scheduler.antt =====
-- kernel/scheduler.c, kernel/scheduler.h and kernel/utilities.c: the task table, the run queue and
-- the calls on them. The mode register `cpsr` that the code reads by inline assembly is an argument.
pub mod Queue
pub mod Tasks
pub mod Rotation
pub mod Pending
pub mod Current
pub mod Two
pub mod Reach
pub mod Boot
mod Tests
use ninjastorms.Prelude.{
  ℕ, zero, suc, ◌+◌, ◌-◌, ◌*◌, ◌%◌, ◌^◌, Bool, true, false, not, Option, none, some, List, [], ◌∷◌,
  if◌then◌else◌, ◌==◌, leb, set, get_or, replicate, bit_and,
}

-- `struct task_t`
pub record Task : Type 0 where
  pub reg : List ℕ
  pub sp : ℕ
  pub lr : ℕ
  pub pc : ℕ
  pub cpsr : ℕ

-- A `task_t *` is null or points into the array `tasks`: the index stands for the pointer.
abbrev pub TaskPtr : Type 0
TaskPtr = Option ℕ

-- The static variables of scheduler.c, with the `errno` that `add_task` writes.
pub record Scheduler : Type 0 where
  pub task_count : ℕ
  pub buffer_start : ℕ
  pub buffer_end : ℕ
  pub is_running : Bool
  pub tasks : List Task
  pub ring_buffer : List TaskPtr
  pub current_task : TaskPtr
  pub errno : ℕ

abbrev pub max_task_number : ℕ
max_task_number = 16

abbrev pub cpsr_mode_user : ℕ
cpsr_mode_user = 0x10

-- `enum SYMBOLIC_ERRNO`
abbrev pub epermission : ℕ
epermission = 1

abbrev pub etoomanytasks : ℕ
etoomanytasks = 2

-- The result -1 of a 32-bit function.
abbrev pub minus_one : ℕ
minus_one = 2 ^ 32 - 1

-- The supported boards differ in where the stacks lie.
pub data Board : Type 0 where
  versatilepb ev3 : Board

abbrev pub irq_stack_address : Board → ℕ
irq_stack_address versatilepb = 0x4000000
irq_stack_address ev3 = 0xC5000000

abbrev pub stack_size : ℕ
stack_size = 0x10000

abbrev pub svc_stack_address : Board → ℕ
svc_stack_address b = irq_stack_address b - stack_size

abbrev pub task_stack_base_address : Board → ℕ
task_stack_base_address b = svc_stack_address b - stack_size

-- `ring_buffer_insert`: a full buffer leaves the task out.
pub ring_buffer_insert : TaskPtr → Scheduler → Scheduler
ring_buffer_insert task s =
    let new_end = (s.buffer_end + 1) % max_task_number in
    if new_end == s.buffer_start
    then s
    else record s { ring_buffer = set s.ring_buffer s.buffer_end task; buffer_end = new_end }

-- `ring_buffer_remove`: the null pointer when the buffer is empty.
pub ring_buffer_remove : Scheduler → TaskPtr × Scheduler
ring_buffer_remove s = if s.buffer_start == s.buffer_end then (none, s) else (
  get_or s.ring_buffer s.buffer_start none,
  record s { buffer_start = (s.buffer_start + 1) % max_task_number },
)

-- `for (i = 0; i < 13; i++) task->reg[i] = i`, with the rounds left and the index.
init_registers : ℕ → ℕ → List ℕ → List ℕ
init_registers zero i reg = reg
init_registers (suc n) i reg = init_registers n (i + 1) (set reg i i)

pub init_task : Task → ℕ → ℕ → Task
unfolding init_registers
init_task task entrypoint stackbase = record {
  reg = init_registers 13 0 task.reg;
  sp = stackbase;
  lr = 0;
  pc = entrypoint;
  cpsr = cpsr_mode_user;
}

-- The low five bits of the mode register.
pub get_operating_mode : ℕ → ℕ
get_operating_mode cpsr = bit_and cpsr 0x1f

unfoldable pub is_privileged : ℕ → Bool
unfolding get_operating_mode
is_privileged cpsr = not (get_operating_mode cpsr == 0x10)

-- What an array element that was never written holds.
abbrev pub zero_task : Task
zero_task = record { reg = replicate 13 0; sp = 0; lr = 0; pc = 0; cpsr = 0 }

-- Each task's stack lies below that of the task before it; the subtraction is on 32 bits.
pub stackbase : Board → ℕ → ℕ
stackbase b n = (task_stack_base_address b + 2 ^ 32 - stack_size * n) % 2 ^ 32

-- `init_task (&tasks[task_count], entrypoint, stackbase)`
pub enter : Board → ℕ → Scheduler → Scheduler
enter b entrypoint s =
    let n = s.task_count in
    let task = init_task (get_or s.tasks n zero_task) entrypoint (stackbase b n) in
    record s { tasks = set s.tasks n task }

-- `add_task` in the mode that `cpsr` holds: the result and the new state.
pub add_task : Board → ℕ → ℕ → Scheduler → ℕ × Scheduler
unfolding is_privileged
add_task b cpsr entrypoint s =
    if not (is_privileged cpsr)
    then (minus_one, record s { errno = epermission })
    else if leb max_task_number s.task_count
    then (minus_one, record s { errno = etoomanytasks })
    else (let s' = ring_buffer_insert (some s.task_count) (enter b entrypoint s) in
        (0, record s' { task_count = s'.task_count + 1 }))

-- `schedule`: the running task goes to the end of the queue, the first one runs.
pub schedule : Scheduler → Scheduler
schedule s =
    let (task, s') = ring_buffer_remove (ring_buffer_insert s.current_task s) in
    record s' { current_task = task }

-- The calls to the timer and the interrupt controller that `start_scheduler` makes.
pub data Action : Type 0 where
  timer_stop init_interrupt_handling : Action
  timer_start : ℕ → Action
  load_current_task_state : TaskPtr → Action

abbrev pub timer_load_value : Board → ℕ
timer_load_value versatilepb = 0x2000
timer_load_value ev3 = 0x10000

-- `current_task = ring_buffer_remove (); isRunning = 1`
pub run_first : Scheduler → Scheduler
run_first s =
    let (task, s') = ring_buffer_remove s in record s' { current_task = task; is_running = true }

pub start_scheduler : Board → Scheduler → Scheduler × List Action
start_scheduler b s = if s.is_running then (s, []) else (
  run_first s,
  timer_stop
      ∷ init_interrupt_handling
      ∷ timer_start (timer_load_value b)
      ∷ load_current_task_state (run_first s).current_task
      ∷ [],
)

-- The state that the static initialisers give.
abbrev pub boot : Scheduler
boot = record {
  task_count = 0;
  buffer_start = 0;
  buffer_end = 0;
  is_running = false;
  tasks = replicate 16 zero_task;
  ring_buffer = replicate 16 none;
  current_task = none;
  errno = 0;
}
