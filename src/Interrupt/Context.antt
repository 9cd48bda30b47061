-- ===== src/Interrupt/Context.antt =====
-- kernel/interrupt_handler.S: what an interrupt does with the registers of the task that it stops, and with
-- those of the task that goes on. A `Task` holds the registers of the processor in user mode.
pub mod Saved
pub mod History
pub mod Resume
pub mod Two
mod Tests
use ninjastorms.Prelude.{
  ℕ, ◌+◌, ◌-◌, ◌%◌, ◌^◌, Bool, Option, none, some, List, [], ◌∷◌, ◌++◌, if◌then◌else◌, set, get_or,
  take, drop,
}
use ninjastorms.Scheduler.{Task, TaskPtr, Scheduler, zero_task, schedule}

-- `push {r0-r2, lr}`: the processor left the program counter, plus 4, in `lr`.
abbrev pub pushed : Task → List ℕ
pushed cpu = take 3 cpu.reg ++ (cpu.pc + 4) % 2 ^ 32 ∷ []

-- What is stored in the structure: three registers and the program counter from the stack, and the others from
-- the processor, whose status register was kept aside.
pub saved_context : List ℕ → Task → Task
saved_context stack cpu = record {
  reg = take 3 stack ++ drop 3 cpu.reg;
  sp = cpu.sp;
  lr = cpu.lr;
  pc = (get_or stack 3 0 + 2 ^ 32 - 4) % 2 ^ 32;
  cpsr = cpu.cpsr;
}

-- `none` stands for a null `current_task`.
abbrev pub store_context : TaskPtr → Task → Scheduler → Option Scheduler
store_context none context s = none
store_context (some i) context s = some (record s { tasks = set s.tasks i context })

pub save_current_task_state : List ℕ → Task → Scheduler → Option Scheduler
unfolding saved_context
save_current_task_state stack cpu s = store_context s.current_task (saved_context stack cpu) s

abbrev pub load_context : TaskPtr → Scheduler → Option Task
load_context none s = none
load_context (some i) s = some (get_or s.tasks i zero_task)

pub load_current_task_state : Scheduler → Option Task
load_current_task_state s = load_context s.current_task s

-- What `handle_interrupt` does to the scheduler: it calls `schedule` when the timer of the scheduler is among the
-- causes.
abbrev pub switch : Bool → Scheduler → Scheduler
switch timer s = if timer then schedule s else s

abbrev pub on_return : Scheduler → Option Task → Option (Task × Scheduler)
on_return s none = none
on_return s (some cpu) = some (cpu, s)

abbrev pub behind_save : Bool → Option Scheduler → Option (Task × Scheduler)
behind_save timer none = none
behind_save timer (some s) = on_return (switch timer s) (load_current_task_state (switch timer s))

-- `irq_handler`, up to the registers that the next task goes on with.
pub change_task : Bool → Task → Scheduler → Option (Task × Scheduler)
unfolding save_current_task_state load_current_task_state
change_task timer cpu s = behind_save timer (save_current_task_state (pushed cpu) cpu s)
