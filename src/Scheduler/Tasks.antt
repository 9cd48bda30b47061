-- ===== src/Scheduler/Tasks.antt =====
-- `add_task` of kernel/scheduler.c: what it returns, which task it enters and where its stack lies.
use native.Mathlib.Decide.{ℕ_discrete}
use ninjastorms.Prelude.{
  ℕ, sym, ◌+◌, ◌<◌, ◌≤◌, ◌≡◌, ◌≢◌, refl, ◌∙◌, ap, true, false, some, ◌⊎◌, inl, inr, arith, length,
  length-set, List, set, zero, suc, get_or, get_or-set_self, get_or-set_ne, if◌then◌else◌,
}
use ninjastorms.Scheduler.{
  TaskPtr, Scheduler, Task, Board, max_task_number, add_task, is_privileged, stackbase, zero_task,
  minus_one, epermission, etoomanytasks, cpsr_mode_user, init_registers, ring_buffer_insert,
  stack_size, enter, svc_stack_address, versatilepb, ev3, init_task,
}
use ninjastorms.Scheduler.Queue.{waiting, IsValid, enqueue, insert-IsValid, insert-enqueue}

-- `ring_buffer_insert` writes the queue only.
pub insert_frame :
    (task : TaskPtr) (s : Scheduler)
    → let s' = ring_buffer_insert task s in
      (s'.task_count ≡ s.task_count)
      × (s'.tasks ≡ s.tasks)
      × (s'.current_task ≡ s.current_task)
      × (s'.is_running ≡ s.is_running)
      × (s'.errno ≡ s.errno)
unfolding ring_buffer_insert
insert_frame task s = ground arith

pub add_task-task_count :
    (b : Board) (cpsr entry : ℕ) (s : Scheduler)
    → s.task_count ≤ (add_task b cpsr entry s).1.task_count
unfolding add_task is_privileged enter
add_task-task_count b cpsr entry s =
    ground (arith, insert_frame (some s.task_count) (enter b entry s))

enter-IsValid : (b : Board) (entry : ℕ) (s : Scheduler) → IsValid s → IsValid (enter b entry s)
unfolding enter
enter-IsValid b entry s v = ground (
  arith,
  length-set s.tasks s.task_count
      (init_task (get_or s.tasks s.task_count zero_task) entry (stackbase b s.task_count)),
)

-- `init_task` writes the task table only.
enter_frame :
    (b : Board) (entry : ℕ) (s : Scheduler)
    → let s' = enter b entry s in
      (s'.task_count ≡ s.task_count)
      × (s'.current_task ≡ s.current_task)
      × (s'.is_running ≡ s.is_running)
      × (waiting s' ≡ waiting s)
unfolding enter
enter_frame b entry s = (refl, refl, refl, refl)

-- What `add_task` does when it accepts: the ring insert on the entered task, then the count.
add_task-accepts :
    (b : Board) (cpsr entry : ℕ) (s : Scheduler)
    → is_privileged cpsr ≡ true
    → s.task_count < max_task_number
    → add_task b cpsr entry s ≡ (
        let s' = ring_buffer_insert (some s.task_count) (enter b entry s) in
        (0, record s' { task_count = s'.task_count + 1 }))
unfolding add_task
add_task-accepts b cpsr entry s p h = ground arith

pub add_task-IsValid :
    (b : Board) (cpsr entry : ℕ) (s : Scheduler) → IsValid s → IsValid (add_task b cpsr entry s).1
unfolding add_task
add_task-IsValid b cpsr entry s v = ground (
  arith,
  enter_frame b entry s,
  enter-IsValid b entry s v,
  insert_frame (some s.task_count) (enter b entry s),
  insert-IsValid (some s.task_count) (enter b entry s),
)

-- What the first context switch to a task finds: the entry point, its own stack, user mode, no address to return
-- to, and in each of the 13 registers its number.
pub record IsReady (b : Board) (entry n : ℕ) (task : Task) : Type 0 where
  pub at_entry : task.pc ≡ entry
  pub on_stack : task.sp ≡ stackbase b n
  pub in_user_mode : task.cpsr ≡ cpsr_mode_user
  pub no_return : task.lr ≡ 0
  pub numbered : (i : ℕ) → i < 13 → i < length task.reg → get_or task.reg i 0 ≡ i

length-init_registers : (n i : ℕ) (reg : List ℕ) → length (init_registers n i reg) ≡ length reg
unfolding init_registers
length-init_registers zero i reg = refl
length-init_registers (suc n) i reg =
    length-init_registers n (i + 1) (set reg i i) ∙ length-set reg i i

-- The registers before the index stay as they are.
init_registers_before :
    (n i j : ℕ) (reg : List ℕ) → j < i → get_or (init_registers n i reg) j 0 ≡ get_or reg j 0
unfolding init_registers
init_registers_before zero i j reg h = refl
init_registers_before (suc n) i j reg h =
    init_registers_before n (i + 1) j (set reg i i) (omega arith)
    ∙ get_or-set_ne reg i j i 0 (omega arith)

-- The registers from the index on hold their numbers.
init_registers_from :
    (n i j : ℕ) (reg : List ℕ)
    → i ≤ j
    → j < i + n
    → j < length reg
    → get_or (init_registers n i reg) j 0 ≡ j
unfolding init_registers
init_registers_from zero i j reg lo hi room = absurd (omega (arith, lo, hi))
init_registers_from (suc n) i j reg lo hi room = elim (ℕ_discrete i j) [
  | yes same ↦
      init_registers_before n (i + 1) j (set reg i i) (omega arith)
      ∙ ap (λ k. get_or (set reg i i) k 0) (sym same)
      ∙ get_or-set_self reg i i 0 (omega arith)
      ∙ same
  | no ne ↦
      init_registers_from n (i + 1) j (set reg i i) (omega arith) (omega arith)
        (omega (arith, length-set reg i i))
]

init_task-IsReady :
    (b : Board) (entry n : ℕ) (task : Task)
    → IsReady b entry n (init_task task entry (stackbase b n))
unfolding init_task
init_task-IsReady b entry n task = record {
  at_entry = refl;
  on_stack = refl;
  in_user_mode = refl;
  no_return = refl;
  numbered = λ i h room.
      init_registers_from 13 0 i task.reg (omega arith) h
        (omega (arith, length-init_registers 13 0 task.reg));
}

get_or-enter_self :
    (b : Board) (entry : ℕ) (s : Scheduler)
    → IsValid s
    → s.task_count < max_task_number
    → IsReady b entry s.task_count (get_or (enter b entry s).tasks s.task_count zero_task)
unfolding enter
get_or-enter_self b entry s v h =
    rw
      (get_or-set_self s.tasks s.task_count
        (init_task (get_or s.tasks s.task_count zero_task) entry (stackbase b s.task_count))
        zero_task (omega arith))
      (init_task-IsReady b entry s.task_count _)

get_or-enter_ne :
    (b : Board) (entry : ℕ) (s : Scheduler) (i : ℕ)
    → s.task_count ≢ i
    → get_or (enter b entry s).tasks i zero_task ≡ get_or s.tasks i zero_task
unfolding enter
get_or-enter_ne b entry s i h = get_or-set_ne s.tasks s.task_count i _ zero_task h

pub add_task_lem :
    (b : Board) (cpsr entry : ℕ) (s : Scheduler)
    → IsValid s
    → is_privileged cpsr ≡ true
    → s.task_count < max_task_number
    → let (r, s') = add_task b cpsr entry s in
      (r ≡ 0)
      × (s'.task_count ≡ s.task_count + 1)
      × (waiting s' ≡ enqueue (some s.task_count) (waiting s))
      × IsReady b entry s.task_count (get_or s'.tasks s.task_count zero_task)
      × ((i : ℕ) → s.task_count ≢ i → get_or s'.tasks i zero_task ≡ get_or s.tasks i zero_task)
      × (s'.current_task ≡ s.current_task)
      × (s'.is_running ≡ s.is_running)
add_task_lem b cpsr entry s v p h =
    let (keeps_count, keeps_current, keeps_running, keeps_queue) = enter_frame b entry s in
    let (n, t, c, r, _) = insert_frame (some s.task_count) (enter b entry s) in
    rw (add_task-accepts b cpsr entry s p h) (
      refl,
      ap (λ k. k + 1) (n ∙ keeps_count),
      insert-enqueue (some s.task_count) (enter b entry s) (enter-IsValid b entry s v)
          ∙ ap (enqueue (some s.task_count)) keeps_queue,
      rw t (get_or-enter_self b entry s v h),
      (λ i ne. rw t (get_or-enter_ne b entry s i ne)),
      c ∙ keeps_current,
      r ∙ keeps_running,
    )

-- The new task has as many registers as the entry had room for.
pub add_task-length :
    (b : Board) (cpsr entry : ℕ) (s : Scheduler)
    → IsValid s
    → is_privileged cpsr ≡ true
    → s.task_count < max_task_number
    → length (get_or (add_task b cpsr entry s).1.tasks s.task_count zero_task).reg
      ≡ length (get_or s.tasks s.task_count zero_task).reg
unfolding init_task enter
add_task-length b cpsr entry s v p h =
    let old = get_or s.tasks s.task_count zero_task in
    let (_, t, _, _, _) = insert_frame (some s.task_count) (enter b entry s) in
    rw
      (
        add_task-accepts b cpsr entry s p h,
        t,
        get_or-set_self s.tasks s.task_count (init_task old entry (stackbase b s.task_count))
            zero_task (omega (arith, v.table_size)),
      )
      (length-init_registers 13 0 old.reg)

-- Outside a privileged mode, or with all 16 entries taken, `add_task` returns -1, sets `errno` to
-- the first of the two causes that applies, and changes nothing else.
pub add_task-refuses :
    (b : Board) (cpsr entry : ℕ) (s : Scheduler)
    → (is_privileged cpsr ≡ false) ⊎ (max_task_number ≤ s.task_count)
    → add_task b cpsr entry s
      ≡ (minus_one, record s { errno = if is_privileged cpsr then etoomanytasks else epermission })
unfolding add_task
add_task-refuses b cpsr entry s (inl p) = ground arith
add_task-refuses b cpsr entry s (inr h) = ground arith

-- The 16 stacks do not overlap: each lies whole below the stacks of the tasks before it, above
-- address 0 and, as the others, below the supervisor's stack.
pub stackbase_apart :
    (b : Board) (i j : ℕ)
    → i < j
    → j < max_task_number
    → (stackbase b j + stack_size ≤ stackbase b i)
      × (stack_size ≤ stackbase b j)
      × (stackbase b i + stack_size ≤ svc_stack_address b)
unfolding stackbase
stackbase_apart versatilepb i j h k = omega arith
stackbase_apart ev3 i j h k = omega arith
