-- ===== src/Interrupt/Context/Saved.antt =====
-- What one interrupt stores and loads, and what the calls of the scheduler do to the contexts.
use native.Mathlib.Decide.{ℕ_discrete, dec_lt}
use ninjastorms.Prelude.{
  ℕ, zero, suc, ◌+◌, ◌^◌, ◌<◌, ◌≤◌, ◌≡◌, ◌≢◌, refl, sym, ap, ◌∙◌, subst, Bool, true, false, Option,
  none, some, List, [], ◌∷◌, ◌==◌, set, get_or, length, arith, update, inl, inr, Bool-cases,
}
use ninjastorms.Scheduler.{
  Task, Scheduler, Board, zero_task, add_task, max_task_number, is_privileged,
}
use ninjastorms.Scheduler.Queue.{IsValid}
use ninjastorms.Scheduler.Tasks.{add_task_lem, add_task-refuses, add_task-length}
use ninjastorms.Scheduler.Rotation.{schedule_frame}
use ninjastorms.Scheduler.Reach.{Reach, after, interrupts}
use ninjastorms.Interrupt.Context.{
  pushed, saved_context, save_current_task_state, load_current_task_state, change_task,
  store_context, load_context, switch, on_return, behind_save,
}

-- The registers of a processor: 13 of them, and a program counter of 32 bits.
abbrev pub IsContext : Task → Type 0
IsContext cpu = length cpu.reg ≡ 13 × cpu.pc < 2 ^ 32

same_context :
    {r r' : List ℕ} {p p' : ℕ} (cpu : Task)
    → r ≡ r'
    → p ≡ p'
    → Path Task (record cpu { reg = r; pc = p }) (record cpu { reg = r'; pc = p' })
same_context cpu q r = λ i. record cpu { reg = q i; pc = r i }

-- Nothing of the registers is lost on the stack.
pub saved_context-pushed : (cpu : Task) → IsContext cpu → saved_context (pushed cpu) cpu ≡ cpu
unfolding saved_context
saved_context-pushed cpu (l, h) = go cpu.reg l
  where
    go :
        (reg : List ℕ)
        → length reg ≡ 13
        → saved_context (pushed (record cpu { reg = reg })) (record cpu { reg = reg })
          ≡ record cpu { reg = reg }
    go [] l = absurd (omega arith)
    go (a ∷ []) l = absurd (omega arith)
    go (a ∷ b ∷ []) l = absurd (omega arith)
    go (a ∷ b ∷ c ∷ reg) l = same_context cpu refl (omega arith)

abbrev pub context : Scheduler → ℕ → Task
context s i = get_or s.tasks i zero_task

pub update-IsContext :
    (f : ℕ → Task) (i : ℕ) (cpu : Task)
    → ((j : ℕ) → IsContext (f j))
    → IsContext cpu
    → (j : ℕ) → IsContext (update f i cpu j)
update-IsContext f i cpu a c j = elim (ℕ_discrete i j) [
  | yes e ↦ let t : (i == j) ≡ true = ground arith in rw t c
  | no n ↦ let t : (i == j) ≡ false = ground arith in rw t (a j)
]

pub set-IsContext :
    (xs : List Task) (i : ℕ) (cpu : Task)
    → ((j : ℕ) → IsContext (get_or xs j zero_task))
    → IsContext cpu
    → (j : ℕ) → IsContext (get_or (set xs i cpu) j zero_task)
set-IsContext [] i cpu a c j = a j
set-IsContext (x ∷ xs) zero cpu a c zero = c
set-IsContext (x ∷ xs) zero cpu a c (suc j) = a (suc j)
set-IsContext (x ∷ xs) (suc i) cpu a c zero = a zero
set-IsContext (x ∷ xs) (suc i) cpu a c (suc j) = set-IsContext xs i cpu (λ k. a (suc k)) c j

-- The scheduler with the context of the stopped task.
abbrev pub saved : ℕ → Task → Scheduler → Scheduler
saved i cpu s = record s { tasks = set s.tasks i cpu }

pub some_injective : {i j : ℕ} → some i ≡ some j → i ≡ j
some_injective e = cc

pub save_lem :
    (cpu : Task) (s : Scheduler) (i : ℕ)
    → IsContext cpu
    → s.current_task ≡ some i
    → save_current_task_state (pushed cpu) cpu s ≡ some (saved i cpu s)
unfolding save_current_task_state
save_lem cpu s i c e =
    ap (λ p. store_context p (saved_context (pushed cpu) cpu) s) e
    ∙ ap (λ x. some (saved i x s)) (saved_context-pushed cpu c)

pub change_task_lem :
    (timer : Bool) (cpu : Task) (s : Scheduler) (i : ℕ)
    → IsContext cpu
    → s.current_task ≡ some i
    → let t = switch timer (saved i cpu s) in
      change_task timer cpu s ≡ on_return t (load_current_task_state t)
unfolding change_task
change_task_lem timer cpu s i c e = ap (behind_save timer) (save_lem cpu s i c e)

pub load_lem :
    (s : Scheduler) (j : ℕ)
    → s.current_task ≡ some j
    → load_current_task_state s ≡ some (context s j)
unfolding load_current_task_state
load_lem s j e = ap (λ p. load_context p s) e

or_else : Option Task → Task → Task
or_else none d = d
or_else (some x) d = x

pub some_task : (x y : Task) → some x ≡ some y → x ≡ y
unfolding or_else
some_task x y e = ap (λ (r : Option Task). or_else r x) e

resumed : Task × Scheduler → Option (Task × Scheduler) → Task × Scheduler
resumed d none = d
resumed d (some x) = x

pub some_pair : (x y : Task × Scheduler) → some x ≡ some y → x ≡ y
unfolding resumed
some_pair x y e = ap (resumed x) e

pub returned :
    (s : Scheduler) (r : Option Task) (x : Task × Scheduler) → on_return s r ≡ some x → x.1 ≡ s
returned s none x e = absurd (cc)
returned s (some cpu) x e = ap (λ (y : Task × Scheduler). y.1) (some_pair x (cpu, s) (sym e))

-- Behind `switch`: the history goes on, and the tasks are those that were saved.
pub switch_lem :
    (b : Board) (timer : Bool) (s : Scheduler)
    → Reach b s
    → s.is_running ≡ true
    → let t = switch timer s in
      Reach b t × (t.is_running ≡ true) × (t.tasks ≡ s.tasks) × (t.task_count ≡ s.task_count)
switch_lem b true s r on =
    let (count, tasks, running) = schedule_frame s in
    (after r (interrupts s on), running ∙ on, tasks, count)
switch_lem b false s r on = (r, on, refl, refl)

pub switch-task_count : (timer : Bool) (s : Scheduler) → (switch timer s).task_count ≡ s.task_count
switch-task_count true s = (schedule_frame s).0
switch-task_count false s = refl

-- What `add_task` does to the contexts, whether it accepts or refuses.
pub entered :
    (b : Board) (cpsr entry : ℕ) (s : Scheduler)
    → IsValid s
    → entry < 2 ^ 32
    → ((i : ℕ) → IsContext (context s i))
    → let t = (add_task b cpsr entry s).1 in
      (t.is_running ≡ s.is_running)
      × (t.current_task ≡ s.current_task)
      × (t.task_count ≤ s.task_count + 1)
      × ((i : ℕ) → IsContext (context t i))
      × ((i : ℕ) → s.task_count ≢ i → context t i ≡ context s i)
entered b cpsr entry s v h a = elim (Bool-cases (is_privileged cpsr)) [
  | inr user ↦
      rw (add_task-refuses b cpsr entry s (inl user)) (refl, refl, omega arith, a, λ i n. refl)
  | inl p ↦ elim (dec_lt s.task_count max_task_number) [
    | no full ↦
        rw (add_task-refuses b cpsr entry s (inr (omega arith)))
          (refl, refl, omega arith, a, λ i n. refl)
    | yes free ↦
        let (_, count, _, ready, others, current, running) = add_task_lem b cpsr entry s v p free in
        let size = add_task-length b cpsr entry s v p free in
        (
          running,
          current,
          omega (arith, count),
          (λ i. elim (ℕ_discrete s.task_count i) [
            | yes e ↦
                subst (λ k. IsContext (context (add_task b cpsr entry s).1 k)) e
                  (size ∙ (a s.task_count).0, omega (arith, ready.at_entry))
            | no n ↦ rw (others i n) (a i)
          ]),
          others,
        )
  ]
]

-- The registers that are returned are those that were loaded.
pub on_return-loaded :
    (s : Scheduler) (r : Option Task) (cpu : Task) → on_return s r ≡ some (cpu, s) → r ≡ some cpu
on_return-loaded s none cpu e = absurd (cc)
on_return-loaded s (some c) cpu e =
    ap (λ (y : Task × Scheduler). some y.0) (some_pair (c, s) (cpu, s) e)
