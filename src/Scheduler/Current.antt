-- ===== src/Scheduler/Current.antt =====
-- In every history of kernel/scheduler.c, the pending tasks are entries of the task table, none of them null.
use ninjastorms.Prelude.{
  ℕ, zero, suc, ◌+◌, ◌<◌, ◌≤◌, ◌≡◌, refl, sym, ◌∙◌, ap, none, some, List, [], ◌∷◌, arith, length,
  if◌then◌else◌, ltb,
}
use ninjastorms.Scheduler.{TaskPtr, Scheduler}
use ninjastorms.Scheduler.Pending.{pending, occurrences, NoneLost}

-- How many tasks with an index below `n` stand in a list, and how many that are not null.
total : ℕ → List TaskPtr → ℕ
total zero q = 0
total (suc n) q = total n q + occurrences n q

somes : List TaskPtr → ℕ
somes [] = 0
somes (none ∷ q) = somes q
somes (some j ∷ q) = suc (somes q)

total-none : (n : ℕ) (q : List TaskPtr) → total n (none ∷ q) ≡ total n q
unfolding total occurrences
total-none zero q = refl
total-none (suc n) q = omega (arith, total-none n q)

total-some :
    (n j : ℕ) (q : List TaskPtr) → total n (some j ∷ q) ≡ total n q + (if ltb j n then 1 else 0)
unfolding total occurrences
total-some zero j q = ground arith
total-some (suc n) j q = ground (arith, total-some n j q)

total-nil : (n : ℕ) → total n [] ≡ 0
unfolding total occurrences
total-nil zero = refl
total-nil (suc n) = omega (arith, total-nil n)

total-le-somes : (n : ℕ) (q : List TaskPtr) → total n q ≤ somes q
unfolding somes
total-le-somes n [] = omega (arith, total-nil n)
total-le-somes n (none ∷ q) = omega (arith, total-none n q, total-le-somes n q)
total-le-somes n (some j ∷ q) = ground (arith, total-some n j q, total-le-somes n q)

somes-le-length : (q : List TaskPtr) → somes q ≤ length q
unfolding somes
somes-le-length [] = omega arith
somes-le-length (none ∷ q) = omega (arith, somes-le-length q)
somes-le-length (some j ∷ q) = omega (arith, somes-le-length q)

total-once :
    (n m : ℕ) (q : List TaskPtr)
    → n ≤ m
    → ((i : ℕ) → occurrences i q ≡ (if ltb i m then 1 else 0))
    → total n q ≡ n
unfolding total
total-once zero m q h once = refl
total-once (suc n) m q h once = ground (arith, once n, total-once n m q (omega arith) once)

-- The first one of a list in which each task stands once.
first_some :
    (n : ℕ) (x : TaskPtr) (q : List TaskPtr)
    → length (x ∷ q) ≡ n
    → ((i : ℕ) → occurrences i (x ∷ q) ≡ (if ltb i n then 1 else 0))
    → (j : ℕ) × (x ≡ some j) × (j < n)
unfolding somes occurrences
first_some n none q l once = absurd (
    omega (
      arith,
      total-once n n (none ∷ q) (omega arith) once,
      total-none n q,
      total-le-somes n q,
      somes-le-length q,
    ))
first_some n (some j) q l once = (j, refl, ground (arith, once j))

-- The running task is an entry of the table.
pub current_some :
    (s : Scheduler) (q : List TaskPtr)
    → NoneLost s
    → pending s ≡ s.current_task ∷ q
    → (j : ℕ) × (s.current_task ≡ some j) × (j < s.task_count)
current_some s q n e =
    first_some s.task_count s.current_task q (ap length (sym e) ∙ n.counted)
      (λ i. ap (occurrences i) (sym e) ∙ n.once i)
