-- ===== src/Scheduler/Pending.antt =====
-- The tasks that wait or run, and what it means that none is lost.
use ninjastorms.Prelude.{
  ℕ, ◌+◌, ◌≡◌, sym, ◌∙◌, ap, true, false, none, some, List, [], ◌∷◌, ◌++◌, arith, length,
  if◌then◌else◌, ltb, ◌==◌, length-append,
}
use ninjastorms.Scheduler.{TaskPtr, Scheduler}
use ninjastorms.Scheduler.Queue.{waiting}
use ninjastorms.Scheduler.Rotation.{line}

-- The tasks that will run: those that wait, and the running one once there is one.
abbrev pub pending : Scheduler → List TaskPtr
pending s = if s.is_running then line s else waiting s

unfoldable pub occurrences : ℕ → List TaskPtr → ℕ
occurrences i [] = 0
occurrences i (none ∷ q) = occurrences i q
occurrences i (some j ∷ q) = (if i == j then 1 else 0) + occurrences i q

occurrences-append :
    (i : ℕ) (xs ys : List TaskPtr) → occurrences i (xs ++ ys) ≡ occurrences i xs + occurrences i ys
unfolding occurrences
occurrences-append i [] ys = omega arith
occurrences-append i (none ∷ xs) ys = occurrences-append i xs ys
occurrences-append i (some j ∷ xs) ys = omega (arith, occurrences-append i xs ys)

-- Each added task is pending exactly once, and nothing else is.
pub record NoneLost (s : Scheduler) : Type 0 where
  pub counted : length (pending s) ≡ s.task_count
  pub once : (i : ℕ) → occurrences i (pending s) ≡ (if ltb i s.task_count then 1 else 0)

-- The new task goes to the end of those pending.
pub NoneLost-append :
    (s t : Scheduler)
    → NoneLost s
    → pending t ≡ pending s ++ some s.task_count ∷ []
    → t.task_count ≡ s.task_count + 1
    → NoneLost t
unfolding occurrences
NoneLost-append s t n e c = record {
  counted =
      omega (arith, ap length e, length-append (pending s) (some s.task_count ∷ []), n.counted);
  once =
      λ i. ground (arith, e, occurrences-append i (pending s) (some s.task_count ∷ []), n.once i);
}

-- Moving the first to the end changes no count.
pub NoneLost-rotate :
    (s t : Scheduler) (x : TaskPtr) (q : List TaskPtr)
    → NoneLost s
    → pending s ≡ x ∷ q
    → pending t ≡ q ++ x ∷ []
    → t.task_count ≡ s.task_count
    → NoneLost t
unfolding occurrences
NoneLost-rotate s t x q n e e' c = record {
  counted = omega (arith, ap length e, ap length e', length-append q (x ∷ []), n.counted);
  once = λ i. go x i (n.once i) (ap (occurrences i) e) (ap (occurrences i) e');
}
  where
    go :
        (x : TaskPtr) (i : ℕ)
        → occurrences i (pending s) ≡ (if ltb i s.task_count then 1 else 0)
        → occurrences i (pending s) ≡ occurrences i (x ∷ q)
        → occurrences i (pending t) ≡ occurrences i (q ++ x ∷ [])
        → occurrences i (pending t) ≡ (if ltb i t.task_count then 1 else 0)
    go none i h f f' = ground (arith, occurrences-append i q (none ∷ []))
    go (some j) i h f f' = ground (arith, occurrences-append i q (some j ∷ []))

pub NoneLost-errno : (s : Scheduler) (e : ℕ) → NoneLost s → NoneLost (record s { errno = e })
NoneLost-errno s e n = record { counted = n.counted; once = n.once }

pub pending_on : (s : Scheduler) → s.is_running ≡ true → pending s ≡ line s
pending_on s on = ground arith

pub pending_off : (s : Scheduler) → s.is_running ≡ false → pending s ≡ waiting s
pending_off s off = ground arith

pub NoneLost-same :
    (s t : Scheduler)
    → NoneLost s
    → pending t ≡ pending s
    → t.task_count ≡ s.task_count
    → NoneLost t
NoneLost-same s t n e c = record {
  counted = ap length e ∙ n.counted ∙ sym c;
  once = λ i. ap (occurrences i) e ∙ n.once i ∙ ap (λ k. if ltb i k then 1 else 0) (sym c);
}
