-- ===== src/Malloc/Fuel.antt =====
-- The fuel of the search loop of `malloc`, libc/stdlib/malloc.c.
use ninjastorms.Prelude.{ℕ, zero, suc, ◌≤◌, ◌≡◌, inl, inr, some, arith, Option-cases}
use ninjastorms.Malloc.{Heap, Link, list_head, find, malloc, request}

find_more :
    (a b size : ℕ) (head : Link) (block : ℕ) (h : Heap) (r : ℕ × Heap)
    → a ≤ b
    → find a size head block h ≡ some r
    → find b size head block h ≡ some r
unfolding find
find_more zero b size head block h r k e = cc
find_more (suc a) zero size head block h r k e = absurd (omega arith)
find_more (suc a) (suc b) size head block h r k e =
    let more = find_more a b size (Link.next_of block) (h.next block) h r (omega arith) in
    ground (arith, more)

pub malloc_more :
    (a b n : ℕ) (h : Heap) (r : ℕ × Heap) → a ≤ b → malloc a n h ≡ some r → malloc b n h ≡ some r
unfolding malloc
malloc_more a b n h r k e = elim (Option-cases (find a (request n) list_head h.free_list h)) [
  | inl out ↦ cc (out, e)
  | inr (found, run) ↦
      let run' = find_more a b (request n) list_head h.free_list h found k run in
      rw (run', malloc) (rw (run, malloc) at e)
]
