-- ===== src/Malloc/Wrap.antt =====
-- Requests so large that the 32-bit sums of malloc.c and sbrk.c wrap round.
use ninjastorms.Prelude.{ℕ, suc, ◌+◌, ◌^◌, ◌≡◌, ◌≢◌, ◌<◌, ◌≤◌, some, arith}
use ninjastorms.Malloc.{Heap, null, overhead, heap_start, request, sbrk, grow, finish, find, malloc}
use ninjastorms.Malloc.Valid.{heap_end}

-- When the end of the heap and the increment add up to 2^32 or more, the test of `sbrk` passes: it
-- returns the old end as if there were room, and moves the end of the heap down.
pub sbrk_wraps :
    (n : ℕ) (h : Heap)
    → heap_start ≤ h.current
    → h.current ≤ heap_end
    → n < 2 ^ 32
    → 2 ^ 32 ≤ h.current + n
    → let (p, h') = sbrk n h in
      (p ≡ h.current) × (p ≢ null) × (h'.current < h.current) × (h'.errno ≡ h.errno)
unfolding sbrk
sbrk_wraps n h s c k w = ground arith

grow_wraps :
    (n : ℕ) (h : Heap)
    → heap_start ≤ h.current
    → h.current ≤ heap_end
    → n < 2 ^ 32
    → 2 ^ 32 ≤ h.current + n
    → ((grow n h).0 ≡ h.current + overhead) × ((grow n h).1.current < h.current)
unfolding grow
grow_wraps n h s c k w = ground (arith, sbrk_wraps n h s c k w)

-- With the end of the heap inside the heap, an empty free list and a request of 32 bits that wraps
-- round when added to the end, `malloc` hands out the end of the heap as if there were room, and
-- moves the end of the heap down.
pub malloc_wraps :
    (fuel n : ℕ) (h : Heap)
    → heap_start ≤ h.current
    → h.current ≤ heap_end
    → h.free_list ≡ null
    → request n < 2 ^ 32
    → 2 ^ 32 ≤ h.current + request n
    → (h' : Heap) × (malloc (suc fuel) n h ≡ some (h.current + overhead, h'))
      × (h'.current < h.current)
unfolding malloc find finish
malloc_wraps fuel n h s c e k w =
    let (p, lower) = grow_wraps (request n) h s c k w in
    ((grow (request n) h).1, ground (arith, p), lower)
