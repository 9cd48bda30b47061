-- ===== src/Malloc/Tests.antt =====
-- The allocator's theorems at a heap of two blocks, one of them free.
use ninjastorms.Prelude.{
  ℕ, ◌+◌, ◌-◌, ◌^◌, ◌<◌, ◌≤◌, ◌≡◌, ◌≢◌, refl, false, some, List, [], ◌∷◌, arith, if◌then◌else◌,
  ◌==◌,
}
use ninjastorms.Malloc.{
  Heap, null, overhead, heap_start, request, malloc, free, sbrk, fresh, find, grow, finish,
  align_16,
}
use ninjastorms.Malloc.Align.{request_lem}
use ninjastorms.Malloc.Valid.{IsValid, is_live}
use ninjastorms.Malloc.Allocation.{Result, malloc_lem, free-IsValid, malloc-free}
use ninjastorms.Malloc.Held.{Apart}
use ninjastorms.Malloc.Blocks.{max_request}
use ninjastorms.Malloc.Reach.{Reach, starts, mallocs, Reach-Apart}
use ninjastorms.Malloc.Wrap.{malloc_wraps}

-- The addresses of three blocks of 32 bytes each.
abbrev first : ℕ
first = heap_start

abbrev second : ℕ
second = heap_start + 32

abbrev third : ℕ
third = heap_start + 64

-- The first block is free, the others are live.
abbrev two_live : Heap
two_live = record {
  next = λ a. 0;
  size = λ a. 32;
  free_list = first;
  current = heap_start + 96;
  errno = 0;
}

abbrev blocks : List ℕ
blocks = first ∷ second ∷ third ∷ []

two_live-IsValid : IsValid two_live blocks (first ∷ [])
two_live-IsValid = record {
  tiles = ground arith;
  in_heap = omega arith;
  chain = ground arith;
  distinct = ground arith;
  known = λ b h. ground arith;
}

malloc_lem_example :
    (p : ℕ) × (h' : Heap) × (bs' : List ℕ) × (fs' : List ℕ) × (malloc 2 16 two_live ≡ some (p, h'))
    × IsValid h' bs' fs'
    × Result 16 two_live blocks (first ∷ []) p h' bs' fs'
malloc_lem_example =
    malloc_lem 2 16 two_live blocks (first ∷ []) two_live-IsValid (omega arith) (omega arith)

free-IsValid_example :
    IsValid (free (third + overhead) two_live) blocks (third ∷ first ∷ [])
    × (is_live blocks (third ∷ first ∷ []) third ≡ false)
    × ((a : ℕ) → a ≢ third → is_live blocks (third ∷ first ∷ []) a ≡ is_live blocks (first ∷ []) a)
free-IsValid_example = free-IsValid two_live blocks (first ∷ []) third two_live-IsValid refl

request_small : request 10 ≤ 32
request_small = omega (arith, request_lem 10 (omega arith))

malloc-free_example :
    (h' : Heap) × (malloc 3 10 (free (third + overhead) two_live) ≡ some (third + overhead, h'))
    × IsValid h' blocks (first ∷ [])
malloc-free_example =
    malloc-free 3 10 two_live blocks (first ∷ []) third two_live-IsValid refl request_small
      (omega arith) (omega arith)

-- An empty free list behind one block.
abbrev one_block : Heap
one_block = record {
  next = λ a. 0;
  size = λ a. 32;
  free_list = null;
  current = heap_start + 32;
  errno = 0;
}

-- The request for almost 2^32 bytes.
huge : (request (2 ^ 32 - 80) < 2 ^ 32) × (2 ^ 32 ≤ one_block.current + request (2 ^ 32 - 80))
huge = omega (arith, request_lem (2 ^ 32 - 80) (omega arith))

malloc_wraps_example :
    (h' : Heap) × (malloc 1 (2 ^ 32 - 80) one_block ≡ some (one_block.current + overhead, h'))
    × (h'.current < one_block.current)
malloc_wraps_example =
    malloc_wraps 0 (2 ^ 32 - 80) one_block (omega arith) (omega arith) refl huge.0 huge.1

-- Two calls of `malloc` on a fresh heap.
abbrev once : Heap
once = record {
  next = λ a. 0;
  size = λ a. if first == a then 48 else 0;
  free_list = null;
  current = heap_start + 48;
  errno = 0;
}

abbrev twice : Heap
twice = record {
  next = λ a. 0;
  size = λ a. if (heap_start + 48) == a then 32 else once.size a;
  free_list = null;
  current = heap_start + 80;
  errno = 0;
}

two_held : Reach twice ((heap_start + 64, 5) ∷ (heap_start + 16, 20) ∷ [])
unfolding malloc find request align_16 finish grow sbrk fresh
two_held =
    mallocs 1 5 (heap_start + 64) once twice ((heap_start + 16, 20) ∷ [])
      (mallocs 1 20 (heap_start + 16) (fresh (λ a. 0) (λ a. 0)) once [] (starts (λ a. 0) (λ a. 0))
        (omega arith) refl)
      (omega arith) refl

Reach-Apart_example :
    Apart ((heap_start + 64, 5) ∷ (heap_start + 16, 20) ∷ [])
    × ((n : ℕ)
        → n ≤ max_request
        → (fuel : ℕ) × (p : ℕ) × (h' : Heap) × (malloc fuel n twice ≡ some (p, h')))
Reach-Apart_example = Reach-Apart twice ((heap_start + 64, 5) ∷ (heap_start + 16, 20) ∷ []) two_held
