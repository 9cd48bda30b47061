-- ===== src/Malloc.antt =====
-- libc/stdlib/malloc.c and libc/unistd/sbrk.c: a first-fit free list over a heap that only grows.
-- Addresses and sizes are 32-bit numbers. The two fields of a block header are stores that the
-- block's address indexes; the null pointer is address 0.
pub mod Align
pub mod Chain
pub mod Find
pub mod Valid
pub mod Blocks
pub mod Allocated
pub mod Allocation
pub mod Enough
pub mod Fuel
pub mod Held
pub mod Reach
pub mod Wrap
mod Tests
use ninjastorms.Prelude.{
  ℕ, zero, suc, ◌+◌, ◌-◌, ◌*◌, ◌%◌, ◌^◌, Option, none, some, if◌then◌else◌, ◌==◌, leb, ltb, bit_and,
  update,
}

pub record Heap : Type 0 where
  -- `block->next` and `block->size`
  pub next : ℕ → ℕ
  pub size : ℕ → ℕ
  -- `free_block_list_head.next`
  pub free_list : ℕ
  -- `current_heap_address` of sbrk.c
  pub current : ℕ
  pub errno : ℕ

abbrev pub null : ℕ
null = 0

abbrev pub enomem : ℕ
enomem = 12

abbrev pub heap_start : ℕ
heap_start = 0x5000000

abbrev pub heap_size : ℕ
heap_size = 0x1000000

-- `ALIGN_16`; on 32 bits `-16` is 0xfffffff0.
pub align_16 : ℕ → ℕ
align_16 val = bit_and ((val + 15) % 2 ^ 32) 0xfffffff0

-- `ALIGN_16(sizeof(block_t))`
abbrev pub overhead : ℕ
overhead = 16

-- The next block starts where the heap ends.
pub sbrk : ℕ → Heap → ℕ × Heap
sbrk increment h =
    if ltb (heap_start + heap_size) ((h.current + increment) % 2 ^ 32)
    then (null, record h { errno = enomem })
    else (h.current, record h { current = (h.current + increment) % 2 ^ 32 })

-- A `block_t **` points to the list's head or to the `next` field of a block.
pub data Link : Type 0 where
  list_head : Link
  next_of : ℕ → Link

-- `*head` and `*head = v`
abbrev pub load_link : Link → Heap → ℕ
load_link list_head h = h.free_list
load_link (next_of b) h = h.next b

abbrev pub store_link : Link → ℕ → Heap → Heap
store_link list_head v h = record h { free_list = v }
store_link (next_of b) v h = record h { next = update h.next b v }

-- The search loop of `malloc`: the block that it unlinks, or null. `none` means that the fuel ran
-- out, which a list with fewer blocks than the fuel never does.
pub find : ℕ → ℕ → Link → ℕ → Heap → Option (ℕ × Heap)
find zero size head block h = none
find (suc fuel) size head block h =
    let rest = find fuel size (next_of block) (h.next block) h in
    if block == null
    then some (null, h)
    else if leb size (h.size block)
    then some (block, store_link head (h.next block) h)
    else rest

-- `malloc` behind its loop: a fresh block when none was found.
pub grow : ℕ → Heap → ℕ × Heap
grow size h =
    let (block, h') = sbrk size h in
    if block == null
    then (null, record h' { errno = enomem })
    else ((block + overhead) % 2 ^ 32, record h' { size = update h'.size block size })

pub finish : ℕ → ℕ × Heap → ℕ × Heap
unfolding grow
finish size (block, h) = if block == null then grow size h else ((block + overhead) % 2 ^ 32, h)

-- The request that the list is searched for: header and rounding included.
pub request : ℕ → ℕ
request size = align_16 ((size + overhead) % 2 ^ 32)

pub malloc : ℕ → ℕ → Heap → Option (ℕ × Heap)
malloc fuel size h = elim (find fuel (request size) list_head h.free_list h) [
  | none ↦ none
  | some (block, h') ↦ some (finish (request size) (block, h'))
]

-- `free` puts the block in front of the list. Its pointer arithmetic is on 32 bits.
pub free : ℕ → Heap → Heap
free ptr h =
    let block = (ptr + 2 ^ 32 - overhead) % 2 ^ 32 in
    record h { next = update h.next block h.free_list; free_list = block }

-- The state that the static initialisers give. Memory that was never written is a parameter.
unfoldable pub fresh : (ℕ → ℕ) → (ℕ → ℕ) → Heap
fresh next size = record {
  next = next;
  size = size;
  free_list = null;
  current = heap_start;
  errno = 0;
}
