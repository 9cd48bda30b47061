-- ===== src/Malloc/Blocks.antt =====
-- What a call of `malloc` (libc/stdlib/malloc.c) does to the lists of blocks.
use native.Mathlib.Decide.{ℕ_discrete, dec_le}
use mathlib.Core.Path.{◌∙◌}
use ninjastorms.Prelude.{
  ℕ, ◌+◌, ◌-◌, ◌%◌, ◌^◌, ◌≡◌, ◌≢◌, ◌<◌, ◌≤◌, refl, ap, some, List, [], ◌∷◌, ◌++◌, arith, update,
  length, sym,
}
use ninjastorms.Malloc.{
  Heap, null, overhead, heap_start, enomem, sbrk, list_head, finish, grow, request, malloc,
}
use ninjastorms.Malloc.Align.{request_lem}
use ninjastorms.Malloc.Chain.{first_fit, remove_first_fit}
use ninjastorms.Malloc.Find.{Found, find-Found}
use ninjastorms.Malloc.Valid.{
  heap_end, IsValid, Tiles-le, Tiles-within, Tiles-append, has-append, has-remove, Distinct-remove,
  first_fit-fits, Chain-not-null,
}

-- Requests up to here wrap round 32 bits nowhere, wherever the heap ends.
abbrev pub max_request : ℕ
max_request = 2 ^ 32 - heap_end - 32

-- `sbrk` moves the end of the heap, or fails and changes `errno` only.
sbrk_fits :
    (n : ℕ) (h : Heap)
    → h.current + n ≤ heap_end
    → sbrk n h ≡ (h.current, record h { current = h.current + n })
unfolding sbrk
sbrk_fits n h k = ground arith

sbrk_full :
    (n : ℕ) (h : Heap)
    → h.current + n < 2 ^ 32
    → heap_end < h.current + n
    → sbrk n h ≡ (null, record h { errno = enomem })
unfolding sbrk
sbrk_full n h w k = ground arith

start-le-current : {h : Heap} {blocks fs : List ℕ} → IsValid h blocks fs → heap_start ≤ h.current
start-le-current {h} {blocks} v = Tiles-le h.size heap_start h.current blocks v.tiles

grow_fits :
    (n : ℕ) (h : Heap)
    → heap_start ≤ h.current
    → h.current + n ≤ heap_end
    → grow n h ≡ (
      h.current + overhead,
      record h { current = h.current + n; size = update h.size h.current n },
    )
unfolding grow
grow_fits n h s k = ground (arith, sbrk_fits n h k)

grow_full :
    (n : ℕ) (h : Heap)
    → h.current + n < 2 ^ 32
    → heap_end < h.current + n
    → grow n h ≡ (null, record h { errno = enomem })
unfolding grow
grow_full n h w k = ground (arith, sbrk_full n h w k)

-- How `malloc` serves a request of `size` bytes, header included: it takes the first free block that
-- fits, else it takes the block from the end of the heap, else it returns null and sets `errno`.
pub data Served (size : ℕ) (h : Heap) (blocks fs : List ℕ) : ℕ → Heap → Type 0 where
  reused :
      (p : ℕ) (h' : Heap)
      → first_fit h.size size fs ≢ null
      → p ≡ first_fit h.size size fs + overhead
      → h'.size ≡ h.size
      → IsValid h' blocks (remove_first_fit h.size size fs)
      → Served size h blocks fs p h'
  grown :
      (p : ℕ) (h' : Heap)
      → first_fit h.size size fs ≡ null
      → p ≡ h.current + overhead
      → h'.size ≡ update h.size h.current size
      → IsValid h' (blocks ++ h.current ∷ []) fs
      → Served size h blocks fs p h'
  failed :
      (p : ℕ) (h' : Heap)
      → first_fit h.size size fs ≡ null
      → heap_end < h.current + size
      → p ≡ null
      → h' ≡ record h { errno = enomem }
      → Served size h blocks fs p h'

finish-null : (size : ℕ) (h : Heap) → finish size (null, h) ≡ grow size h
unfolding finish
finish-null size h = refl

finish_block :
    (size b : ℕ) (h : Heap)
    → b ≢ null
    → b + overhead < 2 ^ 32
    → finish size (b, h) ≡ (b + overhead, h)
unfolding finish
finish_block size b h n k = ground arith

-- The heap after a block was reused.
reused-IsValid :
    (size : ℕ) (h h' : Heap) (blocks fs : List ℕ) (b : ℕ)
    → IsValid h blocks fs
    → Found size list_head fs h (b, h')
    → IsValid h' blocks (remove_first_fit h.size size fs)
reused-IsValid size h h' blocks fs b v f =
    let (s, c, _) = f.same in
    let z = Chain-not-null h.next h.free_list fs v.chain in
    record {
      tiles = rw (s, c) v.tiles;
      in_heap = rw c v.in_heap;
      chain = f.chain;
      distinct = Distinct-remove h.size size fs v.distinct z;
      known = λ a i. v.known a (ground (arith, has-remove h.size size a fs v.distinct z, i));
    }

grown-IsValid :
    (size : ℕ) (h : Heap) (blocks fs : List ℕ)
    → IsValid h blocks fs
    → size % 16 ≡ 0
    → overhead ≤ size
    → h.current + size ≤ heap_end
    → IsValid
        (record h { current = h.current + size; size = update h.size h.current size })
        (blocks ++ h.current ∷ [])
        fs
grown-IsValid size h blocks fs v m o k = record {
  tiles = Tiles-append h.size heap_start h.current size blocks v.tiles m o;
  in_heap = k;
  chain = v.chain;
  distinct = v.distinct;
  known = λ a i. ground (arith, has-append a h.current blocks, v.known a i);
}

-- The block that is found lies in the heap.
first_fit-within :
    (size : ℕ) (h : Heap) (blocks fs : List ℕ)
    → IsValid h blocks fs
    → first_fit h.size size fs ≢ null
    → first_fit h.size size fs + overhead ≤ heap_end
first_fit-within size h blocks fs v n =
    let (i, _) = first_fit-fits h.size size fs n in
    omega (
      arith,
      v.in_heap,
      Tiles-within h.size heap_start h.current blocks (first_fit h.size size fs) v.tiles
          (omega arith) (v.known _ i),
    )

serve :
    (size : ℕ) (h : Heap) (blocks fs : List ℕ) (b : ℕ) (h' : Heap)
    → IsValid h blocks fs
    → size % 16 ≡ 0
    → overhead ≤ size
    → h.current + size < 2 ^ 32
    → Found size list_head fs h (b, h')
    → Served size h blocks fs (finish size (b, h')).0 (finish size (b, h')).1
serve size h blocks fs b h' v m o w f = elim (ℕ_discrete (first_fit h.size size fs) null) [
  | no n ↦
      let e : finish size (b, h') ≡ (b + overhead, h') =
        finish_block size b h' (λ z. n (sym f.block ∙ z))
          (omega (arith, f.block, first_fit-within size h blocks fs v n)) in
      rw e (
        reused (b + overhead) h' n (ap (λ k. k + overhead) f.block) f.same.0
          (reused-IsValid size h h' blocks fs b v f))
  | yes z ↦
      let eb : b ≡ null = f.block ∙ z in
      let eh : h' ≡ h = f.unchanged z in
      rw (eb, eh, finish-null size h)
        (elim (dec_le (h.current + size) heap_end) [
          | yes k ↦
              rw (grow_fits size h (start-le-current v) k)
                (grown _ _ z refl refl (grown-IsValid size h blocks fs v m o k))
          | no k ↦ rw (grow_full size h w (omega arith)) (failed _ _ z (omega arith) refl refl)
        ])
]

-- With more fuel than free blocks `malloc` returns, and it has served the request: the size that it
-- looks for holds the header and the bytes asked for and is a multiple of 16.
pub malloc-Served :
    (fuel n : ℕ) (h : Heap) (blocks fs : List ℕ)
    → IsValid h blocks fs
    → length fs < fuel
    → n ≤ max_request
    → (p : ℕ) × (h' : Heap) × (malloc fuel n h ≡ some (p, h')) × Served (request n) h blocks fs p h'
unfolding malloc
malloc-Served fuel n h blocks fs v k m =
    let (aligned, room, small) = request_lem n (omega arith) in
    let (out, run, f) =
      find-Found fuel (request n) list_head h.free_list fs h k tt v.distinct refl v.chain in
    let result = finish (request n) out in
    (
      result.0,
      result.1,
      rw (run, malloc) refl,
      serve (request n) h blocks fs out.0 out.1 v aligned (omega arith) (omega (arith, v.in_heap))
          f,
    )
