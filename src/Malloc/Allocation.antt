-- ===== src/Malloc/Allocation.antt =====
-- What a caller of `malloc` and `free` (libc/stdlib/malloc.c) gets.
use mathlib.Core.Path.{◌∙◌}
use ninjastorms.Prelude.{
  ℕ, ◌+◌, ◌-◌, ◌%◌, ◌^◌, ◌≡◌, ◌≢◌, ◌<◌, ◌≤◌, refl, true, false, some, List, [], ◌∷◌, ◌++◌, arith,
  update, length, ◌⊎◌, sym,
}
use ninjastorms.Malloc.{Heap, null, overhead, heap_start, enomem, request, malloc, free}
use ninjastorms.Malloc.Align.{request_lem}
use ninjastorms.Malloc.Chain.{has, Chain-frame, first_fit, remove_first_fit}
use ninjastorms.Malloc.Valid.{heap_end, IsValid, is_live, Tiles-within, Tiles-apart}
use ninjastorms.Malloc.Blocks.{max_request, Served, reused, grown, failed, malloc-Served}
use ninjastorms.Malloc.Allocated.{Allocated, Allocated-reused, Allocated-grown}

-- What a call of `malloc` for `n` bytes comes to, with the pointer, the heap and the lists of blocks
-- behind it: a live block for the caller, or null when no free block fits and the heap has no room.
pub data Result (n : ℕ) (h : Heap) (bs fs : List ℕ) : ℕ → Heap → List ℕ → List ℕ → Type 0 where
  given :
      (b p : ℕ) (h' : Heap) (bs' fs' : List ℕ)
      → p ≡ b + overhead
      → Allocated n b h bs fs h' bs' fs'
      → Result n h bs fs p h' bs' fs'
  refused :
      (p : ℕ) (h' : Heap)
      → p ≡ null
      → h' ≡ record h { errno = enomem }
      → first_fit h.size (request n) fs ≡ null
      → heap_end < h.current + request n
      → Result n h bs fs p h' bs fs

pub IsValid-errno :
    (h : Heap) (bs fs : List ℕ) (e : ℕ) → IsValid h bs fs → IsValid (record h { errno = e }) bs fs
IsValid-errno h bs fs e v = record {
  tiles = v.tiles;
  in_heap = v.in_heap;
  chain = v.chain;
  distinct = v.distinct;
  known = v.known;
}

Served-Result :
    (n : ℕ) (h : Heap) (bs fs : List ℕ) (p : ℕ) (h' : Heap)
    → IsValid h bs fs
    → n + overhead ≤ request n
    → Served (request n) h bs fs p h'
    → (bs' : List ℕ) × (fs' : List ℕ) × IsValid h' bs' fs' × Result n h bs fs p h' bs' fs'
Served-Result n h bs fs p h' v o (reused _ _ ne e s v') = (
  bs,
  remove_first_fit h.size (request n) fs,
  v',
  given (first_fit h.size (request n) fs) p h' _ _ e
      (Allocated-reused n (request n) h h' bs fs v o ne s),
)
Served-Result n h bs fs p h' v o (grown _ _ z e s v') = (
  bs ++ h.current ∷ [],
  fs,
  v',
  given h.current p h' _ _ e (Allocated-grown n (request n) h h' bs fs v o s),
)
Served-Result n h bs fs p h' v o (failed _ _ z full e s) =
    (bs, fs, rw s (IsValid-errno h bs fs enomem v), refused p h' e s z full)

-- On a valid heap and for up to 2^32 - 0x6000020 bytes, `malloc` ends, given more fuel than there
-- are free blocks; it keeps the invariant, and either hands out 16 bytes behind the start of an
-- aligned block that was not live before, that holds the bytes, and beside which all live blocks
-- stay as they were, or returns null with `errno` set, which it does only when no free block and no
-- rest of the heap can hold the request.
pub malloc_lem :
    (fuel n : ℕ) (h : Heap) (bs fs : List ℕ)
    → IsValid h bs fs
    → length fs < fuel
    → n ≤ max_request
    → (p : ℕ) × (h' : Heap) × (bs' : List ℕ) × (fs' : List ℕ) × (malloc fuel n h ≡ some (p, h'))
      × IsValid h' bs' fs'
      × Result n h bs fs p h' bs' fs'
malloc_lem fuel n h bs fs v k m =
    let (p, h', run, s) = malloc-Served fuel n h bs fs v k m in
    let (_, room, _) = request_lem n (omega arith) in
    let (bs', fs', v', r) = Served-Result n h bs fs p h' v room s in (p, h', bs', fs', run, v', r)

-- On a valid heap two different live blocks do not overlap, and each lies within the heap.
pub live_apart :
    (h : Heap) (bs fs : List ℕ) (a b : ℕ)
    → IsValid h bs fs
    → is_live bs fs a ≡ true
    → is_live bs fs b ≡ true
    → a ≢ b
    → ((a + h.size a ≤ b) ⊎ (b + h.size b ≤ a)) × (heap_start ≤ a) × (a + h.size a ≤ heap_end)
live_apart h bs fs a b v i j n =
    let i' : has a bs ≡ true = ground arith in
    let j' : has b bs ≡ true = ground arith in
    let (lo, hi, _, _, _) =
      Tiles-within h.size heap_start h.current bs a v.tiles (omega arith) i' in
    (
      Tiles-apart h.size heap_start h.current bs a b v.tiles (omega arith) i' j' n,
      lo,
      omega (arith, hi, v.in_heap),
    )

free_lem :
    (b : ℕ) (h : Heap)
    → b + overhead < 2 ^ 32
    → free (b + overhead) h ≡ record h { next = update h.next b h.free_list; free_list = b }
unfolding free
free_lem b h k = let e : (b + overhead + 2 ^ 32 - overhead) % 2 ^ 32 ≡ b = omega arith in rw e

in_front :
    (h : Heap) (bs fs : List ℕ) (b : ℕ)
    → IsValid h bs fs
    → has b bs ≡ true
    → has b fs ≡ false
    → b ≢ null
    → IsValid (record h { next = update h.next b h.free_list; free_list = b }) bs (b ∷ fs)
in_front h bs fs b v known off n =
    let e : update h.next b h.free_list b ≡ h.free_list = ground arith in
    record {
      tiles = v.tiles;
      in_heap = v.in_heap;
      chain = (
        refl,
        n,
        rw e (
            Chain-frame h.next (update h.next b h.free_list) h.free_list fs v.chain
              (λ a i. ground (arith, i))),
      );
      distinct = (off, v.distinct);
      known = λ a i. ground (arith, v.known a, i);
    }

-- On a valid heap, `free` of a live block's pointer keeps the invariant: the block is not live any
-- more, all others are as they were.
pub free-IsValid :
    (h : Heap) (bs fs : List ℕ) (b : ℕ)
    → IsValid h bs fs
    → is_live bs fs b ≡ true
    → IsValid (free (b + overhead) h) bs (b ∷ fs)
      × (is_live bs (b ∷ fs) b ≡ false)
      × ((a : ℕ) → a ≢ b → is_live bs (b ∷ fs) a ≡ is_live bs fs a)
free-IsValid h bs fs b v i =
    let known : has b bs ≡ true = ground arith in
    let off : has b fs ≡ false = ground arith in
    let (lo, hi, o, _, _) =
      Tiles-within h.size heap_start h.current bs b v.tiles (omega arith) known in
    (
      rw (free_lem b h (omega (arith, hi, v.in_heap)))
          (in_front h bs fs b v known off (omega arith)),
      ground arith,
      λ a n. ground arith,
    )

pub size-free : (b : ℕ) (h : Heap) → (free (b + overhead) h).size ≡ h.size
unfolding free
size-free b h = refl

-- On a valid heap, with fuel for one more than the free blocks and at most 2^32 - 0x6000020 bytes,
-- a request that fits a live block which was just freed gets this block back; the free list is the
-- one from before the `free`, and the heap is valid.
pub malloc-free :
    (fuel n : ℕ) (h : Heap) (bs fs : List ℕ) (b : ℕ)
    → IsValid h bs fs
    → is_live bs fs b ≡ true
    → request n ≤ h.size b
    → length fs + 1 < fuel
    → n ≤ max_request
    → (h' : Heap) × (malloc fuel n (free (b + overhead) h) ≡ some (b + overhead, h'))
      × IsValid h' bs fs
unfolding first_fit remove_first_fit
malloc-free fuel n h bs fs b v i fits k m =
    let (v₁, _, _) = free-IsValid h bs fs b v i in
    let (p, h', run, s) =
      malloc-Served fuel n (free (b + overhead) h) bs (b ∷ fs) v₁ (omega arith) m in
    back p h' run s
  where
    ne : b ≢ null
    ne =
        omega (
          arith,
          Tiles-within h.size heap_start h.current bs b v.tiles (omega arith) (ground arith),
        )

    h₁ : Heap
    h₁ = free (b + overhead) h

    first : first_fit h₁.size (request n) (b ∷ fs) ≡ b
    first = rw (size-free b h) (ground arith)

    rest : remove_first_fit h₁.size (request n) (b ∷ fs) ≡ fs
    rest = rw (size-free b h) (ground arith)

    back :
        (p : ℕ) (h' : Heap)
        → malloc fuel n h₁ ≡ some (p, h')
        → Served (request n) h₁ bs (b ∷ fs) p h'
        → (h' : Heap) × (malloc fuel n h₁ ≡ some (b + overhead, h')) × IsValid h' bs fs
    back p h' run (reused _ _ ne e _ v') = (h', rw (e, first) at run, rw rest at v')
    back p h' run (grown _ _ z _ _ _) = absurd (ne (sym first ∙ z))
    back p h' run (failed _ _ z _ _ _) = absurd (ne (sym first ∙ z))
