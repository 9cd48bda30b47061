-- ===== src/Malloc/Reach.antt =====
-- Histories of `malloc` and `free` (libc/stdlib/malloc.c) on a fresh heap.
use ninjastorms.Prelude.{
  ℕ, suc, ◌+◌, ◌≤◌, ◌≡◌, ◌≢◌, refl, inl, inr, true, false, some, List, [], ◌∷◌, arith, length, ◌==◌,
  subst, ◌∙◌,
}
use ninjastorms.Malloc.{Heap, null, overhead, malloc, free, fresh}
use ninjastorms.Malloc.Valid.{IsValid, is_live}
use ninjastorms.Malloc.Blocks.{max_request}
use ninjastorms.Malloc.Allocated.{Allocated}
use ninjastorms.Malloc.Allocation.{Result, given, refused, malloc_lem, free-IsValid, size-free}
use ninjastorms.Malloc.Fuel.{malloc_more}
use ninjastorms.Malloc.Held.{
  Allocations, Holds, obtain, release, Apart, Owned, Different, Holds-release, Different-release,
  Owned-Apart,
}

-- A program calls `malloc` with any size up to the bound, and `free` on a pointer that it holds.
pub data Reach : Heap → Allocations → Type 0 where
  starts : (next size : ℕ → ℕ) → Reach (fresh next size) []
  mallocs :
      (fuel n p : ℕ) (h h' : Heap) (l : Allocations)
      → Reach h l
      → n ≤ max_request
      → malloc fuel n h ≡ some (p, h')
      → Reach h' (obtain p n l)
  frees :
      (p n : ℕ) (h : Heap) (l : Allocations)
      → Reach h l
      → Holds p n l
      → Reach (free p h) (release p l)

record Sound (h : Heap) (l : Allocations) : Type 0 where
  blocks : List ℕ
  free_blocks : List ℕ
  valid : IsValid h blocks free_blocks
  owned : (p n : ℕ) → Holds p n l → Owned h blocks free_blocks p n
  different : Different l

starts-Sound : (next size : ℕ → ℕ) → Sound (fresh next size) []
unfolding fresh
starts-Sound next size = record {
  blocks = [];
  free_blocks = [];
  valid = record {
    tiles = refl;
    in_heap = omega arith;
    chain = refl;
    distinct = tt;
    known = λ b i. cc;
  };
  owned = λ p n i. absurd i;
  different = tt;
}

-- A block that was not live before is no block of an allocation.
Owned-other :
    (n b : ℕ) (h h' : Heap) (bs fs bs' fs' : List ℕ) (q m : ℕ)
    → Allocated n b h bs fs h' bs' fs'
    → Owned h bs fs q m
    → Owned h' bs' fs' q m × (b + overhead ≢ q)
Owned-other n b h h' bs fs bs' fs' q m a (c, e, i, k) =
    let ne : c ≢ b = λ same. ground (arith, a.was_not_live) in
    ((c, e, ground (arith, a.others c ne), omega (arith, a.sizes c ne)), omega (arith, ne))

obtain-Sound :
    (n p : ℕ) (h h' : Heap) (l : Allocations) (s : Sound h l) (bs' fs' : List ℕ)
    → IsValid h' bs' fs'
    → Result n h s.blocks s.free_blocks p h' bs' fs'
    → Sound h' (obtain p n l)
obtain-Sound n p h h' l s bs' fs' v (given b _ _ _ _ e a) =
    let t : (p == null) ≡ false = ground arith in
    rw t (record {
      blocks = bs';
      free_blocks = fs';
      valid = v;
      owned = owned;
      different = ((λ q m i. rw e (other q m i).1), s.different);
    })
  where
    other : (q m : ℕ) → Holds q m l → Owned h' bs' fs' q m × (b + overhead ≢ q)
    other q m i = Owned-other n b h h' s.blocks s.free_blocks bs' fs' q m a (s.owned q m i)

    owned : (q m : ℕ) → Holds q m ((p, n) ∷ l) → Owned h' bs' fs' q m
    owned q m (inl (eq, em)) = (b, eq ∙ e, a.now_live, omega (arith, a.holds))
    owned q m (inr i) = (other q m i).0
obtain-Sound n p h h' l s _ _ v (refused _ _ e same _ _) =
    let t : (p == null) ≡ true = ground arith in
    rw (t, same)
      (record {
        blocks = s.blocks;
        free_blocks = s.free_blocks;
        valid = rw same at v;
        owned = s.owned;
        different = s.different;
      })

mallocs-Sound :
    (fuel n p : ℕ) (h h' : Heap) (l : Allocations)
    → Sound h l
    → n ≤ max_request
    → malloc fuel n h ≡ some (p, h')
    → Sound h' (obtain p n l)
mallocs-Sound fuel n p h h' l s k run =
    let enough = fuel + suc (length s.free_blocks) in
    let (p₂, h₂, bs, fs, run₂, v, r) =
      malloc_lem enough n h s.blocks s.free_blocks s.valid (omega arith) k in
    let more = malloc_more fuel enough n h (p, h') (omega arith) run in
    let same : (p₂, h₂) ≡ (p, h') = cc (run₂, more) in
    subst (λ (out : ℕ × Heap). Sound out.1 (obtain out.0 n l)) same
      (obtain-Sound n p₂ h h₂ l s bs fs v r)

-- What is not released stays owned.
frees-Owned :
    (b q m : ℕ) (h : Heap) (l : Allocations) (s : Sound h l)
    → ((a : ℕ) → a ≢ b → is_live s.blocks (b ∷ s.free_blocks) a ≡ is_live s.blocks s.free_blocks a)
    → Holds q m (release (b + overhead) l)
    → Owned (free (b + overhead) h) s.blocks (b ∷ s.free_blocks) q m
frees-Owned b q m h l s others j =
    let (ne, i) = Holds-release (b + overhead) q m l j in
    let (c, e, live, room) = s.owned q m i in
    (c, e, others c (omega arith) ∙ live, rw (size-free b h) room)

frees-Sound :
    (p n : ℕ) (h : Heap) (l : Allocations)
    → Sound h l
    → Holds p n l
    → Sound (free p h) (release p l)
frees-Sound p n h l s i =
    let (b, e, live, _) = s.owned p n i in
    let (v, _, others) = free-IsValid h s.blocks s.free_blocks b s.valid live in
    rw e (record {
      blocks = s.blocks;
      free_blocks = b ∷ s.free_blocks;
      valid = v;
      owned = λ q m j. frees-Owned b q m h l s others j;
      different = Different-release (b + overhead) l s.different;
    })

Reach-Sound : (h : Heap) (l : Allocations) → Reach h l → Sound h l
Reach-Sound _ _ (starts next size) = starts-Sound next size
Reach-Sound _ _ (mallocs fuel n p h h' l r k run) =
    mallocs-Sound fuel n p h h' l (Reach-Sound h l r) k run
Reach-Sound _ _ (frees p n h l r i) = frees-Sound p n h l (Reach-Sound h l r) i

-- However a program calls `malloc`, with at most 2^32 - 0x6000020 bytes each time, and `free`, on
-- pointers that it holds: the allocations that it holds are aligned to 16 bytes, lie in the heap and
-- do not overlap, and the next call of `malloc` ends.
pub Reach-Apart :
    (h : Heap) (l : Allocations)
    → Reach h l
    → Apart l
      × ((n : ℕ)
          → n ≤ max_request
          → (fuel : ℕ) × (p : ℕ) × (h' : Heap) × (malloc fuel n h ≡ some (p, h')))
Reach-Apart h l r =
    let s = Reach-Sound h l r in
    (
      Owned-Apart h l s.blocks s.free_blocks s.valid s.owned s.different,
      λ n k.
          let (p, h', _, _, run, _, _) =
            malloc_lem (suc (length s.free_blocks)) n h s.blocks s.free_blocks s.valid (omega arith)
              k in
          (suc (length s.free_blocks), p, h', run),
    )
