-- ===== src/Malloc/Enough.antt =====
-- Calls of `malloc` (libc/stdlib/malloc.c) in a row: the fuel for all, and where their blocks lie.
use ninjastorms.Prelude.{
  ℕ, ◌+◌, ◌≡◌, ◌<◌, ◌≤◌, true, some, List, [], ◌∷◌, ◌++◌, arith, length, ◌⊎◌, inl, inr, subst,
}
use ninjastorms.Malloc.{Heap, null, heap_start, enomem, request, malloc}
use ninjastorms.Malloc.Chain.{has, remove_first_fit}
use ninjastorms.Malloc.Valid.{heap_end, IsValid, Tiles-within}
use ninjastorms.Malloc.Blocks.{max_request, Served, reused, grown, failed, malloc-Served}
use ninjastorms.Malloc.Allocation.{Result, given, refused, IsValid-errno, malloc_lem}

length-remove_first_fit :
    (sizes : ℕ → ℕ) (n : ℕ) (fs : List ℕ) → length (remove_first_fit sizes n fs) ≤ length fs
unfolding remove_first_fit
length-remove_first_fit sizes n [] = omega arith
length-remove_first_fit sizes n (b ∷ fs) = ground (arith, length-remove_first_fit sizes n fs)

Served-length :
    (size : ℕ) (h : Heap) (bs fs : List ℕ) (p : ℕ) (h' : Heap)
    → IsValid h bs fs
    → Served size h bs fs p h'
    → (bs' : List ℕ) × (fs' : List ℕ) × IsValid h' bs' fs' × (length fs' ≤ length fs)
Served-length size h bs fs p h' v (reused _ _ ne e s v') =
    (bs, remove_first_fit h.size size fs, v', length-remove_first_fit h.size size fs)
Served-length size h bs fs p h' v (grown _ _ z e s v') = (bs ++ h.current ∷ [], fs, v', omega arith)
Served-length size h bs fs p h' v (failed _ _ z full e s) =
    (bs, fs, rw s (IsValid-errno h bs fs enomem v), omega arith)

-- The fuel that is enough for a call of `malloc` is enough for the next one.
pub malloc-fuel :
    (fuel n : ℕ) (h : Heap) (bs fs : List ℕ)
    → IsValid h bs fs
    → length fs < fuel
    → n ≤ max_request
    → (p : ℕ) × (h' : Heap) × (bs' : List ℕ) × (fs' : List ℕ) × (malloc fuel n h ≡ some (p, h'))
      × IsValid h' bs' fs'
      × (length fs' < fuel)
malloc-fuel fuel n h bs fs v k m =
    let (p, h', run, s) = malloc-Served fuel n h bs fs v k m in
    let (bs', fs', v', l) = Served-length (request n) h bs fs p h' v s in
    (p, h', bs', fs', run, v', omega (arith, l))

-- What is handed out lies in the heap.
Result-within :
    (n : ℕ) (h h' : Heap) (bs fs bs' fs' : List ℕ) (p : ℕ)
    → IsValid h' bs' fs'
    → Result n h bs fs p h' bs' fs'
    → (p ≡ null) ⊎ ((heap_start < p) × (p + n ≤ heap_end))
Result-within n h h' bs fs bs' fs' p v' (given b _ _ _ _ e a) =
    let i : has b bs' ≡ true = ground (arith, a.now_live) in
    let (lo, hi, _, _, _) =
      Tiles-within h'.size heap_start h'.current bs' b v'.tiles (omega arith) i in
    inr (omega (arith, e, lo), omega (arith, e, hi, a.holds, v'.in_heap))
Result-within n h h' bs fs bs' fs' p v' (refused _ _ e _ _ _) = inl e

pub malloc-within :
    (fuel n : ℕ) (h h' : Heap) (bs fs : List ℕ) (p : ℕ)
    → IsValid h bs fs
    → length fs < fuel
    → n ≤ max_request
    → malloc fuel n h ≡ some (p, h')
    → (p ≡ null) ⊎ ((heap_start < p) × (p + n ≤ heap_end))
malloc-within fuel n h h' bs fs p v k m run =
    let (q, h₁, bs', fs', run', v', r) = malloc_lem fuel n h bs fs v k m in
    let same : q ≡ p = cc (run, run') in
    subst (λ x. (x ≡ null) ⊎ ((heap_start < x) × (x + n ≤ heap_end))) same
      (Result-within n h h₁ bs fs bs' fs' q v' r)
