-- ===== src/Malloc/Allocated.antt =====
-- The block that a call of `malloc` hands out, against those that were live before.
use ninjastorms.Prelude.{
  ℕ, ◌+◌, ◌%◌, ◌≡◌, ◌≢◌, ◌≤◌, ap, true, false, List, [], ◌∷◌, ◌++◌, arith, update, Bool-cases, inl,
  inr,
}
use ninjastorms.Malloc.{Heap, null, overhead, heap_start}
use ninjastorms.Malloc.Chain.{has, first_fit, remove_first_fit}
use ninjastorms.Malloc.Valid.{
  IsValid, is_live, Tiles-aligned, Tiles-within, has-append, has-remove, first_fit-fits,
  Chain-not-null,
}

-- A block that the program got for `n` bytes, before and after: `b` was not live and is; its header
-- says that the bytes fit; all other live blocks stay live, with their sizes.
pub record Allocated (n b : ℕ) (h : Heap) (bs fs : List ℕ) (h' : Heap) (bs' fs' : List ℕ)
    : Type 0 where
  pub was_not_live : is_live bs fs b ≡ false
  pub now_live : is_live bs' fs' b ≡ true
  pub aligned : b % 16 ≡ 0
  pub holds : n + overhead ≤ h'.size b
  pub others : (a : ℕ) → a ≢ b → is_live bs' fs' a ≡ is_live bs fs a
  pub sizes : (a : ℕ) → a ≢ b → h'.size a ≡ h.size a

pub Allocated-reused :
    (n size : ℕ) (h h' : Heap) (bs fs : List ℕ)
    → IsValid h bs fs
    → n + overhead ≤ size
    → first_fit h.size size fs ≢ null
    → h'.size ≡ h.size
    → Allocated n (first_fit h.size size fs) h bs fs h' bs (remove_first_fit h.size size fs)
Allocated-reused n size h h' bs fs v o ne e =
    let b = first_fit h.size size fs in
    let z = Chain-not-null h.next h.free_list fs v.chain in
    let (i, k) = first_fit-fits h.size size fs ne in
    let known = v.known b i in
    let (_, _, _, _, al) =
      Tiles-within h.size heap_start h.current bs b v.tiles (omega arith) known in
    record {
      was_not_live = ground (arith, i);
      now_live = ground (arith, known, has-remove h.size size b fs v.distinct z);
      aligned = al;
      holds = rw e (omega (arith, k));
      others = λ a na. ground (arith, has-remove h.size size a fs v.distinct z);
      sizes = λ a na. ap (λ (s : ℕ → ℕ). s a) e;
    }

-- The end of the heap is no block.
current-not-has : (h : Heap) (bs fs : List ℕ) → IsValid h bs fs → has h.current bs ≡ false
current-not-has h bs fs v = elim (Bool-cases (has h.current bs)) [
  | inr out ↦ out
  | inl i ↦
      absurd (
        omega
          (arith, Tiles-within h.size heap_start h.current bs h.current v.tiles (omega arith) i))
]

pub Allocated-grown :
    (n size : ℕ) (h h' : Heap) (bs fs : List ℕ)
    → IsValid h bs fs
    → n + overhead ≤ size
    → h'.size ≡ update h.size h.current size
    → Allocated n h.current h bs fs h' (bs ++ h.current ∷ []) fs
Allocated-grown n size h h' bs fs v o e =
    let al = Tiles-aligned h.size heap_start h.current bs v.tiles (omega arith) in
    let out = current-not-has h bs fs v in
    let off : has h.current fs ≡ false = elim (Bool-cases (has h.current fs)) [
      | inr off ↦ off
      | inl i ↦ absurd (ground (arith, v.known h.current i, out))
    ] in
    record {
      was_not_live = ground (arith, out);
      now_live = ground (arith, off, has-append h.current h.current bs);
      aligned = al;
      holds = rw e (ground arith);
      others = λ a na. ground (arith, has-append a h.current bs);
      sizes = λ a na. rw e (ground arith);
    }
