-- ===== src/Malloc/Held.antt =====
-- What a program holds of the heap: its allocations, and the blocks behind them.
use ninjastorms.Prelude.{
  ℕ, ◌+◌, ◌%◌, ◌<◌, ◌≤◌, ◌≡◌, ◌≢◌, refl, ◌⊎◌, inl, inr, true, false, List, [], ◌∷◌, arith,
  if◌then◌else◌, ◌==◌, sym, ◌∙◌,
}
use native.Mathlib.Decide.{ℕ_discrete}
use ninjastorms.Malloc.{Heap, overhead, heap_start, null}
use ninjastorms.Malloc.Valid.{heap_end, IsValid, is_live, Tiles-within}
use ninjastorms.Malloc.Allocation.{live_apart}

-- What the program holds: pointers, with the number of bytes it asked for.
abbrev pub Allocations : Type 0
Allocations = List (ℕ × ℕ)

abbrev pub Holds : ℕ → ℕ → Allocations → Type 0
Holds p n [] = ⊥
Holds p n ((q, m) ∷ l) = ((p ≡ q) × (n ≡ m)) ⊎ Holds p n l

abbrev pub obtain : ℕ → ℕ → Allocations → Allocations
obtain p n l = if p == null then l else (p, n) ∷ l

abbrev pub release : ℕ → Allocations → Allocations
release p [] = []
release p ((q, m) ∷ l) = if p == q then release p l else (q, m) ∷ release p l

-- All bytes lie in the heap, aligned, and no two allocations share a pointer or a byte.
abbrev pub Apart : Allocations → Type 0
Apart [] = Unit
Apart ((p, n) ∷ l) =
    (heap_start < p)
    × (p + n ≤ heap_end)
    × (p % 16 ≡ 0)
    × ((q m : ℕ) → Holds q m l → (p ≢ q) × ((p + n ≤ q) ⊎ (q + m ≤ p)))
    × Apart l

-- A held pointer lies behind the header of a live block that has room for the bytes.
abbrev pub Owned : Heap → List ℕ → List ℕ → ℕ → ℕ → Type 0
Owned h bs fs p n =
    (b : ℕ) × (p ≡ b + overhead) × (is_live bs fs b ≡ true) × (n + overhead ≤ h.size b)

abbrev pub Different : Allocations → Type 0
Different [] = Unit
Different ((p, n) ∷ l) = ((q m : ℕ) → Holds q m l → p ≢ q) × Different l

pub Holds-release : (p q m : ℕ) (l : Allocations) → Holds q m (release p l) → (q ≢ p) × Holds q m l
Holds-release p q m [] i = absurd i
Holds-release p q m ((r, k) ∷ l) i = elim (ℕ_discrete p r) [
  | yes e ↦
      let t : (p == r) ≡ true = ground arith in
      let (n, j) = Holds-release p q m l (rw t at i) in (n, inr j)
  | no ne ↦
      let t : (p == r) ≡ false = ground arith in
      elim (rw t at i) [
        | inl (a, b) ↦ ((λ e. ne (sym e ∙ a)), inl (a, b))
        | inr j ↦ let (n, j') = Holds-release p q m l j in (n, inr j')
      ]
]

pub Different-release : (p : ℕ) (l : Allocations) → Different l → Different (release p l)
Different-release p [] d = tt
Different-release p ((q, m) ∷ l) (d, ds) = elim (ℕ_discrete p q) [
  | yes e ↦ let t : (p == q) ≡ true = ground arith in rw t (Different-release p l ds)
  | no ne ↦
      let t : (p == q) ≡ false = ground arith in
      rw t ((λ r k i. d r k (Holds-release p r k l i).1), Different-release p l ds)
]

-- The pointers of a sound heap.
Owned-within :
    (h : Heap) (bs fs : List ℕ) (p n : ℕ)
    → IsValid h bs fs
    → Owned h bs fs p n
    → (heap_start < p) × (p + n ≤ heap_end) × (p % 16 ≡ 0)
Owned-within h bs fs p n v (b, e, i, k) = omega (
  arith,
  v.in_heap,
  Tiles-within h.size heap_start h.current bs b v.tiles (omega arith) (ground arith),
)

Owned-apart :
    (h : Heap) (bs fs : List ℕ) (p n q m : ℕ)
    → IsValid h bs fs
    → Owned h bs fs p n
    → Owned h bs fs q m
    → p ≢ q
    → (p + n ≤ q) ⊎ (q + m ≤ p)
Owned-apart h bs fs p n q m v (b, e, i, k) (c, e', i', k') ne =
    let (apart, _, _) = live_apart h bs fs b c v i i' (omega arith) in omega arith

pub Owned-Apart :
    (h : Heap) (l : Allocations) (bs fs : List ℕ)
    → IsValid h bs fs
    → ((p n : ℕ) → Holds p n l → Owned h bs fs p n)
    → Different l
    → Apart l
Owned-Apart h [] bs fs v own d = tt
Owned-Apart h ((p, n) ∷ l) bs fs v own (d, ds) =
    let mine = own p n (inl (refl, refl)) in
    let (lo, hi, al) = Owned-within h bs fs p n v mine in
    (
      lo,
      hi,
      al,
      (λ q m i. (d q m i, Owned-apart h bs fs p n q m v mine (own q m (inr i)) (d q m i))),
      Owned-Apart h l bs fs v (λ q m i. own q m (inr i)) ds,
    )
