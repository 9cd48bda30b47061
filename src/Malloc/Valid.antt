-- ===== src/Malloc/Valid.antt =====
-- The invariant of the allocator: blocks tile the heap, and the free list leads through some of
-- them. A block is live when it is not on the free list.
use ninjastorms.Prelude.{
  ℕ, ◌+◌, ◌%◌, ◌≡◌, ◌≢◌, ◌≤◌, refl, ap, Bool, true, false, ◌||◌, ◌&&◌, not, List, [], ◌∷◌, ◌++◌,
  arith, if◌then◌else◌, ◌==◌, leb, update, Bool-cases, ◌⊎◌, inl, inr, sym, subst,
}
use native.Mathlib.Decide.{ℕ_discrete}
use mathlib.Core.Path.{◌∙◌}
use ninjastorms.Malloc.{Heap, null, overhead, heap_start, heap_size}
use ninjastorms.Malloc.Chain.{has, Distinct, Chain, first_fit, remove_first_fit}

abbrev pub heap_end : ℕ
heap_end = heap_start + heap_size

-- One block behind the other from `start` to `end`, each of a size that is a multiple of 16 and
-- holds its header.
abbrev pub Tiles : (ℕ → ℕ) → ℕ → List ℕ → ℕ → Type 0
Tiles size start [] end = start ≡ end
Tiles size start (b ∷ bs) end =
    (b ≡ start) × (size b % 16 ≡ 0) × (overhead ≤ size b) × Tiles size (start + size b) bs end

pub record IsValid (h : Heap) (blocks free : List ℕ) : Type 0 where
  pub tiles : Tiles h.size heap_start blocks h.current
  pub in_heap : h.current ≤ heap_end
  pub chain : Chain h.next h.free_list free
  pub distinct : Distinct free
  pub known : (b : ℕ) → has b free ≡ true → has b blocks ≡ true

-- The blocks that the program holds.
abbrev pub is_live : List ℕ → List ℕ → ℕ → Bool
is_live blocks free b = has b blocks && not (has b free)

pub Tiles-le : (size : ℕ → ℕ) (start end : ℕ) (bs : List ℕ) → Tiles size start bs end → start ≤ end
Tiles-le size start end [] t = omega arith
Tiles-le size start end (b ∷ bs) (_, _, _, t) =
    omega (arith, Tiles-le size (start + size b) end bs t)

pub Tiles-aligned :
    (size : ℕ → ℕ) (start end : ℕ) (bs : List ℕ)
    → Tiles size start bs end
    → start % 16 ≡ 0
    → end % 16 ≡ 0
Tiles-aligned size start end [] t a = omega arith
Tiles-aligned size start end (b ∷ bs) (_, m, _, t) a =
    Tiles-aligned size (start + size b) end bs t (omega arith)

-- Each block lies between the two ends and is aligned as the start is.
pub Tiles-within :
    (size : ℕ → ℕ) (start end : ℕ) (bs : List ℕ) (b : ℕ)
    → Tiles size start bs end
    → start % 16 ≡ 0
    → has b bs ≡ true
    → (start ≤ b) × (b + size b ≤ end) × (overhead ≤ size b) × (size b % 16 ≡ 0) × (b % 16 ≡ 0)
Tiles-within size start end [] b t a i = cc
Tiles-within size start end (c ∷ bs) b (e, m, o, t) a i = elim (ℕ_discrete b c) [
  | yes p ↦
      let e' : b ≡ start = p ∙ e in
      let s : size b ≡ size c = ap size p in omega (arith, Tiles-le size (start + size c) end bs t)
  | no n ↦ omega (arith, Tiles-within size (start + size c) end bs b t (omega arith) (ground arith))
]

-- Two different blocks do not overlap.
pub Tiles-apart :
    (size : ℕ → ℕ) (start end : ℕ) (bs : List ℕ) (a b : ℕ)
    → Tiles size start bs end
    → start % 16 ≡ 0
    → has a bs ≡ true
    → has b bs ≡ true
    → a ≢ b
    → (a + size a ≤ b) ⊎ (b + size b ≤ a)
Tiles-apart size start end [] a b t al i j n = cc
Tiles-apart size start end (c ∷ bs) a b (e, m, o, t) al i j n = elim (ℕ_discrete a c) [
  | yes p ↦
      let s : size a ≡ size c = ap size p in
      inl
        (omega (arith, Tiles-within size (start + size c) end bs b t (omega arith) (ground arith)))
  | no na ↦ elim (ℕ_discrete b c) [
    | yes q ↦
        let s : size b ≡ size c = ap size q in
        inr (
          omega (arith, Tiles-within size (start + size c) end bs a t (omega arith) (ground arith)))
    | no nb ↦
        Tiles-apart size (start + size c) end bs a b t (omega arith) (ground arith) (ground arith) n
  ]
]

-- A block that is taken from the end of the heap.
pub Tiles-append :
    (size : ℕ → ℕ) (start end n : ℕ) (bs : List ℕ)
    → Tiles size start bs end
    → n % 16 ≡ 0
    → overhead ≤ n
    → Tiles (update size end n) start (bs ++ end ∷ []) (end + n)
Tiles-append size start end n [] t m o = ground arith
Tiles-append size start end n (b ∷ bs) (e, mb, ob, t) m o =
    let below = Tiles-le size (start + size b) end bs t in
    let same : update size end n b ≡ size b = ground arith in
    rw same (e, mb, ob, Tiles-append size (start + size b) end n bs t m o)

pub has-append : (a b : ℕ) (bs : List ℕ) → has a (bs ++ b ∷ []) ≡ (has a bs || (a == b))
has-append a b [] = ground arith
has-append a b (c ∷ bs) = ground (arith, has-append a b bs)

-- First fit.
module _ (size : ℕ → ℕ) (n : ℕ) where
  first_fit-has :
      (bs : List ℕ) → (first_fit size n bs ≡ null) ⊎ (has (first_fit size n bs) bs ≡ true)
  unfolding first_fit
  first_fit-has [] = inl refl
  first_fit-has (b ∷ bs) = ground (arith, first_fit-has bs)

  -- The list without the first block that fits.
  pub has-remove :
      (a : ℕ) (bs : List ℕ)
      → Distinct bs
      → has null bs ≡ false
      → has a (remove_first_fit size n bs) ≡ (has a bs && not (a == first_fit size n bs))
  unfolding first_fit remove_first_fit
  has-remove a [] d z = refl
  has-remove a (b ∷ bs) (d, ds) z = elim (ℕ_discrete a b) [
    | yes e ↦
        let d' : has a bs ≡ false = rw e d in
        ground (arith, first_fit-has bs, has-remove a bs ds (ground arith))
    | no ne ↦ ground (arith, has-remove a bs ds (ground arith))
  ]

  pub Distinct-remove :
      (bs : List ℕ) → Distinct bs → has null bs ≡ false → Distinct (remove_first_fit size n bs)
  unfolding first_fit remove_first_fit
  Distinct-remove [] d z = tt
  Distinct-remove (b ∷ bs) (d, ds) z = elim (Bool-cases (leb n (size b))) [
    | inl fits ↦ rw fits ds
    | inr small ↦
        rw small
          (ground (arith, has-remove b bs ds (ground arith)), Distinct-remove bs ds (ground arith))
  ]

  abbrev Fits : ℕ → List ℕ → Type 0
  Fits v bs = (has v bs ≡ true) × (n ≤ size v)

  Fits-cons : (v b : ℕ) (bs : List ℕ) → Fits v bs → Fits v (b ∷ bs)
  Fits-cons v b bs (i, k) = (ground (arith, i), k)

  first_fit-nil : first_fit size n [] ≡ null
  unfolding first_fit
  first_fit-nil = refl

  first_fit-cons :
      (b : ℕ) (bs : List ℕ)
      → first_fit size n (b ∷ bs) ≡ (if leb n (size b) then b else first_fit size n bs)
  unfolding first_fit
  first_fit-cons b bs = refl

  pub first_fit-fits :
      (bs : List ℕ)
      → first_fit size n bs ≢ null
      → (has (first_fit size n bs) bs ≡ true) × (n ≤ size (first_fit size n bs))
  first_fit-fits [] h = absurd (h first_fit-nil)
  first_fit-fits (b ∷ bs) h = elim (Bool-cases (leb n (size b))) [
    | inl fits ↦ rw (first_fit-cons b bs, fits) (ground arith)
    | inr small ↦
        let e : first_fit size n (b ∷ bs) ≡ first_fit size n bs =
          rw (first_fit-cons b bs, small) refl in
        subst (λ v. Fits v (b ∷ bs)) (sym e) (Fits-cons _ b bs (first_fit-fits bs (λ z. h (e ∙ z))))
  ]

  -- When nothing fits, the list stays whole.
  pub remove_of_none :
      (bs : List ℕ)
      → has null bs ≡ false
      → first_fit size n bs ≡ null
      → remove_first_fit size n bs ≡ bs
  unfolding first_fit remove_first_fit
  remove_of_none [] z e = refl
  remove_of_none (b ∷ bs) z e = ground (arith, remove_of_none bs)

pub Chain-not-null : (next : ℕ → ℕ) (p : ℕ) (bs : List ℕ) → Chain next p bs → has null bs ≡ false
Chain-not-null next p [] c = refl
Chain-not-null next p (b ∷ bs) (e, n, c) = ground (arith, Chain-not-null next (next b) bs c)
