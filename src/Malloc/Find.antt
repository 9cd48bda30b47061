-- ===== src/Malloc/Find.antt =====
-- The search loop of `malloc`, libc/stdlib/malloc.c, on the chain of the free blocks.
use ninjastorms.Prelude.{
  ℕ, zero, suc, ◌≡◌, ◌≢◌, ◌<◌, refl, ap, true, false, some, List, [], ◌∷◌, arith, if◌then◌else◌,
  leb, update, length, Bool-cases, inl, inr, sym,
}
use mathlib.Core.Path.{◌∙◌}
use native.Mathlib.Decide.{ℕ_discrete}
use ninjastorms.Malloc.{Heap, null, Link, list_head, next_of, load_link, store_link, find}
use ninjastorms.Malloc.Chain.{has, Distinct, Chain, Chain-frame, first_fit, remove_first_fit}

-- The field that a link points to is no field of a block of the list.
abbrev pub Outside : Link → List ℕ → Type 0
Outside list_head bs = Unit
Outside (next_of b) bs = has b bs ≡ false

-- What the loop leaves behind, started at the link `head` to the chain of `bs`: the chain of the
-- other blocks from the same link, and all other fields as they were.
pub record Found (size : ℕ) (head : Link) (bs : List ℕ) (h : Heap) (out : ℕ × Heap) : Type 0 where
  pub block : out.0 ≡ first_fit h.size size bs
  pub chain : Chain out.1.next (load_link head out.1) (remove_first_fit h.size size bs)
  pub outside : (l : Link) → Outside l bs → l ≢ head → load_link l out.1 ≡ load_link l h
  pub unchanged : first_fit h.size size bs ≡ null → out.1 ≡ h
  pub same : (out.1.size ≡ h.size) × (out.1.current ≡ h.current) × (out.1.errno ≡ h.errno)

Outside-tail :
    (l : Link) (b : ℕ) (bs : List ℕ) → Outside l (b ∷ bs) → Outside l bs × (l ≢ next_of b)
Outside-tail list_head b bs o = (tt, λ e. cc)
Outside-tail (next_of a) b bs o = (ground arith, λ e. ground arith)

load-store_self : (l : Link) (v : ℕ) (h : Heap) → load_link l (store_link l v h) ≡ v
load-store_self list_head v h = refl
load-store_self (next_of a) v h = ground arith

load-store_ne :
    (l k : Link) (v : ℕ) (h : Heap) → l ≢ k → load_link l (store_link k v h) ≡ load_link l h
load-store_ne list_head list_head v h ne = absurd (ne refl)
load-store_ne list_head (next_of a) v h ne = refl
load-store_ne (next_of a) list_head v h ne = refl
load-store_ne (next_of a) (next_of b) v h ne = elim (ℕ_discrete b a) [
  | yes e ↦ absurd (ne (ap next_of (sym e)))
  | no n ↦ ground arith
]

Chain-store :
    (l : Link) (v p : ℕ) (bs : List ℕ) (h : Heap)
    → Outside l bs
    → Chain h.next p bs
    → Chain (store_link l v h).next p bs
Chain-store list_head v p bs h o c = c
Chain-store (next_of a) v p bs h o c =
    Chain-frame h.next (update h.next a v) p bs c (λ x i. ground (arith, o, i))

-- The head does not fit: what the loop finds in the rest, started behind the head.
Found-skip :
    (size : ℕ) (head : Link) (b : ℕ) (bs : List ℕ) (h : Heap) (out : ℕ × Heap)
    → Outside head (b ∷ bs)
    → load_link head h ≡ b
    → b ≢ null
    → leb size (h.size b) ≡ false
    → Found size (next_of b) bs h out
    → Found size head (b ∷ bs) h out
unfolding first_fit remove_first_fit
Found-skip size head b bs h out o e n small f =
    let (o', ne) = Outside-tail head b bs o in
    record {
      block = rw small f.block;
      chain = rw small (f.outside head o' ne ∙ e, n, f.chain);
      outside = λ l ol _. let (ol', ne') = Outside-tail l b bs ol in f.outside l ol' ne';
      unchanged = rw small f.unchanged;
      same = f.same;
    }

same_store :
    (l : Link) (v : ℕ) (h : Heap)
    → let h' = store_link l v h in
      (h'.size ≡ h.size) × (h'.current ≡ h.current) × (h'.errno ≡ h.errno)
same_store list_head v h = (refl, refl, refl)
same_store (next_of a) v h = (refl, refl, refl)

Found-take :
    (size : ℕ) (head : Link) (b : ℕ) (bs : List ℕ) (h : Heap)
    → Outside head (b ∷ bs)
    → b ≢ null
    → leb size (h.size b) ≡ true
    → Chain h.next (h.next b) bs
    → Found size head (b ∷ bs) h (b, store_link head (h.next b) h)
unfolding first_fit remove_first_fit
Found-take size head b bs h o n fits c = record {
  block = rw fits refl;
  chain =
      rw (fits, load-store_self head (h.next b) h)
        (Chain-store head (h.next b) (h.next b) bs h (Outside-tail head b bs o).0 c);
  outside = λ l ol ne. load-store_ne l head (h.next b) h ne;
  unchanged = rw fits (λ e. absurd (n e));
  same = same_store head (h.next b) h;
}

find-null :
    (fuel size : ℕ) (head : Link) (h : Heap) → find (suc fuel) size head null h ≡ some (null, h)
unfolding find
find-null fuel size head h = refl

find-cons :
    (fuel size : ℕ) (head : Link) (b : ℕ) (h : Heap)
    → b ≢ null
    → find (suc fuel) size head b h ≡ (
        if leb size (h.size b)
        then some (b, store_link head (h.next b) h)
        else find fuel size (next_of b) (h.next b) h)
unfolding find
find-cons fuel size head b h n = ground arith

-- With more fuel than blocks the loop ends, and has taken out the first block that fits.
pub find-Found :
    (fuel size : ℕ) (head : Link) (p : ℕ) (bs : List ℕ) (h : Heap)
    → length bs < fuel
    → Outside head bs
    → Distinct bs
    → load_link head h ≡ p
    → Chain h.next p bs
    → (out : ℕ × Heap) × (find fuel size head p h ≡ some out) × Found size head bs h out
unfolding first_fit remove_first_fit
find-Found zero size head p bs h k o d l c = elim k [ ]
find-Found (suc fuel) size head p [] h k o d l c = (
  (null, h),
  rw c (find-null fuel size head h),
  record {
    block = refl;
    chain = l ∙ c;
    outside = λ _ _ _. refl;
    unchanged = λ _. refl;
    same = (refl, refl, refl);
  },
)
find-Found (suc fuel) size head p (b ∷ bs) h k o d l (e, n, c) =
    elim (Bool-cases (leb size (h.size b))) [
      | inl fits ↦ (
        (b, store_link head (h.next b) h),
        rw (e, find-cons fuel size head b h n, fits) refl,
        Found-take size head b bs h o n fits c,
      )
      | inr small ↦
          let (out, run, f) =
            find-Found fuel size (next_of b) (h.next b) bs h (omega arith) d.0 d.1 refl c in
          (
            out,
            rw (e, find-cons fuel size head b h n, small) run,
            Found-skip size head b bs h out o (l ∙ e) n small f,
          )
    ]
