-- ===== src/Malloc/Chain.antt =====
-- The free list of malloc.c as the list of the blocks that the `next` fields lead through.
use ninjastorms.Prelude.{
  ℕ, ◌≡◌, ◌≢◌, Bool, true, false, ◌||◌, List, [], ◌∷◌, arith, if◌then◌else◌, ◌==◌, leb,
}
use ninjastorms.Malloc.{null}

abbrev pub has : ℕ → List ℕ → Bool
has a [] = false
has a (b ∷ bs) = (a == b) || has a bs

abbrev pub Distinct : List ℕ → Type 0
Distinct [] = Unit
Distinct (b ∷ bs) = (has b bs ≡ false) × Distinct bs

-- From the pointer `p` the fields `next` lead through the blocks `bs` to null.
abbrev pub Chain : (ℕ → ℕ) → ℕ → List ℕ → Type 0
Chain next p [] = p ≡ null
Chain next p (b ∷ bs) = (p ≡ b) × (b ≢ null) × Chain next (next b) bs

-- A chain stands as long as the `next` fields of its own blocks do.
pub Chain-frame :
    (next next' : ℕ → ℕ) (p : ℕ) (bs : List ℕ)
    → Chain next p bs
    → ((a : ℕ) → has a bs ≡ true → next' a ≡ next a)
    → Chain next' p bs
Chain-frame next next' p [] c same = c
Chain-frame next next' p (b ∷ bs) (e, n, c) same =
    let eb : next' b ≡ next b = same b (ground arith) in
    (e, n, rw eb (Chain-frame next next' (next b) bs c (λ a i. same a (ground (arith, i)))))

-- First fit: the first block of the list that has the size, or null; and the list without it.
unfoldable pub first_fit : (ℕ → ℕ) → ℕ → List ℕ → ℕ
first_fit size n [] = null
first_fit size n (b ∷ bs) = if leb n (size b) then b else first_fit size n bs

unfoldable pub remove_first_fit : (ℕ → ℕ) → ℕ → List ℕ → List ℕ
remove_first_fit size n [] = []
remove_first_fit size n (b ∷ bs) = if leb n (size b) then bs else b ∷ remove_first_fit size n bs
