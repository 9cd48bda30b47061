-- ===== src/Prelude/Circular.antt =====
-- Lemmas on a circular array with a first and an end index, one slot of which stays free: the
-- layout that the run queue of kernel/scheduler.c and the receive queue of
-- kernel/network/network_task.c share.
use ninjastorms.Prelude.{
  ℕ, zero, suc, ◌+◌, ◌-◌, ◌%◌, ◌<◌, ◌≤◌, ◌≡◌, ◌≢◌, refl, ap, ◌∙◌, ◌⊎◌, ◌↔◌, inl, inr, List, [], ◌∷◌,
  ◌++◌, arith, length, get_or, set, get_or-set_self, get_or-set_ne, if◌then◌else◌, ltb,
}
use mathlib.Core.Path.{ap₂}
use native.Mathlib.Decide.{dec_lt}
use native.Mathlib.Nat.{mod-eq_of_lt, mod-eq-sub-mod}

-- The index behind `i`: the next one, or the first when `i` is the last.
pub next_cases :
    (cap i : ℕ)
    → i < cap
    → ((i + 1 < cap) × ((i + 1) % cap ≡ i + 1)) ⊎ ((i + 1 ≡ cap) × ((i + 1) % cap ≡ 0))
next_cases cap i h = elim (dec_lt (i + 1) cap) [
  | yes p ↦ inl (p, mod-eq_of_lt p)
  | no p ↦ inr (omega arith, wrap (omega arith))
]
  where
    wrap : i + 1 ≡ cap → (i + 1) % cap ≡ 0
    wrap e = rw e (omega (arith, mod-eq-sub-mod {n = cap} {m = cap} (omega arith)))

-- Going `n` slots round from `h` leads to `i`.
abbrev Leads : ℕ → ℕ → ℕ → ℕ → Type 0
Leads cap h n i = (h + n ≡ i) ⊎ (h + n ≡ i + cap)

-- How many slots lie between the first index and the end.
span : ℕ → ℕ → ℕ → ℕ
span cap start end = if ltb end start then end + cap - start else end - start

module _ {ℓ} {A : Type ℓ} (cap : ℕ) (d : A) where
  -- The `n` items from index `h` on.
  window : List A → ℕ → ℕ → List A
  window buf h zero = []
  window buf h (suc n) = get_or buf h d ∷ window buf ((h + 1) % cap) n

  unfoldable pub items : List A → ℕ → ℕ → List A
  unfolding window span
  items buf start end = window buf start (span cap start end)

  length-window : (buf : List A) (h n : ℕ) → length (window buf h n) ≡ n
  unfolding window
  length-window buf h zero = refl
  length-window buf h (suc n) = ap suc (length-window buf ((h + 1) % cap) n)

  -- A write at the slot behind a window leaves the window and extends it by one item.
  window-set :
      (buf : List A) (x : A) (n h i : ℕ)
      → cap ≤ length buf
      → h < cap
      → i < cap
      → n < cap
      → Leads cap h n i
      → window (set buf i x) h (suc n) ≡ window buf h n ++ x ∷ []
  unfolding window
  window-set buf x zero h i hb hh hi hn l =
      let e : i ≡ h = omega arith in
      rw e (ap (λ a. a ∷ []) (get_or-set_self buf h x d (omega arith)))
  window-set buf x (suc n) h i hb hh hi hn l = ap₂ ◌∷◌ (get_or-set_ne buf i h x d (omega arith)) (
      window-set buf x n ((h + 1) % cap) i hb (omega (arith, next_cases cap h hh)) hi (omega arith)
        (omega (arith, next_cases cap h hh)))

  -- Storing at the end index and moving it on appends the item, as long as a slot stays free.
  pub items-set :
      (buf : List A) (x : A) (start end : ℕ)
      → cap ≤ length buf
      → start < cap
      → end < cap
      → (end + 1) % cap ≢ start
      → items (set buf end x) start ((end + 1) % cap) ≡ items buf start end ++ x ∷ []
  unfolding items
  items-set buf x start end hb hs he room =
      ap (window (set buf end x) start) grows
      ∙ window-set buf x (span cap start end) start end hb hs he (ground (arith)) (ground (arith))
    where
      grows : span cap start ((end + 1) % cap) ≡ suc (span cap start end)
      grows = ground (arith, next_cases cap end he)

  -- A queue that is not empty starts with the item at the first index.
  pub items_of_ne :
      (buf : List A) (start end : ℕ)
      → start < cap
      → end < cap
      → start ≢ end
      → items buf start end ≡ get_or buf start d ∷ items buf ((start + 1) % cap) end
  unfolding items
  items_of_ne buf start end hs he ne = ap (window buf start) shrinks
    where
      shrinks : span cap start end ≡ suc (span cap ((start + 1) % cap) end)
      shrinks = ground (arith, next_cases cap start hs)

  pub items_of_eq : (buf : List A) (start : ℕ) → items buf start start ≡ []
  unfolding items
  items_of_eq buf start = ap (window buf start) {y = 0} (ground arith)

  -- The end index would run into the first one exactly when all slots but one are taken.
  pub items-full_iff :
      (buf : List A) (start end : ℕ)
      → start < cap
      → end < cap
      → ((end + 1) % cap ≡ start) ↔ (length (items buf start end) + 1 ≡ cap)
  unfolding items
  items-full_iff buf start end hs he = (
    λ h. ground (arith, next_cases cap end he, length-window buf start (span cap start end)),
    λ h. ground (arith, next_cases cap end he, length-window buf start (span cap start end)),
  )

  pub length-items-lt :
      (buf : List A) (start end : ℕ) → start < cap → end < cap → length (items buf start end) < cap
  unfolding items
  length-items-lt buf start end hs he = ground (arith, length-window buf start (span cap start end))
