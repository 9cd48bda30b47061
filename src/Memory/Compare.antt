-- ===== src/Memory/Compare.antt =====
-- `memcmp` of libc/string/memcmp.c against the bytes of both strings.
use native.Mathlib.Decide.{ℕ_discrete}
use ninjastorms.Prelude.{ℕ, true, zero, suc, ◌+◌, ◌<◌, ◌≡◌, ◌≢◌, refl, ◌⊎◌, inl, inr, arith, ◌==◌}
use ninjastorms.Memory.{Memory, compare_loop, memcmp, ℤ, pos, sub_ℕ}

abbrev pub SameBytes : ℕ → ℕ → ℕ → Memory → Type 0
SameBytes s1 s2 n m = (j : ℕ) → j < n → m (s1 + j) ≡ m (s2 + j)

-- The bytes first differ at index `j`, and there the result is their difference.
pub record FirstDiffer (s1 s2 n : ℕ) (m : Memory) (r : ℤ) : Type 0 where
  pub at : ℕ
  pub inside : at < n
  pub before : SameBytes s1 s2 at m
  pub differ : m (s1 + at) ≢ m (s2 + at)
  pub result : r ≡ sub_ℕ (m (s1 + at)) (m (s2 + at))

-- What the result says of the `n` bytes.
abbrev pub Verdict : ℕ → ℕ → ℕ → Memory → ℤ → Type 0
Verdict s1 s2 n m r = (SameBytes s1 s2 n m × (r ≡ pos 0)) ⊎ FirstDiffer s1 s2 n m r

SameBytes-suc :
    (i s1 s2 : ℕ) (m : Memory)
    → SameBytes s1 s2 i m
    → m (s1 + i) ≡ m (s2 + i)
    → SameBytes s1 s2 (i + 1) m
SameBytes-suc i s1 s2 m same e j h = elim (ℕ_discrete i j) [
  | yes p ↦ rw (← p) e
  | no n ↦ same j (omega arith)
]

compare_loop-Verdict :
    (n i end s1 s2 : ℕ) (m : Memory)
    → i + n ≡ end
    → SameBytes s1 s2 i m
    → Verdict s1 s2 end m (compare_loop n i s1 s2 m)
unfolding compare_loop
compare_loop-Verdict zero i end s1 s2 m p same = inl ((λ j h. same j (omega arith)), refl)
compare_loop-Verdict (suc n) i end s1 s2 m p same = elim (ℕ_discrete (m (s1 + i)) (m (s2 + i))) [
  | yes e ↦
      let t : (m (s1 + i) == m (s2 + i)) ≡ true = ground arith in
      rw t
        (compare_loop-Verdict n (i + 1) end s1 s2 m (omega arith) (SameBytes-suc i s1 s2 m same e))
  | no ne ↦
      inr
        (record { at = i; inside = omega arith; before = same; differ = ne; result = ground arith })
]

-- When all `n` bytes agree `memcmp` is 0; otherwise it is the difference of the first two bytes that
-- do not.
pub memcmp-Verdict : (s1 s2 n : ℕ) (m : Memory) → Verdict s1 s2 n m (memcmp s1 s2 n m)
unfolding memcmp
memcmp-Verdict s1 s2 n m =
    compare_loop-Verdict n 0 n s1 s2 m (omega arith) (λ j h. absurd (omega arith))
