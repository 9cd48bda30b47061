-- ===== src/Memory/Bytes.antt =====
-- Stretches of memory as lists of bytes.
use mathlib.Core.Path.{ap₂}
use ninjastorms.Prelude.{
  ℕ, zero, suc, ◌+◌, ◌<◌, ◌≤◌, ◌≡◌, refl, ap, ◌∙◌, ◌⊎◌, inl, List, [], ◌∷◌, ◌++◌, arith, length,
  update, replicate,
}
use ninjastorms.Memory.{Memory}

-- The `n` bytes from address `a` on.
unfoldable pub read_bytes : ℕ → ℕ → Memory → List ℕ
read_bytes a zero m = []
read_bytes a (suc n) m = m a ∷ read_bytes (a + 1) n m

unfoldable pub store_bytes : ℕ → List ℕ → Memory → Memory
store_bytes a [] m = m
store_bytes a (x ∷ xs) m = store_bytes (a + 1) xs (update m a x)

pub store_bytes-outside :
    (a : ℕ) (xs : List ℕ) (m : Memory) (b : ℕ)
    → (b < a) ⊎ (a + length xs ≤ b)
    → store_bytes a xs m b ≡ m b
unfolding store_bytes
store_bytes-outside a [] m b h = refl
store_bytes-outside a (x ∷ xs) m b h =
    store_bytes-outside (a + 1) xs (update m a x) b (omega arith) ∙ ground arith

-- Two memories that agree there read the same.
pub read_bytes-same :
    (a n : ℕ) (m m' : Memory)
    → ((b : ℕ) → a ≤ b → b < a + n → m b ≡ m' b)
    → read_bytes a n m ≡ read_bytes a n m'
unfolding read_bytes
read_bytes-same a zero m m' h = refl
read_bytes-same a (suc n) m m' h =
    ap₂ ◌∷◌ (h a (omega arith) (omega arith))
      (read_bytes-same (a + 1) n m m' (λ b lo hi. h b (omega arith) (omega arith)))

pub read_bytes-shift :
    (a b n : ℕ) (m m' : Memory)
    → ((k : ℕ) → k < n → m (a + k) ≡ m' (b + k))
    → read_bytes a n m ≡ read_bytes b n m'
unfolding read_bytes
read_bytes-shift a b zero m m' h = refl
read_bytes-shift a b (suc n) m m' h =
    ap₂ ◌∷◌ (ap m {y = a + 0} (omega arith) ∙ h 0 (omega arith) ∙ ap m' {x = b + 0} (omega arith)) (
      read_bytes-shift (a + 1) (b + 1) n m m' (λ k lt.
        ap m {y = a + (k + 1)} (omega arith)
        ∙ h (k + 1) (omega arith)
        ∙ ap m' {x = b + (k + 1)} (omega arith)))

pub read_bytes-append :
    (a n k : ℕ) (m : Memory) → read_bytes a (n + k) m ≡ read_bytes a n m ++ read_bytes (a + n) k m
unfolding read_bytes
read_bytes-append a zero k m =
    let e : 0 + k ≡ k = omega arith in let e' : a + 0 ≡ a = omega arith in rw (e, e')
read_bytes-append a (suc n) k m =
    let e : suc n + k ≡ suc (n + k) = omega arith in
    let e' : a + suc n ≡ a + 1 + n = omega arith in
    rw (e, e') (ap (λ r. m a ∷ r) (read_bytes-append (a + 1) n k m))

pub read_bytes-replicate :
    (a n x : ℕ) (m : Memory)
    → ((b : ℕ) → a ≤ b → b < a + n → m b ≡ x)
    → read_bytes a n m ≡ replicate n x
unfolding read_bytes
read_bytes-replicate a zero x m h = refl
read_bytes-replicate a (suc n) x m h =
    ap₂ ◌∷◌ (h a (omega arith) (omega arith))
      (read_bytes-replicate (a + 1) n x m (λ b lo hi. h b (omega arith) (omega arith)))

pub read-store_bytes :
    (a : ℕ) (xs : List ℕ) (m : Memory) → read_bytes a (length xs) (store_bytes a xs m) ≡ xs
unfolding read_bytes store_bytes
read-store_bytes a [] m = refl
read-store_bytes a (x ∷ xs) m =
    ap₂ ◌∷◌ (store_bytes-outside (a + 1) xs (update m a x) a (inl (omega arith)) ∙ ground arith)
      (read-store_bytes (a + 1) xs (update m a x))
