-- ===== src/Memory/Copy.antt =====
-- `memcpy` and `memset` address by address.
use ninjastorms.Prelude.{
  ℕ, zero, suc, ◌+◌, ◌-◌, ◌%◌, ◌≤◌, ◌≡◌, refl, ◌⊎◌, ◌&&◌, arith, if◌then◌else◌, ltb, leb, update,
}
use mathlib.Core.Path.{◌∙◌}
use ninjastorms.Memory.{Memory, copy_loop, memcpy, set_loop, memset}

-- The memory behind a copy of `n` bytes.
abbrev pub copied : ℕ → ℕ → ℕ → Memory → Memory
copied dest src n m a = if leb dest a && ltb a (dest + n) then m (src + (a - dest)) else m a

abbrev pub filled : ℕ → ℕ → ℕ → Memory → Memory
filled s c n m a = if leb s a && ltb a (s + n) then c % 256 else m a

copy_loop-copied :
    (n i dest src : ℕ) (m : Memory) (a : ℕ)
    → (dest ≤ src) ⊎ (src + i + n ≤ dest)
    → copy_loop n i dest src m a ≡ copied (dest + i) (src + i) n m a
unfolding copy_loop
copy_loop-copied zero i dest src m a h = ground arith
copy_loop-copied (suc n) i dest src m a h =
    copy_loop-copied n (i + 1) dest src (update m (dest + i) (m (src + i))) a (omega arith)
    ∙ one_more
  where
    one_more :
        copied (dest + (i + 1)) (src + (i + 1)) n (update m (dest + i) (m (src + i))) a
        ≡ copied (dest + i) (src + i) (suc n) m a
    one_more = ground arith

set_loop-filled : (n i c : ℕ) (m : Memory) (a : ℕ) → set_loop n i c m a ≡ filled i c n m a
unfolding set_loop
set_loop-filled zero i c m a = ground arith
set_loop-filled (suc n) i c m a = set_loop-filled n (i + 1) c (update m i (c % 256)) a ∙ one_more
  where
    one_more : filled (i + 1) c n (update m i (c % 256)) a ≡ filled i c (suc n) m a
    one_more = ground arith

-- `memcpy` moves `n` bytes and changes no other address, whenever the destination does not start
-- inside the source behind its first byte; it returns the destination.
pub memcpy-copied :
    (dest src n : ℕ) (m : Memory)
    → (dest ≤ src) ⊎ (src + n ≤ dest)
    → ((memcpy dest src n m).0 ≡ dest)
      × ((a : ℕ) → (memcpy dest src n m).1 a ≡ copied dest src n m a)
unfolding memcpy
memcpy-copied dest src n m h =
    (refl, λ a. copy_loop-copied n 0 dest src m a (omega arith) ∙ ground arith)

-- `memset` stores the low byte of `c` at the `n` addresses from `s` on, and nothing elsewhere; it
-- returns `s`.
pub memset-filled :
    (s c n : ℕ) (m : Memory)
    → ((memset s c n m).0 ≡ s) × ((a : ℕ) → (memset s c n m).1 a ≡ filled s c n m a)
unfolding memset
memset-filled s c n m = (refl, set_loop-filled n s c m)
