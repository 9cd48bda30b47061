-- ===== src/Memory.antt =====
-- libc/string: memcpy.c, memset.c and memcmp.c, over a memory of bytes that addresses index. The
-- loops recur on the rounds left. Pointers into one object do not wrap round, so sums of an address
-- and an index are plain.
pub mod Copy
pub mod Compare
pub mod Bytes
mod Tests
use ninjastorms.Prelude.{ℕ, zero, suc, ◌+◌, ◌-◌, ◌%◌, if◌then◌else◌, ◌==◌, leb, update}

abbrev pub Memory : Type 0
Memory = ℕ → ℕ

-- `for (i = 0; i < n; ++i) dest[i] = src[i]`, from index `i` on.
copy_loop : ℕ → ℕ → ℕ → ℕ → Memory → Memory
copy_loop zero i dest src m = m
copy_loop (suc n) i dest src m = copy_loop n (i + 1) dest src (update m (dest + i) (m (src + i)))

-- `memcpy` also returns `dest`.
pub memcpy : ℕ → ℕ → ℕ → Memory → ℕ × Memory
unfolding copy_loop
memcpy dest src n m = (dest, copy_loop n 0 dest src m)

-- `for (i = s; i < s + n; ++i) *i = c`, from address `i` on. The store keeps the low byte of `c`.
set_loop : ℕ → ℕ → ℕ → Memory → Memory
set_loop zero i c m = m
set_loop (suc n) i c m = set_loop n (i + 1) c (update m i (c % 256))

pub memset : ℕ → ℕ → ℕ → Memory → ℕ × Memory
unfolding set_loop
memset s c n m = (s, set_loop n s c m)

-- An `int`: `negsuc k` is -(k + 1).
pub data ℤ : Type 0 where
  pos : ℕ → ℤ
  negsuc : ℕ → ℤ

-- The difference of two bytes; a plain `char` is unsigned on ARM.
abbrev pub sub_ℕ : ℕ → ℕ → ℤ
sub_ℕ a b = if leb b a then pos (a - b) else negsuc (b - a - 1)

compare_loop : ℕ → ℕ → ℕ → ℕ → Memory → ℤ
compare_loop zero i s1 s2 m = pos 0
compare_loop (suc n) i s1 s2 m =
    let rest = compare_loop n (i + 1) s1 s2 m in
    if m (s1 + i) == m (s2 + i) then rest else sub_ℕ (m (s1 + i)) (m (s2 + i))

pub memcmp : ℕ → ℕ → ℕ → Memory → ℤ
unfolding compare_loop
memcmp s1 s2 n m = compare_loop n 0 s1 s2 m
