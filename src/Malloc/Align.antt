-- ===== src/Malloc/Align.antt =====
-- `ALIGN_16` as arithmetic, and the size that `malloc` asks for.
use native.Mathlib.Omega.{arith}
use ninjastorms.Prelude.{ℕ, ◌+◌, ◌-◌, ◌*◌, ◌/◌, ◌%◌, ◌^◌, ◌<◌, ◌≤◌, ◌≡◌, bit_and}
use ninjastorms.Prelude.Bits.{bit_and-cut, bit_and-ones, bit_and-zero}
use ninjastorms.Malloc.{align_16, request, overhead}

-- The mask drops the low four bits.
mask_16 : (v : ℕ) → v < 2 ^ 32 → bit_and v 0xfffffff0 ≡ v / 16 * 16
mask_16 v h =
    let cut : bit_and (v / 16 * 2 ^ 4 + v % 16) ((2 ^ 28 - 1) * 2 ^ 4 + 0)
        ≡ bit_and (v / 16) (2 ^ 28 - 1) * 2 ^ 4 + bit_and (v % 16) 0 =
      bit_and-cut 4 (v / 16) (v % 16) (2 ^ 28 - 1) 0 (omega arith) (omega arith) in
    let e : v / 16 * 2 ^ 4 + v % 16 ≡ v = omega arith in
    let cut' = rw e at cut in
    omega
      (arith, cut', bit_and-ones 28 (v / 16) (omega arith), bit_and-zero 4 (v % 16) (omega arith))

pub align_16_lem : (v : ℕ) → v + 15 < 2 ^ 32 → align_16 v ≡ (v + 15) / 16 * 16
unfolding align_16
align_16_lem v h = omega (arith, mask_16 ((v + 15) % 2 ^ 32) (omega arith))

-- For requests that do not wrap round 32 bits, `malloc` searches for the least multiple of 16 that
-- holds the header and the bytes asked for.
pub request_lem :
    (n : ℕ)
    → n + 31 < 2 ^ 32
    → (request n % 16 ≡ 0) × (n + overhead ≤ request n) × (request n < n + overhead + 16)
unfolding request
request_lem n h = omega (arith, align_16_lem ((n + overhead) % 2 ^ 32) (omega arith))

-- Within 31 of 2^32 the request wraps round: the size that is searched for is at most that of a
-- header.
pub request_wraps : (n : ℕ) → n < 2 ^ 32 → 2 ^ 32 ≤ n + 31 → request n ≤ overhead
unfolding request align_16
request_wraps n h k = omega (arith, mask_16 (((n + overhead) % 2 ^ 32 + 15) % 2 ^ 32) (omega arith))
