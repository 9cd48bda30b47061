-- ===== src/PciMemory/Word.antt =====
-- The words that the writes put together, as sums.
use native.Mathlib.Nat.{one-le-pow}
use ninjastorms.Prelude.{ℕ, ◌+◌, ◌-◌, ◌*◌, ◌/◌, ◌%◌, ◌^◌, ◌<◌, ◌≡◌, arith, bit_and, bit_or}
use ninjastorms.Prelude.Bits.{
  bit_and-cut, bit_or-cut, bit_and-ones, bit_and-zero, zero-bit_or, bit_or-zero,
}

-- Two parts with no common bit.
pub join_high : (k y z : ℕ) → y < 2 ^ k → bit_or y (z * 2 ^ k) ≡ z * 2 ^ k + y
join_high k y z h =
    let cut : bit_or (0 * 2 ^ k + y) (z * 2 ^ k + 0) ≡ bit_or 0 z * 2 ^ k + bit_or y 0 =
      bit_or-cut k 0 y z 0 h (omega arith) in
    let e : 0 * 2 ^ k + y ≡ y = omega arith in
    let e' : z * 2 ^ k + 0 ≡ z * 2 ^ k = omega arith in
    rw (e, e', zero-bit_or z, bit_or-zero k y h) at cut

pub join_low : (r k y z : ℕ) → y < 2 ^ k → z < 2 ^ r → bit_or (z * 2 ^ k) y ≡ z * 2 ^ k + y
join_low r k y z h g =
    let cut : bit_or (z * 2 ^ k + 0) (0 * 2 ^ k + y) ≡ bit_or z 0 * 2 ^ k + bit_or 0 y =
      bit_or-cut k z 0 0 y (omega arith) h in
    let e : 0 * 2 ^ k + y ≡ y = omega arith in
    let e' : z * 2 ^ k + 0 ≡ z * 2 ^ k = omega arith in
    rw (e, e', zero-bit_or y, bit_or-zero r z g) at cut

-- A mask that clears `f` bits at bit `k` and keeps those above, `r` of them, and below.
pub clear_field :
    (r f k hi mid lo : ℕ)
    → hi < 2 ^ r
    → mid < 2 ^ f
    → lo < 2 ^ k
    → bit_and ((hi * 2 ^ f + mid) * 2 ^ k + lo) (((2 ^ r - 1) * 2 ^ f + 0) * 2 ^ k + (2 ^ k - 1))
      ≡ hi * 2 ^ f * 2 ^ k + lo
clear_field r f k hi mid lo h g l =
    let pf = one-le-pow f 2 (omega arith) in
    let pk = one-le-pow k 2 (omega arith) in
    let outer : bit_and ((hi * 2 ^ f + mid) * 2 ^ k + lo)
          (((2 ^ r - 1) * 2 ^ f + 0) * 2 ^ k + (2 ^ k - 1))
        ≡ bit_and (hi * 2 ^ f + mid) ((2 ^ r - 1) * 2 ^ f + 0) * 2 ^ k + bit_and lo (2 ^ k - 1) =
      bit_and-cut k (hi * 2 ^ f + mid) lo ((2 ^ r - 1) * 2 ^ f + 0) (2 ^ k - 1) l (omega arith) in
    let inner : bit_and (hi * 2 ^ f + mid) ((2 ^ r - 1) * 2 ^ f + 0)
        ≡ bit_and hi (2 ^ r - 1) * 2 ^ f + bit_and mid 0 =
      bit_and-cut f hi mid (2 ^ r - 1) 0 g (omega arith) in
    let e : hi * 2 ^ f + 0 ≡ hi * 2 ^ f = omega arith in
    rw (inner, bit_and-ones r hi h, bit_and-zero f mid g, bit_and-ones k lo l, e) at outer

-- The word `x` with the `f` bits at bit `k` replaced by `v`.
abbrev pub replaced : ℕ → ℕ → ℕ → ℕ → ℕ
replaced f k x v = (x / 2 ^ k / 2 ^ f * 2 ^ f + v) * 2 ^ k + x % 2 ^ k

join_field :
    (r f k hi v lo : ℕ)
    → hi < 2 ^ r
    → v < 2 ^ f
    → lo < 2 ^ k
    → bit_or (hi * 2 ^ f * 2 ^ k + lo) (v * 2 ^ k) ≡ (hi * 2 ^ f + v) * 2 ^ k + lo
join_field r f k hi v lo h g l =
    let outer : bit_or (hi * 2 ^ f * 2 ^ k + lo) (v * 2 ^ k + 0)
        ≡ bit_or (hi * 2 ^ f) v * 2 ^ k + bit_or lo 0 =
      bit_or-cut k (hi * 2 ^ f) lo v 0 l (omega arith) in
    let e : v * 2 ^ k + 0 ≡ v * 2 ^ k = omega arith in
    rw (e, join_low r f v hi g h, bit_or-zero k lo l) at outer

-- As the code does it: a mask clears the field, and the shifted value is joined.
pub replace_field :
    (r f k x v mask : ℕ)
    → mask ≡ ((2 ^ r - 1) * 2 ^ f + 0) * 2 ^ k + (2 ^ k - 1)
    → x / 2 ^ k / 2 ^ f < 2 ^ r
    → v < 2 ^ f
    → bit_or (bit_and x mask) (v * 2 ^ k) ≡ replaced f k x v
replace_field r f k x v mask e h g =
    let pf = one-le-pow f 2 (omega arith) in
    let pk = one-le-pow k 2 (omega arith) in
    let hi = x / 2 ^ k / 2 ^ f in
    let mid = x / 2 ^ k % 2 ^ f in
    let lo = x % 2 ^ k in
    let lo_in : lo < 2 ^ k = grind arith in
    let mid_in : mid < 2 ^ f = grind arith in
    let upper : hi * 2 ^ f + mid ≡ x / 2 ^ k = grind arith in
    let whole : x / 2 ^ k * 2 ^ k + lo ≡ x = grind arith in
    let cleared = clear_field r f k hi mid lo h mid_in lo_in in
    let cleared' : bit_and x mask ≡ hi * 2 ^ f * 2 ^ k + lo = rw (upper, whole, ← e) at cleared in
    rw cleared' (join_field r f k hi v lo h g lo_in)
