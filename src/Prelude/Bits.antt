-- ===== src/Prelude/Bits.antt =====
-- `&` and `|` on words at variables: they work on the halves of a word apart, for any cut.
use Prim.Native.Nat.{max, digits, bit_and-bitwise, bit_or-bitwise}
use native.Mathlib.Nat.{pow-suc, one-le-pow}
use ninjastorms.Prelude.{
  ℕ, zero, suc, ◌+◌, ◌-◌, ◌*◌, ◌/◌, ◌%◌, ◌^◌, ◌≤◌, ◌<◌, ◌≡◌, refl, ap, ◌∙◌, min, bit_and, bit_or,
  arith,
}

-- The library's operations recur on fuel; any fuel that covers the first operand gives the same.
module _ (rest : ℕ → ℕ) (op : ℕ → ℕ → ℕ) where
  same_fuel : (m n a b : ℕ) → a ≤ m → a ≤ n → digits rest op m a b ≡ digits rest op n a b
  same_fuel zero zero a b h k = refl
  same_fuel zero (suc n) zero b h k = refl
  same_fuel (suc m) zero zero b h k = refl
  same_fuel (suc m) (suc n) zero b h k = refl
  same_fuel zero (suc n) (suc a) b h k = elim h [ ]
  same_fuel (suc m) zero (suc a) b h k = elim k [ ]
  same_fuel (suc m) (suc n) (suc a) b h k =
      ap (λ (t : ℕ). t * 2 + op (suc a % 2) (b % 2))
        (same_fuel m n (suc a / 2) (b / 2) (omega arith) (omega arith))

  halve :
      (a b : ℕ)
      → digits rest op (suc a) (suc a) b
        ≡ digits rest op (suc a / 2) (suc a / 2) (b / 2) * 2 + op (suc a % 2) (b % 2)
  halve a b =
      ap (λ (t : ℕ). t * 2 + op (suc a % 2) (b % 2))
        (same_fuel a (suc a / 2) (suc a / 2) (b / 2) (omega arith) (omega arith))

bit_and-halve : (a b : ℕ) → bit_and a b ≡ bit_and (a / 2) (b / 2) * 2 + min (a % 2) (b % 2)
bit_and-halve zero b = omega (arith, bit_and-bitwise 0 b, bit_and-bitwise 0 (b / 2))
bit_and-halve (suc a) b = omega (
  arith,
  bit_and-bitwise (suc a) b,
  bit_and-bitwise (suc a / 2) (b / 2),
  halve (λ _. zero) min a b,
)

bit_or-halve : (a b : ℕ) → bit_or a b ≡ bit_or (a / 2) (b / 2) * 2 + max (a % 2) (b % 2)
bit_or-halve zero b = omega (arith, bit_or-bitwise 0 b, bit_or-bitwise 0 (b / 2))
bit_or-halve (suc a) b =
    omega
      (arith, bit_or-bitwise (suc a) b, bit_or-bitwise (suc a / 2) (b / 2), halve (λ y. y) max a b)

double : (x k : ℕ) → x * 2 ^ suc k ≡ 2 * (x * 2 ^ k)
double x k = omega (arith, ap (λ (t : ℕ). x * t) (pow-suc 2 k))

-- Cut both operands at bit `k`: the upper parts and the lower parts are joined apart.
pub bit_and-cut :
    (k x y m n : ℕ)
    → y < 2 ^ k
    → n < 2 ^ k
    → bit_and (x * 2 ^ k + y) (m * 2 ^ k + n) ≡ bit_and x m * 2 ^ k + bit_and y n
bit_and-cut zero x y m n hy hn =
    let e : x * 2 ^ 0 + y ≡ x = omega arith in
    let e' : m * 2 ^ 0 + n ≡ m = omega arith in
    let ey : y ≡ 0 = omega arith in let en : n ≡ 0 = omega arith in rw (e, e', ey, en) (omega arith)
bit_and-cut (suc k) x y m n hy hn = ground (
  arith,
  bit_and-halve (x * 2 ^ suc k + y) (m * 2 ^ suc k + n),
  bit_and-halve y n,
  double x k,
  double m k,
  double (bit_and x m) k,
  pow-suc 2 k,
  bit_and-cut k x (y / 2) m (n / 2),
)

pub bit_or-cut :
    (k x y m n : ℕ)
    → y < 2 ^ k
    → n < 2 ^ k
    → bit_or (x * 2 ^ k + y) (m * 2 ^ k + n) ≡ bit_or x m * 2 ^ k + bit_or y n
bit_or-cut zero x y m n hy hn =
    let e : x * 2 ^ 0 + y ≡ x = omega arith in
    let e' : m * 2 ^ 0 + n ≡ m = omega arith in
    let ey : y ≡ 0 = omega arith in let en : n ≡ 0 = omega arith in rw (e, e', ey, en) (omega arith)
bit_or-cut (suc k) x y m n hy hn = ground (
  arith,
  bit_or-halve (x * 2 ^ suc k + y) (m * 2 ^ suc k + n),
  bit_or-halve y n,
  double x k,
  double m k,
  double (bit_or x m) k,
  pow-suc 2 k,
  bit_or-cut k x (y / 2) m (n / 2),
)

-- Masks of `k` ones, and zeros.
pub bit_and-zero : (k x : ℕ) → x < 2 ^ k → bit_and x 0 ≡ 0
bit_and-zero zero x h = let e : x ≡ 0 = omega arith in rw e
bit_and-zero (suc k) x h =
    omega (arith, bit_and-halve x 0, bit_and-zero k (x / 2) (omega (arith, pow-suc 2 k)))

pub zero-bit_and : (x : ℕ) → bit_and 0 x ≡ 0
zero-bit_and x = bit_and-bitwise 0 x

pub zero-bit_or : (x : ℕ) → bit_or 0 x ≡ x
zero-bit_or x = bit_or-bitwise 0 x

pub bit_or-zero : (k x : ℕ) → x < 2 ^ k → bit_or x 0 ≡ x
bit_or-zero zero x h = let e : x ≡ 0 = omega arith in rw e
bit_or-zero (suc k) x h =
    omega (arith, bit_or-halve x 0, bit_or-zero k (x / 2) (omega (arith, pow-suc 2 k)))

pub bit_and-ones : (k x : ℕ) → x < 2 ^ k → bit_and x (2 ^ k - 1) ≡ x
bit_and-ones zero x h = let e : x ≡ 0 = omega arith in rw e
bit_and-ones (suc k) x h =
    ground
      (arith, bit_and-halve x (2 ^ suc k - 1), bit_and-ones k (x / 2), pow-suc 2 k, one-le-pow k 2)

-- A mask of `k` low ones is the remainder by `2 ^ k`.
pub bit_and-low : (w k x : ℕ) → x < 2 ^ w → bit_and x (2 ^ k - 1) ≡ x % 2 ^ k
bit_and-low w k x h =
    let pos = one-le-pow k 2 (omega arith) in
    let e : x / 2 ^ k * 2 ^ k + x % 2 ^ k ≡ x = grind arith in
    let cut : bit_and (x / 2 ^ k * 2 ^ k + x % 2 ^ k) (0 * 2 ^ k + (2 ^ k - 1))
        ≡ bit_and (x / 2 ^ k) 0 * 2 ^ k + bit_and (x % 2 ^ k) (2 ^ k - 1) =
      bit_and-cut k (x / 2 ^ k) (x % 2 ^ k) 0 (2 ^ k - 1) (grind arith) (omega arith) in
    let cut' = rw e at cut in
    let quotient : x / 2 ^ k < 2 ^ w = grind arith in
    ap (bit_and x) {x = 2 ^ k - 1} {y = 0 * 2 ^ k + (2 ^ k - 1)} (omega arith)
    ∙ omega (
      arith,
      cut',
      ap (λ (t : ℕ). t * 2 ^ k) (bit_and-zero w (x / 2 ^ k) quotient),
      bit_and-ones k (x % 2 ^ k) (grind arith),
    )
