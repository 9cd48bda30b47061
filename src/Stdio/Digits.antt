-- ===== src/Stdio/Digits.antt =====
-- The loop of libc/stdio/vprintf.c that stores the digits of a number, least significant first.
use native.Mathlib.Nat.{pow-suc}
use ninjastorms.Prelude.{
  ℕ, zero, suc, ◌+◌, ◌-◌, ◌*◌, ◌/◌, ◌%◌, ◌^◌, ◌<◌, ◌≤◌, ◌≡◌, true, false, length-append, refl, ap,
  sym, ◌∙◌, List, [], ◌∷◌, ◌++◌, arith, length, if◌then◌else◌, ◌==◌, set, replicate, append_assoc,
}
use native.Mathlib.Decide.{ℕ_discrete}
use ninjastorms.Stdio.{digits_loop}

-- The digits of a number, with fuel for as many.
unfoldable pub digits : ℕ → ℕ → ℕ → List ℕ
digits base zero x = []
digits base (suc fuel) x = if x == 0 then [] else x % base ∷ digits base fuel (x / base)

-- The number that digits stand for.
unfoldable pub le_number : ℕ → List ℕ → ℕ
le_number base [] = 0
le_number base (d ∷ ds) = le_number base ds * base + d

-- The bases in use.
pub data Base : ℕ → Type 0 where
  decimal : Base 10
  hex : Base 16

div_mod : (b x : ℕ) → Base b → x / b * b + x % b ≡ x
div_mod _ x decimal = omega arith
div_mod _ x hex = omega arith

mod-lt : (b x : ℕ) → Base b → x % b < b
mod-lt _ x decimal = omega arith
mod-lt _ x hex = omega arith

div-lt : (b k x : ℕ) → Base b → x < k * b → x / b < k
div-lt _ k x decimal h = omega arith
div-lt _ k x hex h = omega arith

div-half : (b x k : ℕ) → Base b → x < 2 * k → x / b < k
div-half _ x k decimal h = omega arith
div-half _ x k hex h = omega arith

-- Fuel for the bits is fuel for the digits.
pub le_number-digits : (b fuel x : ℕ) → Base b → x < 2 ^ fuel → le_number b (digits b fuel x) ≡ x
unfolding digits le_number
le_number-digits b zero x base h = omega arith
le_number-digits b (suc fuel) x base h = elim (ℕ_discrete x 0) [
  | yes e ↦ ground arith
  | no n ↦
      let rest =
        le_number-digits b fuel (x / b) base
          (div-half b x (2 ^ fuel) base (omega (arith, pow-suc 2 fuel))) in
      let whole = div_mod b x base in let t : (x == 0) ≡ false = ground arith in rw (t, rest) whole
]

pow-zero : (b : ℕ) → Base b → b ^ 0 ≡ 1
pow-zero _ decimal = refl
pow-zero _ hex = refl

pub length-digits : (b fuel k x : ℕ) → Base b → x < b ^ k → length (digits b fuel x) ≤ k
unfolding digits
length-digits b zero k x base h = omega arith
length-digits b (suc fuel) zero x base h =
    let t : (x == 0) ≡ true = ground (arith, pow-zero b base) in rw t (omega arith)
length-digits b (suc fuel) (suc k) x base h = elim (ℕ_discrete x 0) [
  | yes e ↦ let t : (x == 0) ≡ true = ground arith in rw t (omega arith)
  | no n ↦
      let t : (x == 0) ≡ false = ground arith in
      let rest =
        length-digits b fuel k (x / b) base (div-lt b (b ^ k) x base (rw (pow-suc b k) at h)) in
      rw t (omega arith)
]

-- Each digit is below the base.
abbrev pub AllBelow : ℕ → List ℕ → Type 0
AllBelow b [] = Unit
AllBelow b (d ∷ ds) = (d < b) × AllBelow b ds

pub digits-AllBelow : (b fuel x : ℕ) → Base b → AllBelow b (digits b fuel x)
unfolding digits
digits-AllBelow b zero x base = tt
digits-AllBelow b (suc fuel) x base = elim (ℕ_discrete x 0) [
  | yes e ↦ let t : (x == 0) ≡ true = ground arith in rw t tt
  | no n ↦
      let t : (x == 0) ≡ false = ground arith in
      rw t (mod-lt b x base, digits-AllBelow b fuel (x / b) base)
]

-- The leading digit is not 0.
pub digits-nil : (b fuel x : ℕ) → digits b (suc fuel) x ≡ [] → x ≡ 0
unfolding digits
digits-nil b fuel x h = elim (ℕ_discrete x 0) [ yes e ↦ e | no n ↦ ground arith ]

abbrev pair : ℕ → List ℕ → ℕ × List ℕ
pair a l = (a, l)

same_pair : {a b : ℕ} {l m : List ℕ} → a ≡ b → l ≡ m → pair a l ≡ pair b m
same_pair p q = λ i. pair (p i) (q i)

set-append : (ps r : List ℕ) (a v : ℕ) → set (ps ++ a ∷ r) (length ps) v ≡ ps ++ v ∷ r
set-append [] r a v = refl
set-append (p ∷ ps) r a v = ap (λ l. p ∷ l) (set-append ps r a v)

-- The loop stores the digits behind those that are there.
pub digits_loop-from :
    (b fuel x k : ℕ) (ps : List ℕ)
    → length (digits b fuel x) ≤ k
    → digits_loop b fuel x (length ps) (ps ++ replicate k 0) ≡ (
      length ps + length (digits b fuel x),
      ps ++ (digits b fuel x ++ replicate (k - length (digits b fuel x)) 0),
    )
unfolding digits digits_loop
digits_loop-from b zero x k ps h =
    same_pair (omega arith) (ap (λ n. ps ++ replicate n 0) {x = k} (omega arith))
digits_loop-from b (suc fuel) x zero ps h = elim (ℕ_discrete x 0) [
  | yes e ↦ let t : (x == 0) ≡ true = ground arith in rw t (same_pair (omega arith) refl)
  | no n ↦ absurd (ground arith)
]
digits_loop-from b (suc fuel) x (suc k) ps h = elim (ℕ_discrete x 0) [
  | yes e ↦
      let t : (x == 0) ≡ true = ground arith in
      rw t (same_pair (omega arith) (ap (λ n. ps ++ replicate n 0) {x = suc k} (omega arith)))
  | no n ↦
      let d = x % b in
      let ds = digits b fuel (x / b) in
      let t : (x == 0) ≡ false = ground arith in
      let h' : suc (length ds) ≤ suc k = rw t at h in
      let i : length ps + 1 ≡ length (ps ++ d ∷ []) = omega (arith, length-append ps (d ∷ [])) in
      let tmp : set (ps ++ 0 ∷ replicate k 0) (length ps) d ≡ (ps ++ d ∷ []) ++ replicate k 0 =
        set-append ps (replicate k 0) 0 d ∙ sym (append_assoc ps (d ∷ []) (replicate k 0)) in
      rw (t, i, tmp)
        (digits_loop-from b fuel (x / b) k (ps ++ d ∷ []) (omega (arith, h'))
          ∙ same_pair (omega (arith, i)) (
              append_assoc ps (d ∷ []) (ds ++ replicate (k - length ds) 0)
              ∙ ap (λ n. ps ++ (d ∷ (ds ++ replicate n 0))) {x = k - length ds} (omega arith)))
]

-- Into an empty array.
pub digits_loop-all :
    (b fuel x k : ℕ)
    → length (digits b fuel x) ≤ k
    → digits_loop b fuel x 0 (replicate k 0)
      ≡ (length (digits b fuel x), digits b fuel x ++ replicate (k - length (digits b fuel x)) 0)
digits_loop-all b fuel x k h = digits_loop-from b fuel x k [] h ∙ same_pair (omega arith) refl
