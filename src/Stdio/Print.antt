-- ===== src/Stdio/Print.antt =====
-- The loop of libc/stdio/vprintf.c that prints the digits of a number, most significant first.
use ninjastorms.Prelude.{
  ℕ, zero, suc, ◌+◌, ◌-◌, ◌*◌, ◌^◌, ◌<◌, ◌≡◌, ◌≢◌, true, false, refl, ap, sym, ◌∙◌, List, [], ◌∷◌,
  ◌++◌, arith, length, if◌then◌else◌, ◌==◌, get_or, get_or-replicate, replicate, map,
}
use mathlib.Core.List.{map-append}
use mathlib.Core.Path.{ap₂}
use native.Mathlib.Decide.{ℕ_discrete}
use ninjastorms.Stdio.{Output, emit, emit_all, print_loop, print_unsigned, digits_loop}
use ninjastorms.Stdio.Digits.{
  digits, le_number, Base, AllBelow, digits_loop-all, le_number-digits, length-digits,
  digits-AllBelow,
}

-- The first `n` digits, the last one first.
down : ℕ → List ℕ → List ℕ
down zero tmp = []
down (suc n) tmp = get_or tmp n 0 ∷ down n tmp

down-cons : (n d : ℕ) (tmp : List ℕ) → down (suc n) (d ∷ tmp) ≡ down n tmp ++ d ∷ []
unfolding down
down-cons zero d tmp = refl
down-cons (suc n) d tmp = ap (λ l. get_or tmp n 0 ∷ l) (down-cons n d tmp)

print_loop-down :
    (char : ℕ → ℕ) (n : ℕ) (tmp : List ℕ) (out : Output)
    → print_loop char n tmp out ≡ emit_all (map char (down n tmp)) out
unfolding print_loop down
print_loop-down char zero tmp out = refl
print_loop-down char (suc n) tmp out = print_loop-down char n tmp (emit (char (get_or tmp n 0)) out)

-- The digits of a number as they are printed: a 0 is one digit.
unfoldable pub numeral : ℕ → ℕ → List ℕ
unfolding down
numeral base x = down (if x == 0 then 1 else length (digits base 64 x)) (digits base 64 x)

down-append : (ds r : List ℕ) → down (length ds) (ds ++ r) ≡ down (length ds) ds
unfolding down
down-append [] r = refl
down-append (d ∷ ds) r =
    down-cons (length ds) d (ds ++ r)
    ∙ ap (λ l. l ++ d ∷ []) (down-append ds r)
    ∙ sym (down-cons (length ds) d ds)

length-digits_of_ne : (b fuel x : ℕ) → x ≢ 0 → (length (digits b (suc fuel) x) == 0) ≡ false
unfolding digits
length-digits_of_ne b fuel x n = let t : (x == 0) ≡ false = ground arith in rw t (ground arith)

digits_of_zero : (b fuel : ℕ) → digits b fuel 0 ≡ []
unfolding digits
digits_of_zero b zero = refl
digits_of_zero b (suc fuel) = refl

rounds : (n : ℕ) → (n == 0) ≡ false → (if n == 0 then 0 else n - 1) + 1 ≡ n
rounds n h = ground arith

-- An unsigned conversion prints the numeral.
pub print_unsigned-numeral :
    (b size : ℕ) (char : ℕ → ℕ) (x : ℕ) (out : Output)
    → Base b
    → 0 < size
    → x < b ^ size
    → print_unsigned b size char x out ≡ emit_all (map char (numeral b x)) out
unfolding print_unsigned numeral
print_unsigned-numeral b size char x out base pos h =
    let k = size - length (digits b 64 x) in
    let run : digits_loop b 64 x 0 (replicate size 0)
        ≡ (length (digits b 64 x), digits b 64 x ++ replicate k 0) =
      digits_loop-all b 64 x size (length-digits b 64 size x base h) in
    rw run (elim (ℕ_discrete x 0) [
      | yes e ↦
          let t : (x == 0) ≡ true = ground arith in
          let z : digits b 64 x ≡ [] = ap (digits b 64) e ∙ digits_of_zero b 64 in
          rw (t, z)
            (print_loop-down char 1 (replicate (size - 0) 0) out
              ∙ ap (λ d. emit (char d) out) (get_or-replicate (size - 0) 0 0))
      | no n ↦
          let t : (x == 0) ≡ false = ground arith in
          let nonempty = length-digits_of_ne b 63 x n in
          let same = rounds (length (digits b 64 x)) nonempty in
          rw (t, same)
            (print_loop-down char (length (digits b 64 x)) (digits b 64 x ++ replicate k 0) out
              ∙ ap (λ l. emit_all (map char l) out) (down-append (digits b 64 x) (replicate k 0)))
    ])

-- A 0 has a digit too.
pub numeral_of_zero : (b : ℕ) → 0 < length (numeral b 0)
unfolding numeral down
numeral_of_zero b = omega arith

-- Reading a numeral of digits from the left.
unfoldable pub read_from : (ℕ → ℕ) → ℕ → ℕ → List ℕ → ℕ
read_from value base acc [] = acc
read_from value base acc (c ∷ cs) = read_from value base (acc * base + value c) cs

read_from-snoc :
    (value : ℕ → ℕ) (base acc : ℕ) (cs : List ℕ) (c : ℕ)
    → read_from value base acc (cs ++ c ∷ []) ≡ read_from value base acc cs * base + value c
unfolding read_from
read_from-snoc value base acc [] c = refl
read_from-snoc value base acc (d ∷ cs) c = read_from-snoc value base (acc * base + value d) cs c

module _ (value char : ℕ → ℕ) (b : ℕ) (back : (d : ℕ) → d < b → value (char d) ≡ d) where
  read_from-down :
      (ds : List ℕ)
      → AllBelow b ds
      → read_from value b 0 (map char (down (length ds) ds)) ≡ le_number b ds
  unfolding read_from le_number down
  read_from-down [] v = refl
  read_from-down (d ∷ ds) (h, v) =
      ap (λ l. read_from value b 0 (map char l)) (down-cons (length ds) d ds)
      ∙ ap (read_from value b 0) (map-append char (down (length ds) ds) (d ∷ []))
      ∙ read_from-snoc value b 0 (map char (down (length ds) ds)) (char d)
      ∙ ap₂ (λ n k. n * b + k) (read_from-down ds v) (back d h)

  zero_value : 0 < b → read_from value b 0 (char (get_or [] 0 0) ∷ []) ≡ 0
  unfolding read_from
  zero_value pos = rw (back 0 pos) (omega arith)

  -- A printed numeral reads back as the number.
  pub read_from-numeral :
      (x : ℕ) → Base b → 0 < b → x < 2 ^ 64 → read_from value b 0 (map char (numeral b x)) ≡ x
  unfolding numeral
  read_from-numeral x base pos h = elim (ℕ_discrete x 0) [
    | yes e ↦
        let t : (x == 0) ≡ true = ground arith in
        let z : digits b 64 x ≡ [] = ap (digits b 64) e ∙ digits_of_zero b 64 in
        rw (t, z) (zero_value pos ∙ sym e)
    | no n ↦
        let t : (x == 0) ≡ false = ground arith in
        rw t (
          read_from-down (digits b 64 x) (digits-AllBelow b 64 x base)
          ∙ le_number-digits b 64 x base h)
  ]

get_or-lt : (b : ℕ) (ds : List ℕ) (n : ℕ) → AllBelow b ds → 0 < b → get_or ds n 0 < b
get_or-lt b [] n v pos = pos
get_or-lt b (d ∷ ds) zero (h, v) pos = h
get_or-lt b (d ∷ ds) (suc n) (h, v) pos = get_or-lt b ds n v pos

down-AllBelow : (b n : ℕ) (ds : List ℕ) → AllBelow b ds → 0 < b → AllBelow b (down n ds)
unfolding down
down-AllBelow b zero ds v pos = tt
down-AllBelow b (suc n) ds v pos = (get_or-lt b ds n v pos, down-AllBelow b n ds v pos)

pub numeral-AllBelow : (b x : ℕ) → Base b → 0 < b → AllBelow b (numeral b x)
unfolding numeral
numeral-AllBelow b x base pos =
    down-AllBelow b (if x == 0 then 1 else length (digits b 64 x)) (digits b 64 x)
      (digits-AllBelow b 64 x base) pos
