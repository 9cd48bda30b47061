-- ===== src/Stdio/Number.antt =====
-- The conversions of libc/stdio/vprintf.c that print a number: `%i`, `%l`, `%L`, `%x`, `%X`, `%y`, `%Y`.
use ninjastorms.Prelude.{
  ℕ, ◌+◌, ◌-◌, ◌%◌, ◌^◌, ◌<◌, ◌≤◌, ◌≡◌, ◌≢◌, true, false, refl, ap, sym, ◌∙◌, List, [], ◌∷◌, ◌++◌,
  arith, length, if◌then◌else◌, ◌==◌, ◌&&◌, ltb, leb, append-nil, append_assoc, map, some,
}
use native.Mathlib.Decide.{dec_lt, ℕ_discrete}
use ninjastorms.Memory.{ℤ, pos, negsuc}
use ninjastorms.Stdio.{Output, emit, emit_all, print_unsigned, print_signed, decimal_char, hex_char}
use ninjastorms.Stdio.Digits.{Base, decimal, hex, AllBelow}
use ninjastorms.Stdio.Print.{
  numeral, numeral_of_zero, numeral-AllBelow, print_unsigned-numeral, read_from, read_from-numeral,
}

-- What a decimal or hexadecimal digit stands for, in either case; 16 for a character that is no digit.
abbrev pub digit_of : ℕ → ℕ
digit_of c =
    if leb b'0' c && leb c b'9'
    then c - b'0'
    else if leb b'A' c && leb c b'F'
    then c + 10 - b'A'
    else if leb b'a' c && leb c b'f'
    then c + 10 - b'a'
    else 16

-- A character that is no digit of the base counts 2^64, so that a text that has one reads as no number of 64 bits.
abbrev pub digit_value : ℕ → ℕ → ℕ
digit_value base c = if ltb (digit_of c) base then digit_of c else 2 ^ 64

-- No number of 64 bits: what a text reads as that is no numeral.
abbrev no_number : ℤ
no_number = pos (2 ^ 64)

abbrev pub negate : ℕ → ℤ
negate n = if n == 0 then no_number else negsuc (n - 1)

-- A numeral of at least one digit, with a minus sign in front of it when the number is negative.
unfoldable pub read_number : ℕ → List ℕ → ℤ
unfolding read_from
read_number base [] = no_number
read_number base (c ∷ cs) =
    if c == b'-'
    then negate (read_from (digit_value base) base 0 cs)
    else pos (read_from (digit_value base) base 0 (c ∷ cs))

-- A word in two's complement.
abbrev pub signed : ℕ → ℕ → ℤ
signed bits x = if ltb x (2 ^ (bits - 1)) then pos x else negsuc (2 ^ bits - 1 - x)

-- A base, and the characters of its digits.
pub data Notation : ℕ → (ℕ → ℕ) → Type 0 where
  tens : Notation 10 decimal_char
  lower : Notation 16 (hex_char b'a')
  upper : Notation 16 (hex_char b'A')

Notation-Base : (b : ℕ) (char : ℕ → ℕ) → Notation b char → Base b
Notation-Base _ _ tens = decimal
Notation-Base _ _ lower = hex
Notation-Base _ _ upper = hex

-- A character that `putchar` stores as it is, and which is no sign.
abbrev Plain : ℕ → Type 0
Plain c = (c == b'\n') ≡ false × (c == b'-') ≡ false × c % 256 ≡ c

Notation-Plain : (b : ℕ) (char : ℕ → ℕ) → Notation b char → (d : ℕ) → d < b → Plain (char d)
Notation-Plain _ _ tens d h = (ground arith, ground arith, ground arith)
Notation-Plain _ _ lower d h = (ground arith, ground arith, ground arith)
Notation-Plain _ _ upper d h = (ground arith, ground arith, ground arith)

digit_value-char :
    (b : ℕ) (char : ℕ → ℕ) → Notation b char → (d : ℕ) → d < b → digit_value b (char d) ≡ d
digit_value-char _ _ tens d h = ground arith
digit_value-char _ _ lower d h = ground arith
digit_value-char _ _ upper d h = ground arith

abbrev AllPlain : List ℕ → Type 0
AllPlain [] = Unit
AllPlain (c ∷ cs) = Plain c × AllPlain cs

-- A text behind what was sent.
abbrev pub append_text : List ℕ → Output → Output
append_text text out = record {
  sent = out.sent ++ text;
  chars_written = (out.chars_written + length text) % 2 ^ 32;
}

same_output :
    {s t : List ℕ} {m n : ℕ}
    → s ≡ t
    → m ≡ n
    → Path Output (record { sent = s; chars_written = m }) (record { sent = t; chars_written = n })
same_output p q = λ i. record { sent = p i; chars_written = q i }

emit_all-AllPlain :
    (text : List ℕ) (out : Output)
    → AllPlain text
    → out.chars_written < 2 ^ 32
    → emit_all text out ≡ append_text text out
emit_all-AllPlain [] out v h = same_output (sym (append-nil out.sent)) (omega arith)
emit_all-AllPlain (c ∷ cs) out ((a, b, w), v) h =
    emit_all-AllPlain cs (emit c out) v (omega arith)
    ∙ same_output (rw (a, w) (append_assoc out.sent (c ∷ []) cs)) (omega arith)

AllPlain-map :
    (b : ℕ) (char : ℕ → ℕ) (ds : List ℕ) → Notation b char → AllBelow b ds → AllPlain (map char ds)
AllPlain-map b char [] n v = tt
AllPlain-map b char (d ∷ ds) n (h, v) = (Notation-Plain b char n d h, AllPlain-map b char ds n v)

read_number-AllPlain :
    (base : ℕ) (text : List ℕ)
    → AllPlain text
    → 0 < length text
    → read_number base text ≡ pos (read_from (digit_value base) base 0 text)
unfolding read_number read_from
read_number-AllPlain base [] v l = absurd (omega arith)
read_number-AllPlain base (c ∷ cs) ((a, b, w), v) l = rw b refl

read_number-negative :
    (base : ℕ) (text : List ℕ)
    → read_number base (b'-' ∷ text) ≡ negate (read_from (digit_value base) base 0 text)
unfolding read_number
read_number-negative base text = refl

negate_pos : (n k : ℕ) → n ≡ k + 1 → negate n ≡ negsuc k
negate_pos n k h = let t : (n == 0) ≡ false = ground arith in rw t (ap negsuc (omega arith))

-- The text of an output reads back as a number.
abbrev pub Printed : ℕ → ℤ → Output → Output → Type 0
Printed base v before after =
    (text : List ℕ) × after ≡ append_text text before × read_number base text ≡ v

Notation-pos : (b : ℕ) (char : ℕ → ℕ) → Notation b char → 0 < b
Notation-pos _ _ tens = omega arith
Notation-pos _ _ lower = omega arith
Notation-pos _ _ upper = omega arith

module _ (b size : ℕ) (char : ℕ → ℕ) (n : Notation b char) (room : 0 < size) where
  Notation-Base_self : Base b
  Notation-Base_self = Notation-Base b char n

  AllPlain-numeral : (x : ℕ) → AllPlain (map char (numeral b x))
  AllPlain-numeral x =
      AllPlain-map b char (numeral b x) n
        (numeral-AllBelow b x Notation-Base_self (Notation-pos b char n))

  print_unsigned-append_text :
      (x : ℕ) (out : Output)
      → x < b ^ size
      → out.chars_written < 2 ^ 32
      → print_unsigned b size char x out ≡ append_text (map char (numeral b x)) out
  print_unsigned-append_text x out h c =
      print_unsigned-numeral b size char x out Notation-Base_self room h
      ∙ emit_all-AllPlain (map char (numeral b x)) out (AllPlain-numeral x) c

  read_back : (x : ℕ) → x < 2 ^ 64 → read_from (digit_value b) b 0 (map char (numeral b x)) ≡ x
  read_back x h =
      read_from-numeral (digit_value b) char b (digit_value-char b char n) x Notation-Base_self
        (Notation-pos b char n) h

  -- The text of a number is not empty.
  has_digits : (x : ℕ) → x < 2 ^ 64 → 0 < length (map char (numeral b x))
  unfolding read_from
  has_digits x h = elim (ℕ_discrete x 0) [
    | yes zero ↦ some_digit (numeral b x) (rw zero (numeral_of_zero b))
    | no ne ↦ more (map char (numeral b x)) (read_back x h) ne
  ]
    where
      some_digit : (ds : List ℕ) → 0 < length ds → 0 < length (map char ds)
      some_digit [] l = absurd (omega arith)
      some_digit (d ∷ ds) l = omega arith

      more : (text : List ℕ) → read_from (digit_value b) b 0 text ≡ x → x ≢ 0 → 0 < length text
      more [] e ne = absurd (ne (sym e))
      more (c ∷ cs) e ne = omega arith

  pub print_unsigned-Printed :
      (x : ℕ) (out : Output)
      → x < b ^ size
      → x < 2 ^ 64
      → out.chars_written < 2 ^ 32
      → Printed b (pos x) out (print_unsigned b size char x out)
  print_unsigned-Printed x out h w c = (
    map char (numeral b x),
    print_unsigned-append_text x out h c,
    read_number-AllPlain b (map char (numeral b x)) (AllPlain-numeral x) (has_digits x w)
        ∙ ap pos (read_back x w),
  )

  minus-append_text :
      (x : ℕ) (out : Output)
      → x < b ^ size
      → out.chars_written < 2 ^ 32
      → print_unsigned b size char x (emit b'-' out)
        ≡ append_text (b'-' ∷ map char (numeral b x)) out
  minus-append_text x out h c =
      print_unsigned-append_text x (emit b'-' out) h (omega arith)
      ∙ same_output (append_assoc out.sent (b'-' ∷ []) (map char (numeral b x))) (omega arith)

  pub print_signed-Printed :
      (bits x : ℕ) (out : Output)
      → x < 2 ^ bits
      → x ≢ 2 ^ (bits - 1)
      → 2 ^ bits ≤ b ^ size
      → 2 ^ bits ≤ 2 ^ 64
      → out.chars_written < 2 ^ 32
      → (after : Output) × print_signed bits b size char x out ≡ some after
        × Printed b (signed bits x) out after
  unfolding print_signed
  print_signed-Printed bits x out h ne fit w c = elim (dec_lt x (2 ^ (bits - 1))) [
    | yes l ↦
        let t : ltb x (2 ^ (bits - 1)) ≡ true = ground arith in
        rw t (
          print_unsigned b size char x out,
          refl,
          print_unsigned-Printed x out (omega arith) (omega arith) c,
        )
    | no g ↦
        let y = 2 ^ bits - x in
        let t : ltb x (2 ^ (bits - 1)) ≡ false = ground arith in
        let s : (x == 2 ^ (bits - 1)) ≡ false = ground arith in
        let z : negate y ≡ negsuc (2 ^ bits - 1 - x) =
          negate_pos y (2 ^ bits - 1 - x) (omega arith) in
        rw (t, s)
          (
            print_unsigned b size char y (emit b'-' out),
            refl,
            (
              b'-' ∷ map char (numeral b y),
              minus-append_text y out (omega arith) c,
              read_number-negative b (map char (numeral b y))
                  ∙ ap negate (read_back y (omega arith))
                  ∙ z,
            ),
          )
  ]
