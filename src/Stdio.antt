-- ===== src/Stdio.antt =====
-- libc/stdio: putchar.c, puts.c, printf.c and vprintf.c. The characters that reach the serial port are
-- a list; the wait for the port on the board EV3 is not modelled. Words are numbers below 2^32 or 2^64,
-- signed ones in two's complement.
pub mod Digits
pub mod Print
pub mod Number
pub mod Conversion
pub mod Format
mod Tests
use ninjastorms.Prelude.{
  ℕ, zero, suc, ◌+◌, ◌-◌, ◌*◌, ◌/◌, ◌%◌, ◌^◌, Bool, true, false, Option, none, some, List, [], ◌∷◌,
  ◌++◌, if◌then◌else◌, ◌==◌, ltb, leb, set, get_or, replicate,
}

-- What the port was sent, and how many characters the call of `vprintf` counts.
pub record Output : Type 0 where
  pub sent : List ℕ
  pub chars_written : ℕ

abbrev pub eof : ℕ
eof = 2 ^ 32 - 1

-- What `putchar` stores in the port's register: a line feed comes behind a carriage return.
abbrev pub putchar : ℕ → List ℕ → List ℕ
putchar c sent = if c == b'\n' then sent ++ b'\r' ∷ b'\n' ∷ [] else sent ++ c % 256 ∷ []

abbrev pub put_all : List ℕ → List ℕ → List ℕ
put_all [] sent = sent
put_all (c ∷ cs) sent = put_all cs (putchar c sent)

-- `puts`: no character of a string is `EOF`.
pub puts : List ℕ → List ℕ → List ℕ
puts s sent = putchar b'\n' (put_all s sent)

-- `putchar` and `++chars_written`
abbrev pub emit : ℕ → Output → Output
emit c out = record { sent = putchar c out.sent; chars_written = (out.chars_written + 1) % 2 ^ 32 }

abbrev pub emit_all : List ℕ → Output → Output
emit_all [] out = out
emit_all (c ∷ cs) out = emit_all cs (emit c out)

-- `while (x) { tmp[i] = x % base; x /= base; ++i; }`. No number has more digits than bits, so that 64
-- rounds are enough.
pub digits_loop : ℕ → ℕ → ℕ → ℕ → List ℕ → ℕ × List ℕ
digits_loop base zero x i tmp = (i, tmp)
digits_loop base (suc fuel) x i tmp =
    let rest = digits_loop base fuel (x / base) (i + 1) (set tmp i (x % base)) in
    if x == 0 then (i, tmp) else rest

-- `for ( ; i >= 0; --i)`, with the rounds left.
pub print_loop : (ℕ → ℕ) → ℕ → List ℕ → Output → Output
print_loop char zero tmp out = out
print_loop char (suc n) tmp out = print_loop char n tmp (emit (char (get_or tmp n 0)) out)

-- An unsigned conversion, with the size of its array `tmp`.
pub print_unsigned : ℕ → ℕ → (ℕ → ℕ) → ℕ → Output → Output
unfolding digits_loop print_loop
print_unsigned base size char x out =
    let (i, tmp) = digits_loop base 64 x 0 (replicate size 0) in
    print_loop char ((if i == 0 then 0 else i - 1) + 1) tmp out

-- `chars_written += sign; x *= -1; putchar ('-')`. The least number has no opposite: then the code's
-- behaviour is undefined, which `none` stands for.
pub print_signed : ℕ → ℕ → ℕ → (ℕ → ℕ) → ℕ → Output → Option Output
unfolding print_unsigned
print_signed bits base size char x out =
    if ltb x (2 ^ (bits - 1))
    then some (print_unsigned base size char x out)
    else if x == 2 ^ (bits - 1)
    then none
    else some (print_unsigned base size char (2 ^ bits - x) (emit b'-' out))

abbrev pub decimal_char : ℕ → ℕ
decimal_char d = d + b'0'

-- With the letter for ten.
abbrev pub hex_char : ℕ → ℕ → ℕ
hex_char a d = if ltb 9 d then d + a - 10 else d + b'0'

-- The variable arguments; taking one as another type is undefined behaviour.
pub data Arg : Type 0 where
  int : ℕ → Arg
  long_long : ℕ → Arg
  string : Option (List ℕ) → Arg

-- How one conversion ends: the loop goes on with the arguments that are left, or `vprintf` returns.
pub data Step : Type 0 where
  continues : Output → List Arg → Step
  returns : Output → Step
  undefined : Step

abbrev pub step_of : Option Output → List Arg → Step
step_of none args = undefined
step_of (some out) args = continues out args

-- `case 's'`, `case 'c'` and the numbers.
print_string : List Arg → Output → Step
print_string (string none ∷ args) out =
    continues (emit_all (b'(' ∷ b'n' ∷ b'u' ∷ b'l' ∷ b'l' ∷ b')' ∷ []) out) args
print_string (string (some x) ∷ args) out = continues (emit_all x out) args
print_string _ out = undefined

print_char : List Arg → Output → Step
print_char (int x ∷ args) out =
    if x == eof
    then returns (record out { sent = putchar x out.sent })
    else continues (emit x out) args
print_char _ out = undefined

print_int : (ℕ → Output → Option Output) → List Arg → Output → Step
print_int print (int x ∷ args) out = step_of (print x out) args
print_int print _ out = undefined

print_long : (ℕ → Output → Option Output) → List Arg → Output → Step
print_long print (long_long x ∷ args) out = step_of (print x out) args
print_long print _ out = undefined

-- "\nprintf: unimplemented conversion character '%c'\n"
abbrev pub complaint : ℕ → List ℕ
complaint c =
    b'\n' ∷ b'p' ∷ b'r' ∷ b'i' ∷ b'n' ∷ b't' ∷ b'f' ∷ b':' ∷ b' ' ∷ b'u' ∷ b'n' ∷ b'i' ∷ b'm' ∷ b'p'
    ∷ b'l' ∷ b'e' ∷ b'm' ∷ b'e' ∷ b'n' ∷ b't' ∷ b'e' ∷ b'd' ∷ b' ' ∷ b'c' ∷ b'o' ∷ b'n' ∷ b'v'
    ∷ b'e' ∷ b'r' ∷ b's' ∷ b'i' ∷ b'o' ∷ b'n' ∷ b' ' ∷ b'c' ∷ b'h' ∷ b'a' ∷ b'r' ∷ b'a' ∷ b'c'
    ∷ b't' ∷ b'e' ∷ b'r' ∷ b' ' ∷ b'\'' ∷ c ∷ b'\'' ∷ b'\n' ∷ []

-- The switch on the conversion character.
pub conversion : ℕ → List Arg → Output → Step
unfolding print_string print_char print_int print_long print_unsigned print_signed
conversion c args out =
    if c == b'%'
    then continues (emit b'%' out) args
    else if c == b'c'
    then print_char args out
    else if c == b's'
    then print_string args out
    else if c == b'i'
    then print_int (print_signed 32 10 10 decimal_char) args out
    else if c == b'l'
    then print_long (λ x o. some (print_unsigned 10 20 decimal_char x o)) args out
    else if c == b'L'
    then print_long (print_signed 64 10 20 decimal_char) args out
    else if c == b'x'
    then print_int (λ x o. some (print_unsigned 16 10 (hex_char b'a') x o)) args out
    else if c == b'X'
    then print_int (print_signed 32 16 10 (hex_char b'A')) args out
    else if c == b'y'
    then print_long (λ x o. some (print_unsigned 16 20 (hex_char b'a') x o)) args out
    else if c == b'Y'
    then print_long (print_signed 64 16 20 (hex_char b'A')) args out
    else returns (record out { sent = put_all (complaint c) out.sent })

-- `none` stands for undefined behaviour.
abbrev pub next : (Output → List Arg → Option Output) → Step → Option Output
next loop (continues out args) = loop out args
next loop (returns out) = some out
next loop undefined = none

-- The loop over the format. At the end of the format the conversion character is the terminating zero.
unfoldable pub vprintf_loop : List ℕ → List Arg → Output → Option Output
vprintf_loop [] args out = some out
vprintf_loop (c ∷ []) args out =
    if c == b'%' then next (λ o a. some o) (conversion 0 args out) else some (emit c out)
vprintf_loop (c ∷ d ∷ format) args out = elim (c == b'%') [
  | true ↦ next (λ o a. vprintf_loop format a o) (conversion d args out)
  | false ↦ vprintf_loop (d ∷ format) args (emit c out)
]

-- `vprintf` on what the port was sent so far; `printf` passes its arguments on.
unfoldable pub vprintf : List ℕ → List Arg → List ℕ → Option Output
vprintf format args sent = vprintf_loop format args (record { sent = sent; chars_written = 0 })

unfoldable pub printf : List ℕ → List Arg → List ℕ → Option Output
unfolding vprintf
printf format args sent = vprintf format args sent
