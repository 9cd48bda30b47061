-- ===== src/Stdio/Conversion.antt =====
-- The switch of libc/stdio/vprintf.c at the conversions of numbers, inside its loop.
use ninjastorms.Prelude.{ℕ, ◌^◌, ◌<◌, ◌≡◌, ◌≢◌, refl, ap, List, ◌∷◌, arith}
use ninjastorms.Memory.{ℤ, pos}
use ninjastorms.Stdio.{
  Output, print_unsigned, decimal_char, hex_char, Arg, int, long_long, vprintf_loop, conversion,
  step_of, continues,
}
use ninjastorms.Stdio.Number.{
  signed, tens, lower, upper, Printed, append_text, read_number, print_unsigned-Printed,
  print_signed-Printed,
}

-- The conversions of numbers: the conversion character, the argument, the base and what is printed. The
-- least signed number is left out.
pub data Conversion : ℕ → Arg → ℕ → ℤ → Type 0 where
  signed_int : (x : ℕ) → x < 2 ^ 32 → x ≢ 2 ^ 31 → Conversion b'i' (int x) 10 (signed 32 x)
  unsigned_long : (x : ℕ) → x < 2 ^ 64 → Conversion b'l' (long_long x) 10 (pos x)
  signed_long : (x : ℕ) → x < 2 ^ 64 → x ≢ 2 ^ 63 → Conversion b'L' (long_long x) 10 (signed 64 x)
  hex_int : (x : ℕ) → x < 2 ^ 32 → Conversion b'x' (int x) 16 (pos x)
  signed_hex_int : (x : ℕ) → x < 2 ^ 32 → x ≢ 2 ^ 31 → Conversion b'X' (int x) 16 (signed 32 x)
  hex_long : (x : ℕ) → x < 2 ^ 64 → Conversion b'y' (long_long x) 16 (pos x)
  signed_hex_long :
      (x : ℕ) → x < 2 ^ 64 → x ≢ 2 ^ 63 → Conversion b'Y' (long_long x) 16 (signed 64 x)

-- The conversion of a number goes on behind a text that reads back.
Converts : ℕ → Arg → ℕ → ℤ → Output → Type 0
Converts c a base v out =
    (after : Output) × ((args : List Arg) → conversion c (a ∷ args) out ≡ continues after args)
    × Printed base v out after

conversion_lem :
    (c : ℕ) (a : Arg) (base : ℕ) (v : ℤ) (out : Output)
    → Conversion c a base v
    → out.chars_written < 2 ^ 32
    → Converts c a base v out
unfolding Converts conversion
conversion_lem _ _ _ _ out (signed_int x h ne) b =
    let (after, e, p) =
      print_signed-Printed 10 10 decimal_char tens (omega arith) 32 x out h ne (omega arith)
        (omega arith) b in
    (after, λ args. ap (λ o. step_of o args) e, p)
conversion_lem _ _ _ _ out (unsigned_long x h) b = (
  print_unsigned 10 20 decimal_char x out,
  λ args. refl,
  print_unsigned-Printed 10 20 decimal_char tens (omega arith) x out (omega arith) h b,
)
conversion_lem _ _ _ _ out (signed_long x h ne) b =
    let (after, e, p) =
      print_signed-Printed 10 20 decimal_char tens (omega arith) 64 x out h ne (omega arith)
        (omega arith) b in
    (after, λ args. ap (λ o. step_of o args) e, p)
conversion_lem _ _ _ _ out (hex_int x h) b = (
  print_unsigned 16 10 (hex_char b'a') x out,
  λ args. refl,
  print_unsigned-Printed 16 10 (hex_char b'a') lower (omega arith) x out (omega arith) (omega arith)
      b,
)
conversion_lem _ _ _ _ out (signed_hex_int x h ne) b =
    let (after, e, p) =
      print_signed-Printed 16 10 (hex_char b'A') upper (omega arith) 32 x out h ne (omega arith)
        (omega arith) b in
    (after, λ args. ap (λ o. step_of o args) e, p)
conversion_lem _ _ _ _ out (hex_long x h) b = (
  print_unsigned 16 20 (hex_char b'a') x out,
  λ args. refl,
  print_unsigned-Printed 16 20 (hex_char b'a') lower (omega arith) x out (omega arith) h b,
)
conversion_lem _ _ _ _ out (signed_hex_long x h ne) b =
    let (after, e, p) =
      print_signed-Printed 16 20 (hex_char b'A') upper (omega arith) 64 x out h ne (omega arith)
        (omega arith) b in
    (after, λ args. ap (λ o. step_of o args) e, p)

-- The conversion of a number, `%i`, `%l`, `%L`, `%x`, `%X`, `%y` or `%Y`, in front of any format: it
-- prints a text of digits of the base of the conversion, with a minus sign in front of them when the number is
-- negative, that reads back as the number, counts its characters
-- modulo 2^32, and the loop goes on behind it with the rest of the format and of the arguments. The least
-- signed number is left out: its negation overflows.
pub vprintf_loop-Conversion :
    (c : ℕ) (a : Arg) (base : ℕ) (v : ℤ) (format : List ℕ) (args : List Arg) (out : Output)
    → Conversion c a base v
    → out.chars_written < 2 ^ 32
    → (text : List ℕ) × vprintf_loop (b'%' ∷ c ∷ format) (a ∷ args) out
        ≡ vprintf_loop format args (append_text text out)
      × read_number base text ≡ v
unfolding vprintf_loop Converts
vprintf_loop-Conversion c a base v format args out k h =
    let (after, e, (text, t, r)) = conversion_lem c a base v out k h in
    (text, rw (e args, t) refl, r)
