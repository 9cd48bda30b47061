-- ===== src/Stdio/Format.antt =====
-- The loop of libc/stdio/vprintf.c at plain text and at strings.
use ninjastorms.Prelude.{
  ℕ, ◌≡◌, refl, ap, sym, ◌∙◌, Bool, true, false, not, ◌&&◌, some, List, [], ◌∷◌, ◌++◌, ◌==◌, arith,
}
use ninjastorms.Stdio.{
  Output, Arg, string, emit, emit_all, putchar, put_all, conversion, print_string, vprintf,
  vprintf_loop,
}

-- No conversion starts in a text.
abbrev pub is_plain : List ℕ → Bool
is_plain [] = true
is_plain (c ∷ cs) = not (c == b'%') && is_plain cs

abbrev pub IsPlain : List ℕ → Type 0
IsPlain text = is_plain text ≡ true

head-IsPlain : (b p : Bool) → (not b && p) ≡ true → (b ≡ false) × (p ≡ true)
head-IsPlain b p h = (ground arith, ground arith)

pub vprintf_loop-string :
    (x format : List ℕ) (args : List Arg) (out : Output)
    → vprintf_loop (b'%' ∷ b's' ∷ format) (string (some x) ∷ args) out
      ≡ vprintf_loop format args (emit_all x out)
unfolding vprintf_loop conversion print_string
vprintf_loop-string x format args out = refl

pub vprintf_loop-text :
    (text format : List ℕ) (args : List Arg) (out : Output)
    → IsPlain text
    → vprintf_loop (text ++ format) args out ≡ vprintf_loop format args (emit_all text out)
unfolding vprintf_loop
vprintf_loop-text [] format args out p = refl
vprintf_loop-text (c ∷ []) [] args out p =
    rw ((head-IsPlain (c == b'%') true p).0, vprintf_loop) refl
vprintf_loop-text (c ∷ []) (d ∷ format) args out p =
    rw ((head-IsPlain (c == b'%') true p).0, vprintf_loop) refl
vprintf_loop-text (c ∷ d ∷ text) format args out p =
    let (q, ps) = head-IsPlain (c == b'%') (is_plain (d ∷ text)) p in
    let ih = vprintf_loop-text (d ∷ text) format args (emit c out) ps in rw (q, vprintf_loop) ih

pub emit_all-sent : (x : List ℕ) (out : Output) → (emit_all x out).sent ≡ put_all x out.sent
emit_all-sent [] out = refl
emit_all-sent (c ∷ x) out = emit_all-sent x (emit c out)

pub put_all-append : (x y sent : List ℕ) → put_all (x ++ y) sent ≡ put_all y (put_all x sent)
put_all-append [] y sent = refl
put_all-append (c ∷ x) y sent = put_all-append x y (putchar c sent)

pub emit_all-append :
    (x y : List ℕ) (out : Output) → emit_all y (emit_all x out) ≡ emit_all (x ++ y) out
emit_all-append [] y out = refl
emit_all-append (c ∷ x) y out = emit_all-append x y (emit c out)

append-nil : (x : List ℕ) → x ++ [] ≡ x
append-nil [] = refl
append-nil (c ∷ x) = ap (λ r. c ∷ r) (append-nil x)

pub vprintf-text :
    (text sent : List ℕ)
    → IsPlain text
    → vprintf text [] sent ≡ some (emit_all text (record { sent = sent; chars_written = 0 }))
unfolding vprintf vprintf_loop
vprintf-text text sent p =
    let out : Output = record { sent = sent; chars_written = 0 } in
    ap (λ t. vprintf_loop t [] out) (sym (append-nil text)) ∙ vprintf_loop-text text [] [] out p
