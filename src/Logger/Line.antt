-- ===== src/Logger/Line.antt =====
-- What kernel/logger/logger.c prints.
use ninjastorms.Prelude.{
  ℕ, zero, suc, ◌-◌, ◌<◌, ◌≡◌, refl, ap, sym, ◌∙◌, some, List, [], ◌∷◌, ◌++◌, arith, length,
  replicate, get_or,
}
use ninjastorms.Stdio.{
  Output, printf, vprintf, putchar, put_all, emit_all, vprintf_loop, string, Arg,
}
use ninjastorms.Stdio.Format.{
  IsPlain, vprintf_loop-string, vprintf_loop-text, vprintf-text, emit_all-sent, put_all-append,
}
use ninjastorms.Clock.{clock_formatted_msms}
use ninjastorms.Logger.{log_severities, log_colors, log_format, general_log, and_then, end_line}

-- Texts behind each other.
abbrev pub concat : List (List ℕ) → List ℕ
concat [] = []
concat (x ∷ xs) = x ++ concat xs

-- The severity in brackets takes 8 characters.
abbrev pub gap : List ℕ → List ℕ
gap name = b']' ∷ replicate (6 - length name) b' '

-- The end of the colour, and the brackets around the file.
abbrev pub middle : List ℕ
middle = b']' ∷ 0x1b ∷ b'[' ∷ b'0' ∷ b'm' ∷ b' ' ∷ b'[' ∷ []

-- What stands in front of the message.
abbrev pub heading : List ℕ → List ℕ → List ℕ → List ℕ → List (List ℕ)
heading color name time file =
    color
    ∷ (b'[' ∷ [])
    ∷ name
    ∷ (gap name ++ b'[' ∷ [])
    ∷ time
    ∷ middle
    ∷ file
    ∷ (b']' ∷ b':' ∷ b' ' ∷ [])
    ∷ []

emit_parts : List (List ℕ) → Output → Output
emit_parts [] out = out
emit_parts (x ∷ xs) out = emit_parts xs (emit_all x out)

emit_parts-sent :
    (xs : List (List ℕ)) (out : Output) → (emit_parts xs out).sent ≡ put_all (concat xs) out.sent
unfolding emit_parts
emit_parts-sent [] out = refl
emit_parts-sent (x ∷ xs) out =
    emit_parts-sent xs (emit_all x out)
    ∙ ap (put_all (concat xs)) (emit_all-sent x out)
    ∙ sym (put_all-append x (concat xs) out.sent)

-- The format from the time on.
abbrev rest_format : List ℕ
rest_format = b'%' ∷ b's' ∷ middle ++ (b'%' ∷ b's' ∷ b']' ∷ b':' ∷ b' ' ∷ [])

abbrev arguments : List ℕ → List ℕ → List ℕ → List ℕ → List Arg
arguments color name time file =
    string (some color) ∷ string (some name) ∷ string (some time) ∷ string (some file) ∷ []

-- A format whose name is followed by `between`.
heading-vprintf_loop :
    (between color name time file : List ℕ) (out : Output)
    → IsPlain between
    → vprintf_loop
        (b'%' ∷ b's' ∷ b'[' ∷ b'%' ∷ b's' ∷ (between ++ rest_format))
        (arguments color name time file)
        out
      ≡ some (
          emit_parts
            (color
              ∷ (b'[' ∷ [])
              ∷ name
              ∷ between
              ∷ time
              ∷ middle
              ∷ file
              ∷ (b']' ∷ b':' ∷ b' ' ∷ [])
              ∷ [])
            out)
unfolding emit_parts vprintf_loop
heading-vprintf_loop between color name time file out p =
    let o₁ = emit_all color out in
    let o₂ = emit_all (b'[' ∷ []) o₁ in
    let o₃ = emit_all name o₂ in
    let o₄ = emit_all between o₃ in
    let o₅ = emit_all time o₄ in
    let o₆ = emit_all middle o₅ in
    let o₇ = emit_all file o₆ in
    let last : List ℕ = b']' ∷ b':' ∷ b' ' ∷ [] in
    let after_middle : List ℕ = b'%' ∷ b's' ∷ last in
    let files : List Arg = string (some file) ∷ [] in
    let times : List Arg = string (some time) ∷ files in
    let names : List Arg = string (some name) ∷ times in
    vprintf_loop-string color (b'[' ∷ b'%' ∷ b's' ∷ (between ++ rest_format)) names out
    ∙ vprintf_loop-text (b'[' ∷ []) (b'%' ∷ b's' ∷ (between ++ rest_format)) names o₁ refl
    ∙ vprintf_loop-string name (between ++ rest_format) times o₂
    ∙ vprintf_loop-text between rest_format times o₃ p
    ∙ vprintf_loop-string time (middle ++ after_middle) files o₄
    ∙ vprintf_loop-text middle after_middle files o₅ refl
    ∙ vprintf_loop-string file last [] o₆
    ∙ vprintf_loop-text last [] [] o₇ refl

-- One line: a heading and a message.
line_lem :
    (format between color name time file text sent : List ℕ)
    → format ≡ b'%' ∷ b's' ∷ b'[' ∷ b'%' ∷ b's' ∷ (between ++ rest_format)
    → between ≡ gap name ++ b'[' ∷ []
    → IsPlain between
    → IsPlain text
    → (out : Output) × (and_then
          (printf format (arguments color name time file) sent)
          (λ sent'. end_line (vprintf text [] sent'))
        ≡ some out)
      × (out.sent
          ≡ put_all
              (b'\n' ∷ [])
              (put_all text (put_all (concat (heading color name time file)) sent)))
unfolding printf vprintf emit_parts
line_lem format between color name time file text sent f g p q =
    let start : Output = record { sent = sent; chars_written = 0 } in
    let head = emit_parts (heading color name time file) start in
    let body : Output = record { sent = head.sent; chars_written = 0 } in
    let message : vprintf text [] head.sent ≡ some (emit_all text body) =
      vprintf-text text head.sent q in
    let first : printf format (arguments color name time file) sent ≡ some head =
      ap (λ x. printf x (arguments color name time file) sent) f
      ∙ heading-vprintf_loop between color name time file start p
      ∙ ap
          (λ b. some (
            emit_parts
              (color
                ∷ (b'[' ∷ [])
                ∷ name
                ∷ b
                ∷ time
                ∷ middle
                ∷ file
                ∷ (b']' ∷ b':' ∷ b' ' ∷ [])
                ∷ [])
              start))
          g in
    (
      record {
        sent = putchar b'\n' (emit_all text body).sent;
        chars_written = (emit_all text body).chars_written;
      },
      ap (λ x. and_then x (λ sent'. end_line (vprintf text [] sent'))) first ∙ ap end_line message,
      ap (putchar b'\n') (
          emit_all-sent text body
          ∙ ap (put_all text) (emit_parts-sent (heading color name time file) start)),
    )

-- The name and the colour of a severity.
abbrev pub name_of : ℕ → List ℕ
name_of severity = get_or log_severities severity []

abbrev pub color_of : ℕ → List ℕ
color_of severity = get_or log_colors severity []

-- For each of the five severities, `general_log` with a message without conversions is defined and sends one line:
-- the heading, which is the colour of the severity, its name in a field of 8 characters, whatever its length, the
-- time, the end of the colour and the file, then the message and the end of the line.
pub general_log_lem :
    (clock severity : ℕ) (file text sent : List ℕ)
    → severity < 5
    → IsPlain text
    → (out : Output) × (general_log clock severity file text [] sent ≡ some out)
      × (out.sent
          ≡ put_all (b'\n' ∷ []) (
              put_all text (
                put_all
                  (concat (
                    heading
                      (color_of severity)
                      (name_of severity)
                      (clock_formatted_msms clock)
                      file))
                  sent)))
unfolding general_log
general_log_lem clock zero file text sent l p =
    line_lem (log_format 0) (gap (name_of 0) ++ b'[' ∷ []) (color_of 0) (name_of 0)
      (clock_formatted_msms clock) file text sent refl refl refl p
general_log_lem clock (suc zero) file text sent l p =
    line_lem (log_format 1) (gap (name_of 1) ++ b'[' ∷ []) (color_of 1) (name_of 1)
      (clock_formatted_msms clock) file text sent refl refl refl p
general_log_lem clock (suc (suc zero)) file text sent l p =
    line_lem (log_format 2) (gap (name_of 2) ++ b'[' ∷ []) (color_of 2) (name_of 2)
      (clock_formatted_msms clock) file text sent refl refl refl p
general_log_lem clock (suc (suc (suc zero))) file text sent l p =
    line_lem (log_format 3) (gap (name_of 3) ++ b'[' ∷ []) (color_of 3) (name_of 3)
      (clock_formatted_msms clock) file text sent refl refl refl p
general_log_lem clock (suc (suc (suc (suc zero)))) file text sent l p =
    line_lem (log_format 4) (gap (name_of 4) ++ b'[' ∷ []) (color_of 4) (name_of 4)
      (clock_formatted_msms clock) file text sent refl refl refl p
general_log_lem clock (suc (suc (suc (suc (suc n))))) file text sent l p = absurd (omega arith)
