-- ===== src/Stdio/Tests.antt =====
-- A negative number in a format.
use ninjastorms.Prelude.{ℕ, ◌-◌, ◌^◌, ◌≡◌, [], ◌∷◌, List, arith}
use ninjastorms.Stdio.{int, vprintf_loop}
use ninjastorms.Stdio.Number.{signed, append_text, read_number}
use ninjastorms.Stdio.Conversion.{signed_int, vprintf_loop-Conversion}

vprintf_loop-Conversion_example :
    (text : List ℕ) × vprintf_loop
        (b'%' ∷ b'i' ∷ b'!' ∷ [])
        (int (2 ^ 32 - 42) ∷ [])
        (record { sent = b'x' ∷ []; chars_written = 1 })
      ≡ vprintf_loop
          (b'!' ∷ [])
          []
          (append_text text (record { sent = b'x' ∷ []; chars_written = 1 }))
    × read_number 10 text ≡ signed 32 (2 ^ 32 - 42)
vprintf_loop-Conversion_example =
    vprintf_loop-Conversion b'i' (int (2 ^ 32 - 42)) 10 (signed 32 (2 ^ 32 - 42)) (b'!' ∷ []) []
      (record { sent = b'x' ∷ []; chars_written = 1 })
      (signed_int (2 ^ 32 - 42) (omega arith) (omega arith)) (omega arith)
