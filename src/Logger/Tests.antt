-- ===== src/Logger/Tests.antt =====
-- A message of the severity INFO.
use ninjastorms.Prelude.{ℕ, ◌≡◌, refl, some, List, [], ◌∷◌, arith}
use ninjastorms.Stdio.{Output, put_all}
use ninjastorms.Clock.{clock_formatted_msms}
use ninjastorms.Logger.{general_log}
use ninjastorms.Logger.Line.{concat, heading, color_of, name_of, general_log_lem}

-- "pci.c" and "done"
abbrev file : List ℕ
file = b'p' ∷ b'c' ∷ b'i' ∷ b'.' ∷ b'c' ∷ []

abbrev message : List ℕ
message = b'd' ∷ b'o' ∷ b'n' ∷ b'e' ∷ []

general_log_lem_example :
    (out : Output) × (general_log 61001 1 file message [] [] ≡ some out)
    × (out.sent
        ≡ put_all (b'\n' ∷ []) (
            put_all message (
              put_all
                (concat (heading (color_of 1) (name_of 1) (clock_formatted_msms 61001) file))
                [])))
general_log_lem_example = general_log_lem 61001 1 file message [] (omega arith) refl
