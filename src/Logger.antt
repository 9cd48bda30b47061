-- ===== src/Logger.antt =====
-- kernel/logger/logger.c: one line for each message, with its severity, the time and the source file. `LOG_DEBUG` to
-- `LOG_FATAL` of kernel/logger/logger.h are the severities 0 to 4; the file is what the compiler was given.
pub mod Line
mod Tests
use ninjastorms.Prelude.{
  ℕ, ◌+◌, ◌%◌, ◌^◌, Bool, Option, none, some, List, [], ◌∷◌, if◌then◌else◌, ◌==◌, ◌||◌, get_or,
  get_elem?,
}
use ninjastorms.Stdio.{Output, Arg, string, printf, vprintf, putchar}
use ninjastorms.Clock.{Clock, clock_formatted_msms}
use ninjastorms.Device.{Io, printed}

abbrev pub log_severities : List (List ℕ)
log_severities =
    (b'D' ∷ b'E' ∷ b'B' ∷ b'U' ∷ b'G' ∷ [])
    ∷ (b'I' ∷ b'N' ∷ b'F' ∷ b'O' ∷ [])
    ∷ (b'W' ∷ b'A' ∷ b'R' ∷ b'N' ∷ [])
    ∷ (b'E' ∷ b'R' ∷ b'R' ∷ b'O' ∷ b'R' ∷ [])
    ∷ (b'F' ∷ b'A' ∷ b'T' ∷ b'A' ∷ b'L' ∷ [])
    ∷ []

-- The escape sequence for a colour of two digits.
abbrev colour : ℕ → ℕ → List ℕ
colour a b = 0x1b ∷ b'[' ∷ a ∷ b ∷ b'm' ∷ []

abbrev pub log_colors : List (List ℕ)
log_colors =
    colour b'3' b'7'
    ∷ colour b'3' b'4'
    ∷ colour b'3' b'3'
    ∷ colour b'9' b'1'
    ∷ colour b'3' b'1'
    ∷ []

-- "%s[%s] [%s]\x1b[0m [%s]: ", with a further space for the shorter severities.
abbrev pub log_format : ℕ → List ℕ
log_format severity =
    if (severity == 1) || (severity == 2)
    then b'%' ∷ b's' ∷ b'[' ∷ b'%' ∷ b's' ∷ b']' ∷ b' ' ∷ b' ' ∷ b'[' ∷ b'%' ∷ b's' ∷ b']' ∷ 0x1b
      ∷ b'[' ∷ b'0' ∷ b'm' ∷ b' ' ∷ b'[' ∷ b'%' ∷ b's' ∷ b']' ∷ b':' ∷ b' ' ∷ []
    else b'%' ∷ b's' ∷ b'[' ∷ b'%' ∷ b's' ∷ b']' ∷ b' ' ∷ b'[' ∷ b'%' ∷ b's' ∷ b']' ∷ 0x1b ∷ b'['
      ∷ b'0' ∷ b'm' ∷ b' ' ∷ b'[' ∷ b'%' ∷ b's' ∷ b']' ∷ b':' ∷ b' ' ∷ []

abbrev pub and_then : Option Output → (List ℕ → Option Output) → Option Output
and_then none k = none
and_then (some out) k = k out.sent

abbrev pub end_line : Option Output → Option Output
end_line none = none
end_line (some out) = some (record out { sent = putchar b'\n' out.sent })

-- `general_log` on what the port was sent so far. `none` stands for undefined behaviour: a severity above 4, or what
-- `vprintf` says of the arguments.
pub general_log : Clock → ℕ → List ℕ → List ℕ → List Arg → List ℕ → Option Output
general_log clock severity file format args sent = elim (get_elem? log_colors severity) [
  | none ↦ none
  | some color ↦
      and_then
        (printf (log_format severity)
          (string (some color)
            ∷ string (get_elem? log_severities severity)
            ∷ string (some (clock_formatted_msms clock))
            ∷ string (some file)
            ∷ [])
          sent)
        (λ sent'. end_line (vprintf format args sent'))
]

-- A line of the log as a program that accesses devices.
abbrev pub log : Clock → ℕ → List ℕ → List ℕ → Io Unit
log clock severity file text hw h = (tt, printed (general_log clock severity file text [] []) ∷ h)
