-- ===== src/Clock/Format.antt =====
-- `clock_time_to_str` of kernel/time.c, against a reader of its text.
use ninjastorms.Prelude.{
  ℕ, ◌+◌, ◌-◌, ◌*◌, ◌/◌, ◌%◌, ◌≡◌, List, [], ◌∷◌, arith, Option, some, none, if◌then◌else◌, ◌==◌,
  ◌&&◌,
}
use ninjastorms.Clock.{clock_time_to_str}

abbrev pub digit_value : ℕ → ℕ
digit_value c = c - b'0'

-- The three numbers of a text of the form "00:00:000".
pub read_time : List ℕ → Option (ℕ × ℕ × ℕ)
read_time (m ∷ m' ∷ c ∷ s ∷ s' ∷ c' ∷ l ∷ l' ∷ l'' ∷ []) =
    if (c == b':') && (c' == b':')
    then some (
      digit_value m * 10 + digit_value m',
      digit_value s * 10 + digit_value s',
      digit_value l * 100 + digit_value l' * 10 + digit_value l'',
    )
    else none
read_time _ = none

abbrev three : ℕ → ℕ → ℕ → Option (ℕ × ℕ × ℕ)
three a b c = some (a, b, c)

same_time : (a b c a' b' c' : ℕ) → a ≡ a' → b ≡ b' → c ≡ c' → three a b c ≡ three a' b' c'
same_time a b c a' b' c' p q r = λ i. three (p i) (q i) (r i)

-- The text of a time reads back as its minutes, modulo 100, all its seconds, modulo 100 and not 60,
-- and its milliseconds below 1000.
pub read_time-clock_time_to_str :
    (time : ℕ)
    → read_time (clock_time_to_str time) ≡ some (time / 60000 % 100, time / 1000 % 100, time % 1000)
unfolding read_time clock_time_to_str
read_time-clock_time_to_str time = same_time _ _ _ _ _ _ (omega arith) (omega arith) (omega arith)
