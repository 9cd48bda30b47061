-- ===== src/Clock.antt =====
-- kernel/time.c: the clock, which a timer interrupt counts up every millisecond. `clock_t` has 64
-- bits. The registers of its timer stand in Clock.Registers.
pub mod Units
pub mod Format
pub mod Registers
mod Tests
use ninjastorms.Prelude.{ℕ, zero, suc, ◌+◌, ◌*◌, ◌/◌, ◌%◌, ◌^◌, List, [], ◌∷◌, set}

abbrev pub Clock : Type 0
Clock = ℕ

-- `clock++` of `irq_handler_clock`
pub irq_handler_clock : Clock → Clock
irq_handler_clock clock = (clock + 1) % 2 ^ 64

pub clock_millis : Clock → ℕ
clock_millis clock = clock

pub clock_seconds : Clock → ℕ
clock_seconds clock = clock / 1000

pub clock_minutes : Clock → ℕ
clock_minutes clock = clock / (1000 * 60)

pub clock_hours : Clock → ℕ
clock_hours clock = clock / (1000 * 60 * 60)

-- `INTTOCHAR`
abbrev pub int_to_char : ℕ → ℕ
int_to_char val = val + b'0'

-- "mm:ss:lll"
abbrev pub format : List ℕ
format = b'm' ∷ b'm' ∷ b':' ∷ b's' ∷ b's' ∷ b':' ∷ b'l' ∷ b'l' ∷ b'l' ∷ []

pub clock_time_to_str : ℕ → List ℕ
clock_time_to_str time =
    let mils = time in
    let secs = mils / 1000 in
    let mins = mils / 60000 in
    let f₀ = set format 0 (int_to_char (mins / 10 % 10)) in
    let f₁ = set f₀ 1 (int_to_char (mins % 10)) in
    let f₃ = set f₁ 3 (int_to_char (secs / 10 % 10)) in
    let f₄ = set f₃ 4 (int_to_char (secs % 10)) in
    let f₆ = set f₄ 6 (int_to_char (mils / 100 % 10)) in
    let f₇ = set f₆ 7 (int_to_char (mils / 10 % 10)) in set f₇ 8 (int_to_char (mils % 10))

pub clock_formatted_msms : Clock → List ℕ
unfolding clock_millis
clock_formatted_msms clock = clock_time_to_str (clock_millis clock)
