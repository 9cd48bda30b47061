-- ===== src/Clock/Units.antt =====
-- The clock against the number of interrupts, and its units.
use ninjastorms.Prelude.{ℕ, zero, suc, ◌+◌, ◌*◌, ◌%◌, ◌^◌, ◌<◌, ◌≡◌, ◌∙◌, arith}
use ninjastorms.Clock.{
  Clock, irq_handler_clock, clock_millis, clock_seconds, clock_minutes, clock_hours,
}

pub interrupts : ℕ → Clock → Clock
interrupts zero clock = clock
interrupts (suc n) clock = interrupts n (irq_handler_clock clock)

interrupts_lem :
    (n : ℕ) (clock : Clock) → clock < 2 ^ 64 → interrupts n clock ≡ (clock + n) % 2 ^ 64
unfolding interrupts irq_handler_clock
interrupts_lem zero clock h = omega arith
interrupts_lem (suc n) clock h = interrupts_lem n ((clock + 1) % 2 ^ 64) (omega arith) ∙ omega arith

-- From the start, after less than 2^64 interrupts, the clock counts their milliseconds, and splits
-- them into hours, minutes below 60, seconds below 60 and milliseconds below 1000.
pub clock_units :
    (n : ℕ)
    → n < 2 ^ 64
    → let clock = interrupts n 0 in
      (clock_millis clock ≡ n)
      × (n
          ≡ clock_hours clock * 3600000
            + clock_minutes clock % 60 * 60000
            + clock_seconds clock % 60 * 1000
            + clock_millis clock % 1000)
unfolding clock_millis clock_seconds clock_minutes clock_hours
clock_units n h = omega (arith, interrupts_lem n 0 (omega arith))
