-- ===== src/Clock/Tests.antt =====
-- The clock after an hour, and the text of 61 seconds.
use ninjastorms.Prelude.{◌≡◌, some}
use ninjastorms.Clock.{clock_time_to_str}
use ninjastorms.Clock.Format.{read_time, read_time-clock_time_to_str}

read_time-clock_time_to_str_example : read_time (clock_time_to_str 61000) ≡ some (1, 61, 0)
read_time-clock_time_to_str_example = read_time-clock_time_to_str 61000
