-- ===== src/Clock/Registers.antt =====
-- The timer of the clock in kernel/time.c on the board VersatilePB, with its registers from kernel/memory.h. The
-- control register is accessed as a byte.
use ninjastorms.Prelude.{ℕ, ◌+◌, ◌^◌}
use ninjastorms.Device.{Io, ◌>>◌, write8, write32}
use ninjastorms.Drivers.Timer.{set_byte_bits, clear_byte_bits}

abbrev pub timer3_base : ℕ
timer3_base = 0x101E3000

abbrev pub timer3_load : ℕ
timer3_load = timer3_base + 0x0

abbrev pub timer3_ctrl : ℕ
timer3_ctrl = timer3_base + 0x08

abbrev pub timer3_intclr : ℕ
timer3_intclr = timer3_base + 0x0C

unfoldable pub clock_start : ℕ → Io Unit
clock_start period = do
  clear_byte_bits timer3_ctrl (2 ^ 7)
  set_byte_bits timer3_ctrl (2 ^ 6)
  write8 timer3_intclr 0x1
  set_byte_bits timer3_ctrl (2 ^ 5)
  set_byte_bits timer3_ctrl (2 ^ 1)
  clear_byte_bits timer3_ctrl (2 ^ 0)
  write32 timer3_load period
  set_byte_bits timer3_ctrl (2 ^ 7)

unfoldable pub clock_stop : Io Unit
clock_stop = do clear_byte_bits timer3_ctrl (2 ^ 7); write8 timer3_intclr 0x1

abbrev pub timer_millis_interval : ℕ
timer_millis_interval = 1000

unfoldable pub time_init : Io Unit
unfolding clock_stop clock_start
time_init = do clock_stop; clock_start timer_millis_interval
