-- ===== src/Drivers/Timer.antt =====
-- kernel/drivers/timer.c: the scheduler's timer, with its registers from kernel/memory.h. On the board
-- VersatilePB the control register is accessed as a byte.
use ninjastorms.Prelude.{ℕ, ◌+◌, ◌*◌, ◌^◌, ◌%◌, bit_and, bit_or}
use ninjastorms.Scheduler.{Board, versatilepb, ev3}
use ninjastorms.Device.{Io, ◌>>=◌, ◌>>◌, read8, write8, write32, set_bits, clear_bits, complement}

abbrev pub timer1_base : ℕ
timer1_base = 0x101E2000

abbrev pub timer1_load : ℕ
timer1_load = timer1_base + 0x0

abbrev pub timer1_ctrl : ℕ
timer1_ctrl = timer1_base + 0x08

abbrev pub timer1_intclr : ℕ
timer1_intclr = timer1_base + 0x0C

abbrev pub timer0_base : ℕ
timer0_base = 0x01C20000

abbrev pub timer0_prd34 : ℕ
timer0_prd34 = timer0_base + 0x1C

abbrev pub timer0_tcr : ℕ
timer0_tcr = timer0_base + 0x20

abbrev pub timer0_tgcr : ℕ
timer0_tgcr = timer0_base + 0x24

abbrev pub timer0_intctlstat : ℕ
timer0_intctlstat = timer0_base + 0x44

abbrev pub enamode34 : ℕ
enamode34 = 3 * 2 ^ 22

abbrev pub enamode34_contin : ℕ
enamode34_contin = 2 * 2 ^ 22

abbrev pub psc34 : ℕ
psc34 = 15 * 2 ^ 8

abbrev pub psc34_value : ℕ
psc34_value = 15 * 2 ^ 8

abbrev pub timmode : ℕ
timmode = 3 * 2 ^ 2

abbrev pub timmode_unchained : ℕ
timmode_unchained = 1 * 2 ^ 2

abbrev pub tim34rs_remove : ℕ
tim34rs_remove = 2 ^ 1

abbrev pub prdintstat34 : ℕ
prdintstat34 = 2 ^ 17

abbrev pub prdinten34 : ℕ
prdinten34 = 2 ^ 16

-- `*r |= bits` and `*r &= ~bits` on a register of one byte
abbrev pub set_byte_bits : ℕ → ℕ → Io Unit
set_byte_bits address bits = do value ← read8 address; write8 address (bit_or value bits % 2 ^ 8)

abbrev pub clear_byte_bits : ℕ → ℕ → Io Unit
clear_byte_bits address bits = do
  value ← read8 address
  write8 address (bit_and value (complement bits) % 2 ^ 8)

unfoldable pub timer_start : Board → ℕ → Io Unit
timer_start versatilepb period = do
  clear_byte_bits timer1_ctrl (2 ^ 7)
  set_byte_bits timer1_ctrl (2 ^ 6)
  write8 timer1_intclr 0x1
  set_byte_bits timer1_ctrl (2 ^ 5)
  set_byte_bits timer1_ctrl (2 ^ 1)
  clear_byte_bits timer1_ctrl (2 ^ 0)
  write32 timer1_load period
  set_byte_bits timer1_ctrl (2 ^ 7)
timer_start ev3 period = do
  clear_bits timer0_tcr (complement enamode34)
  clear_bits timer0_tgcr (complement tim34rs_remove)
  clear_bits timer0_tgcr (complement timmode)
  set_bits timer0_tgcr timmode_unchained
  set_bits timer0_tgcr tim34rs_remove
  write32 timer0_prd34 period
  clear_bits timer0_tgcr (complement psc34)
  set_bits timer0_tgcr psc34_value
  set_bits timer0_intctlstat prdintstat34
  set_bits timer0_intctlstat prdinten34
  set_bits timer0_tcr enamode34_contin

unfoldable pub timer_stop : Board → Io Unit
timer_stop versatilepb = do clear_byte_bits timer1_ctrl (2 ^ 7); write8 timer1_intclr 0x1
timer_stop ev3 = do
  clear_bits timer0_tcr (complement enamode34)
  set_bits timer0_intctlstat prdintstat34
