-- ===== src/Interrupt/Handle.antt =====
-- kernel/interrupt.c and kernel/interrupt_handler.S: the handler of interrupt requests on the board VersatilePB, as a
-- program on the parts of the kernel that it changes. The loop over received packets gets a number of rounds, and the path of network_task.c for its log; `none` says
-- that this was not enough, that a packet does not fit its slot, or that no task is there to save or to load.
pub mod Causes
pub mod Whole
mod Tests
use ninjastorms.Prelude.{
  ℕ, ◌+◌, ◌^◌, Bool, not, List, Option, none, some, if◌then◌else◌, ◌==◌, bit_and,
}
use ninjastorms.Device.{Io, pure, ◌>>=◌, ◌>>◌, ◌>>?◌, after_some, read32, write8, write32}
use ninjastorms.Scheduler.{Task, Scheduler, schedule}
use ninjastorms.Clock.{Clock, irq_handler_clock as count_up}
use ninjastorms.Clock.Registers.{timer3_intclr}
use ninjastorms.Network.E1000.Receive.{Receiving, e1000_irq_handler}
use ninjastorms.Interrupt.{timer1_intbit, timer3_intbit}
use ninjastorms.Interrupt.Context.{pushed, save_current_task_state, load_current_task_state}

-- The static variables of scheduler.c and time.c, and those of e1000.c with the receive queue, whose pointer `e1000`
-- is not null.
pub record Kernel : Type 0 where
  pub scheduler : Scheduler
  pub clock : Clock
  pub receiving : Receiving

abbrev pub pic_irq_status : ℕ
pic_irq_status = 0x10140000 + 0x00

abbrev pub pci3_intbit : ℕ
pci3_intbit = 2 ^ 30

-- `TIMER1_INTCLR_ASM`, which is written as a word.
abbrev pub timer1_intclr_asm : ℕ
timer1_intclr_asm = 0x101E200C

-- `status & bit` as a condition
abbrev pub is_set : ℕ → ℕ → Bool
is_set status bit = not (bit_and status bit == 0)

pub irq_handler_timer : Kernel → Io Kernel
irq_handler_timer k = do
  write32 timer1_intclr_asm 0x1
  pure (record k { scheduler = schedule k.scheduler })

pub handle_clock : Kernel → Io Kernel
handle_clock k = do write8 timer3_intclr 1; pure (record k { clock = count_up k.clock })

abbrev pub when : Bool → (Kernel → Io Kernel) → Kernel → Io Kernel
when b m k = if b then m k else pure k

abbrev pub receive : List ℕ → ℕ → Bool → Kernel → Io (Option Receiving)
receive file rounds b k =
    if b then e1000_irq_handler k.clock file rounds k.receiving else pure (some k.receiving)

-- The tests for the two timers.
pub handle_timers : ℕ → Kernel → Io Kernel
unfolding irq_handler_timer handle_clock
handle_timers status k = do
  k' ← when (is_set status timer1_intbit) irq_handler_timer k
  when (is_set status timer3_intbit) handle_clock k'

pub handle_interrupt : List ℕ → ℕ → Kernel → Io (Option Kernel)
unfolding handle_timers
handle_interrupt file rounds k = read32 pic_irq_status >>= λ status.
    (receive file rounds (is_set status pci3_intbit) k >>? λ r.
    (handle_timers status (record k { receiving = r }) >>= λ k'. pure (some k')))

abbrev pub load : Kernel → Option Task → Option (Task × Kernel)
load k none = none
load k (some cpu) = some (cpu, k)

abbrev pub handle_saved : List ℕ → ℕ → Kernel → Option Scheduler → Io (Option (Task × Kernel))
handle_saved file rounds k none = pure none
handle_saved file rounds k (some s) =
    handle_interrupt file rounds (record k { scheduler = s }) >>? λ k'.
    pure (load k' (load_current_task_state k'.scheduler))

-- `irq_handler`: the registers of the processor are saved, and the result has those of the task that goes on.
pub irq_handler : List ℕ → ℕ → Task → Kernel → Io (Option (Task × Kernel))
unfolding handle_interrupt
irq_handler file rounds cpu k =
    handle_saved file rounds k (save_current_task_state (pushed cpu) cpu k.scheduler)
