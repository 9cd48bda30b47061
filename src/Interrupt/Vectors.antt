-- ===== src/Interrupt/Vectors.antt =====
-- The vector table of kernel/interrupt.c.
use mathlib.Core.Option
use ninjastorms.Prelude.{ℕ, ◌+◌, ◌/◌, ◌%◌, ◌^◌, ◌≡◌, refl, Option, none, some, if◌then◌else◌, ◌==◌}
use ninjastorms.Device.{History, Hardware, last_put}
use ninjastorms.Scheduler.{Board, versatilepb, ev3}
use ninjastorms.Interrupt.{
  init_interrupt_handling, setup_ivt, init_interrupt_controller, init_timer_interrupt,
  init_pci_interrupt,
}

-- The exceptions of the processor other than reset, and where in the table it goes on.
pub data Exception : Type 0 where
  undefined_instruction : Exception
  software_interrupt : Exception
  prefetch_abort : Exception
  data_abort : Exception
  interrupt_request : Exception
  fast_interrupt : Exception

abbrev pub vector : Exception → ℕ
vector undefined_instruction = 0x04
vector software_interrupt = 0x08
vector prefetch_abort = 0x0c
vector data_abort = 0x10
vector interrupt_request = 0x18
vector fast_interrupt = 0x1c

-- Where the processor of a board has its table: at the end of the address space on the EV3, at its start on the
-- VersatilePB.
abbrev pub vector_base : Board → ℕ
vector_base ev3 = 0xFFFF0000
vector_base versatilepb = 0

-- Where the instruction `word` at an address loads the program counter from, when it is `ldr pc, [pc, #offset]`. The
-- upper twenty bits of that instruction are: always executed, a word loaded, the offset added before the load, no
-- write back, and the program counter as the base and as the destination. The lower twelve are the offset, and the
-- counter reads eight bytes ahead.
abbrev pub loaded_from : ℕ → ℕ → Option ℕ
loaded_from address word =
    if word / 2 ^ 12 == 0xe59ff then some (address + 8 + word % 2 ^ 12) else none

-- The handler that an exception leads to; none when the instruction in the table is no such load.
abbrev pub handler : Board → Exception → History → Option ℕ
handler board e h =
    let address = vector_base board + vector e in
    Option.map (λ a. last_put a h) (loaded_from address (last_put address h))

abbrev pub expected : ℕ → ℕ → Exception → ℕ
expected syscall_handler irq_handler software_interrupt = syscall_handler
expected syscall_handler irq_handler interrupt_request = irq_handler
expected syscall_handler irq_handler _ = 0

-- Behind `setup_ivt`, on both boards, the vector of each exception other than reset holds an instruction that loads
-- the program counter: a software interrupt leads to the handler of system calls, an interrupt
-- request to the interrupt handler, and each other exception to address 0. On the board VersatilePB it is so
-- behind all of `init_interrupt_handling`.
pub init_interrupt_handling-vectors :
    (board : Board) (syscall_handler irq_handler : ℕ) (hw : Hardware) (h : History) (e : Exception)
    → handler board e (setup_ivt board syscall_handler irq_handler hw h).1
        ≡ some (expected syscall_handler irq_handler e)
      × handler versatilepb e (init_interrupt_handling syscall_handler irq_handler hw h).1
        ≡ some (expected syscall_handler irq_handler e)
unfolding init_interrupt_handling setup_ivt init_interrupt_controller init_timer_interrupt
    init_pci_interrupt
init_interrupt_handling-vectors versatilepb s i hw h undefined_instruction = (refl, refl)
init_interrupt_handling-vectors versatilepb s i hw h software_interrupt = (refl, refl)
init_interrupt_handling-vectors versatilepb s i hw h prefetch_abort = (refl, refl)
init_interrupt_handling-vectors versatilepb s i hw h data_abort = (refl, refl)
init_interrupt_handling-vectors versatilepb s i hw h interrupt_request = (refl, refl)
init_interrupt_handling-vectors versatilepb s i hw h fast_interrupt = (refl, refl)
init_interrupt_handling-vectors ev3 s i hw h undefined_instruction = (refl, refl)
init_interrupt_handling-vectors ev3 s i hw h software_interrupt = (refl, refl)
init_interrupt_handling-vectors ev3 s i hw h prefetch_abort = (refl, refl)
init_interrupt_handling-vectors ev3 s i hw h data_abort = (refl, refl)
init_interrupt_handling-vectors ev3 s i hw h interrupt_request = (refl, refl)
init_interrupt_handling-vectors ev3 s i hw h fast_interrupt = (refl, refl)
