-- ===== src/Interrupt.antt =====
-- kernel/interrupt.c: the vector table and the set-up of the interrupt controllers, with their registers from
-- kernel/memory.h. The addresses of the two handlers are arguments; what is set by inline assembly (stacks and
-- processor modes) is not modelled.
pub mod Vectors
pub mod Context
pub mod Handle
mod Tests
use ninjastorms.Prelude.{ℕ, ◌+◌, ◌*◌, ◌^◌, List, [], ◌∷◌}
use ninjastorms.Device.{Io, pure, ◌>>=◌, ◌>>◌, write32, set_bits}
use ninjastorms.Scheduler.{Board, versatilepb, ev3}

abbrev pub ivt_offset : Board → ℕ
ivt_offset ev3 = 0xFFFF0000
ivt_offset versatilepb = 0x0

-- ldr pc, [pc, #20]
abbrev pub load_pc : ℕ
load_pc = 0xe59ff014

unfoldable pub setup_ivt : Board → ℕ → ℕ → Io Unit
setup_ivt board syscall_handler irq_handler = do
  write32 (ivt_offset board + 0x00) 0
  write32 (ivt_offset board + 0x04) load_pc
  write32 (ivt_offset board + 0x08) load_pc
  write32 (ivt_offset board + 0x0c) load_pc
  write32 (ivt_offset board + 0x10) load_pc
  write32 (ivt_offset board + 0x14) load_pc
  write32 (ivt_offset board + 0x18) load_pc
  write32 (ivt_offset board + 0x1c) load_pc
  write32 (ivt_offset board + 0x20) 0
  write32 (ivt_offset board + 0x24) syscall_handler
  write32 (ivt_offset board + 0x28) 0
  write32 (ivt_offset board + 0x2c) 0
  write32 (ivt_offset board + 0x30) 0
  write32 (ivt_offset board + 0x34) irq_handler
  write32 (ivt_offset board + 0x38) 0

abbrev pub pic_int_enable : ℕ
pic_int_enable = 0x10140000 + 0x10

abbrev pub sic_enable : ℕ
sic_enable = 0x10003000 + 0x08

abbrev pub sic_pic_en_set : ℕ
sic_pic_en_set = 0x10003000 + 0x20

abbrev pub timer1_intbit : ℕ
timer1_intbit = 2 ^ 4

abbrev pub timer3_intbit : ℕ
timer3_intbit = 2 ^ 5

-- PCI0_INTBIT | PCI1_INTBIT | PCI2_INTBIT | PCI3_INTBIT
abbrev pub pci_intbits : ℕ
pci_intbits = 2 ^ 27 + 2 ^ 28 + 2 ^ 29 + 2 ^ 30

abbrev pub aintc_ger : ℕ
aintc_ger = 0xFFFEE000 + 0x0010

abbrev pub aintc_secr1 : ℕ
aintc_secr1 = 0xFFFEE000 + 0x0280

abbrev pub aintc_esr1 : ℕ
aintc_esr1 = 0xFFFEE000 + 0x0300

abbrev pub aintc_cmr5 : ℕ
aintc_cmr5 = 0xFFFEE000 + 0x0414

abbrev pub aintc_hier : ℕ
aintc_hier = 0xFFFEE000 + 0x1500

unfoldable pub init_timer_interrupt : Board → Io Unit
init_timer_interrupt versatilepb = do
  set_bits pic_int_enable timer1_intbit
  set_bits pic_int_enable timer3_intbit
init_timer_interrupt ev3 = do set_bits aintc_esr1 (2 ^ 22); set_bits aintc_cmr5 (2 * 2 ^ (2 * 8))

unfoldable pub init_pci_interrupt : Io Unit
init_pci_interrupt = do
  set_bits pic_int_enable pci_intbits
  set_bits sic_enable pci_intbits
  set_bits sic_pic_en_set pci_intbits

-- The part of `init_interrupt_controller` that stands in front of its two calls.
abbrev pub enable_controller : Board → Io Unit
enable_controller versatilepb = set_bits pic_int_enable 2
enable_controller ev3 = do
  write32 aintc_secr1 0xFFFFFFFF
  write32 aintc_ger 1
  set_bits aintc_hier (2 ^ 1)

-- On the board VersatilePB: kernel/memory.h gives the registers of `init_pci_interrupt` for no other.
unfoldable pub init_interrupt_controller : Io Unit
unfolding init_timer_interrupt init_pci_interrupt
init_interrupt_controller = do
  enable_controller versatilepb
  init_timer_interrupt versatilepb
  init_pci_interrupt

-- On the board VersatilePB, its parts that are no inline assembly.
unfoldable pub init_interrupt_handling : ℕ → ℕ → Io Unit
unfolding setup_ivt init_interrupt_controller
init_interrupt_handling syscall_handler irq_handler = do
  setup_ivt versatilepb syscall_handler irq_handler
  init_interrupt_controller
