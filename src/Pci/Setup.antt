-- ===== src/Pci/Setup.antt =====
-- kernel/pci/pci.c: the programs that set up the PCI core of the board and its devices, with their registers from
-- kernel/pci/pci.h. A log line has the clock and the path of the source file as arguments.
pub mod Core
pub mod Bar
pub mod Table
mod Tests
use ninjastorms.Prelude.{
  ℕ, zero, suc, ◌+◌, ◌-◌, ◌*◌, ◌/◌, ◌%◌, ◌^◌, Bool, true, false, List, [], ◌∷◌, if◌then◌else◌, ◌==◌,
  bit_and, bit_or,
}
use ninjastorms.Device.{Io, pure, ◌>>=◌, ◌>>◌, read16, read32, write16, write32, complement}
use ninjastorms.Logger.{log}
use ninjastorms.Pci.{Device, Devices, pci_vendor_id, pci_device_id, device_addr, enter_device}

abbrev pub pci_self_config : ℕ
pci_self_config = 0x41000000

-- `PCI_SELF_CONFIG + (i << PCI_DEVICE_BIT_OFFSET)`
abbrev pub self_addr : ℕ → ℕ
self_addr i = pci_self_config + i * 2 ^ 11

abbrev pub pci_command : ℕ
pci_command = 0x04

abbrev pub pci_class_revision : ℕ
pci_class_revision = 0x08

-- PCI_COMMAND_MASTER | PCI_COMMAND_IO | PCI_COMMAND_MEMORY
abbrev pub bus_mastering : ℕ
bus_mastering = 0x4 + 0x1 + 0x2

-- PCI_COMMAND_MEMORY | PCI_COMMAND_MASTER | PCI_COMMAND_INVALIDATE
abbrev pub core_command : ℕ
core_command = 0x2 + 0x4 + 0x10

abbrev pub pci_bar : ℕ → ℕ
pci_bar x = 0x10 + x * 4

abbrev pub pci_imap0 : ℕ
pci_imap0 = 0x10001000

abbrev pub pci_imap1 : ℕ
pci_imap1 = 0x10001004

abbrev pub pci_imap2 : ℕ
pci_imap2 = 0x10001008

abbrev pub pci_selfid : ℕ
pci_selfid = 0x1000100C

abbrev pub vp_pci_dev_id : ℕ
vp_pci_dev_id = 0x030010ee

abbrev pub vp_pci_class_id : ℕ
vp_pci_class_id = 0x0b400000

pub pci_enable_bus_mastering : ℕ → Io Unit
pci_enable_bus_mastering address = do
  val ← read16 (address + pci_command)
  write16 (address + pci_command) (bit_or val bus_mastering)

pub get_bar_type : ℕ → ℕ → Io ℕ
get_bar_type base number = do value ← read32 (base + pci_bar number); pure (bit_and value 1)

abbrev pub bit_mask : ℕ → ℕ
bit_mask before = if bit_and before 1 == 0 then 0xFFFFFFF0 else 0xFFFFFFFC

pub get_bar_size : ℕ → ℕ → Io ℕ
get_bar_size base number = do
  before ← read32 (base + pci_bar number)
  write32 (base + pci_bar number) 0xFFFFFFFF
  encoded_size ← read32 (base + pci_bar number)
  write32 (base + pci_bar number) before
  pure ((complement (bit_and encoded_size (bit_mask before)) + 1) % 2 ^ 32)

-- Where a region of a type is put.
abbrev pub address_of : ℕ → ℕ
address_of type = if type == 0 then 0x50000000 else 0x43000000

-- With the `config_base` of the device.
pub pci_alloc_memory : ℕ → ℕ → Io ℕ
unfolding get_bar_type
pci_alloc_memory config_base bar = do
  type ← get_bar_type config_base bar
  write32 (config_base + pci_bar bar) (address_of type)
  pure (address_of type)

-- Whether the loop of `configure_board` ends at a slot.
abbrev pub is_core : ℕ → Io Bool
is_core i = read32 (self_addr i + pci_vendor_id) >>= λ id.
    if id == vp_pci_dev_id
    then (read32 (self_addr i + pci_class_revision) >>= λ class. pure (class == vp_pci_class_id))
    else pure false

-- The loop with the rounds left and the slot; 0 says that none was found.
pub find_core : ℕ → ℕ → Io ℕ
find_core zero i = pure 0
find_core (suc n) i =
    let rest = find_core n (i + 1) in is_core i >>= λ found. if found then pure i else rest

-- "Cannot find PCI core!"
abbrev pub no_core : List ℕ
no_core =
    b'C' ∷ b'a' ∷ b'n' ∷ b'n' ∷ b'o' ∷ b't' ∷ b' ' ∷ b'f' ∷ b'i' ∷ b'n' ∷ b'd' ∷ b' ' ∷ b'P' ∷ b'C'
    ∷ b'I' ∷ b' ' ∷ b'c' ∷ b'o' ∷ b'r' ∷ b'e' ∷ b'!' ∷ []

-- Behind the loop.
abbrev pub enable_core : ℕ → Io ℕ
enable_core slot = do
  write32 pci_selfid slot
  val ← read32 (device_addr slot + pci_command)
  write32 (device_addr slot + pci_command) (bit_or val core_command)
  pure 0

-- The result -1 is 2^32 - 1.
pub configure_board : ℕ → List ℕ → Io ℕ
unfolding find_core
configure_board clock file = do
  write32 pci_imap0 (0x44000000 / 2 ^ 28)
  write32 pci_imap1 (0x50000000 / 2 ^ 28)
  write32 pci_imap2 (0x60000000 / 2 ^ 28)
  slot ← find_core 21 11
  if slot == 0 then log clock 3 file no_core >> pure (2 ^ 32 - 1) else enable_core slot

-- The loop of `enumerate_pci_devices` as a program, with the rounds left and the slot.
pub enumerate_slots : ℕ → ℕ → Devices → Io Devices
enumerate_slots zero i devices = pure devices
enumerate_slots (suc n) i devices = do
  vendor ← read16 (device_addr i + pci_vendor_id)
  device ← read16 (device_addr i + pci_device_id)
  enumerate_slots n (i + 1) (enter_device i vendor device devices)

pub pci_init : ℕ → List ℕ → Devices → Io Devices
unfolding configure_board enumerate_slots
pci_init clock file devices = do configure_board clock file; enumerate_slots 21 11 devices
