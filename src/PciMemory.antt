-- ===== src/PciMemory.antt =====
-- kernel/pci/pci_mmio.c: reads and writes on the PCI bus, which takes words at aligned addresses only.
-- Shifts are on 32 bits, or on 64 bits where the code shifts a 64-bit value.
pub mod Ram
pub mod Word
pub mod Halves
pub mod Aligned
pub mod Unaligned
pub mod Field
pub mod Wide
pub mod Parts
pub mod Double
pub mod Write
mod Tests
use ninjastorms.Prelude.{
  ℕ, ◌+◌, ◌-◌, ◌*◌, ◌/◌, ◌%◌, ◌^◌, Bool, not, if◌then◌else◌, ◌==◌, bit_and, bit_or,
}
use ninjastorms.Device.{Io, pure, ◌>>=◌, ◌>>◌, read32, read64, write32, complement}

pub pci_read32 : ℕ → Io ℕ
pci_read32 address = read32 address

pub pci_read8 : ℕ → Io ℕ
unfolding pci_read32
pci_read8 address = do value ← pci_read32 address; pure (value % 2 ^ 8)

pub pci_read16 : ℕ → Io ℕ
unfolding pci_read32
pci_read16 address = do value ← pci_read32 address; pure (value % 2 ^ 16)

pub pci_read64 : ℕ → Io ℕ
pci_read64 address = read64 address

pub write_word : ℕ → ℕ → Io Unit
write_word address value = write32 address value

-- `x << n` and `(x << n) >> n` and `(x >> n) << n` on 32 bits.
abbrev pub shift_left : ℕ → ℕ → ℕ
shift_left x n = x * 2 ^ n % 2 ^ 32

abbrev pub shift_right : ℕ → ℕ → ℕ
shift_right x n = x / 2 ^ n

pub pci_write8 : ℕ → ℕ → Io Unit
unfolding pci_read32 write_word
pci_write8 address value = do
  let offset = address % 4
  word_read ← pci_read32 (address - offset)
  let word_write = shift_left value (offset * 8)
  let mask = complement (shift_left 0xFF (offset * 8))
  write_word (address - offset) (bit_or (bit_and word_read mask) word_write)

-- The value lies in one word, or its bytes in two.
pub pci_write16 : ℕ → ℕ → Io Unit
unfolding pci_read32 write_word
pci_write16 address value =
    let offset = address % 4 in
    if not (offset == 3)
    then (do
      word_read ← pci_read32 (address - offset)
      let word_write = shift_left value (offset * 8)
      let mask = complement (shift_left 0xFFFF (offset * 8))
      write_word (address - offset) (bit_or (bit_and word_read mask) word_write))
    else (do
      lower_word_read ← pci_read32 (address - 3)
      let lower_word_write = shift_left value 24
      write_word (address - 3)
          (bit_or (shift_right (shift_left lower_word_read 8) 8) lower_word_write)
      upper_word_read ← pci_read32 ((address + 1) % 2 ^ 32)
      let upper_word_write = shift_right value 8
      write_word ((address + 1) % 2 ^ 32)
          (bit_or (shift_left (shift_right upper_word_read 8) 8) upper_word_write))

pub pci_write32 : ℕ → ℕ → Io Unit
unfolding pci_read32 write_word
pci_write32 address value =
    let lower_offset = address % 4 in
    if not (lower_offset == 0)
    then (do
      let upper_offset = 4 - lower_offset
      lower_word_read ← pci_read32 (address - lower_offset)
      let lower_word_write = shift_left value (lower_offset * 8)
      write_word (address - lower_offset) (
          bit_or (shift_right (shift_left lower_word_read (upper_offset * 8)) (upper_offset * 8))
            lower_word_write)
      upper_word_read ← pci_read32 ((address + upper_offset) % 2 ^ 32)
      let upper_word_write = shift_right value (upper_offset * 8)
      write_word ((address + upper_offset) % 2 ^ 32) (
          bit_or (shift_left (shift_right upper_word_read (lower_offset * 8)) (lower_offset * 8))
            upper_word_write))
    else write_word address value

pub pci_write64 : ℕ → ℕ → Io Unit
unfolding pci_read32 write_word
pci_write64 address value =
    let lower_offset = address % 4 in
    if not (lower_offset == 0)
    then (do
      let upper_offset = 4 - lower_offset
      lower_word_read ← pci_read32 (address - lower_offset)
      let lower_word_write = value * 2 ^ (lower_offset * 8) % 2 ^ 64 % 2 ^ 32
      write_word (address - lower_offset) (
          bit_or (shift_right (shift_left lower_word_read (upper_offset * 8)) (upper_offset * 8))
            lower_word_write)
      let middle_word_write = shift_right value (upper_offset * 8) % 2 ^ 32
      write_word ((address + upper_offset) % 2 ^ 32) middle_word_write
      upper_word_read ← pci_read32 ((address + 4 + upper_offset) % 2 ^ 32)
      let upper_word_write = shift_right value ((upper_offset + 4) * 8) % 2 ^ 32
      write_word ((address + 4 + upper_offset) % 2 ^ 32) (
          bit_or (shift_left (shift_right upper_word_read (lower_offset * 8)) (lower_offset * 8))
            upper_word_write))
    else (do
      write_word address (value % 2 ^ 32)
      write_word ((address + 4) % 2 ^ 32) (shift_right value 32 % 2 ^ 32))
