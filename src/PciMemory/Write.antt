-- ===== src/PciMemory/Write.antt =====
-- The writes of kernel/pci/pci_mmio.c as stores of bytes.
use ninjastorms.Prelude.{ℕ, ◌+◌, ◌*◌, ◌^◌, ◌<◌, ◌≤◌, ◌≡◌, arith}
use ninjastorms.Memory.{Memory}
use ninjastorms.Memory.Bytes.{store_bytes}
use ninjastorms.Device.{History, Io}
use ninjastorms.PciMemory.{pci_write8, pci_write16, pci_write32, pci_write64}
use ninjastorms.PciMemory.Ram.{le_bytes, replay, ram, AllBytes}
use ninjastorms.PciMemory.Unaligned.{write32-stores}
use ninjastorms.PciMemory.Field.{write8-stores}
use ninjastorms.PciMemory.Wide.{write16-stores}
use ninjastorms.PciMemory.Double.{write64-stores}

-- The four writes, by the width of their value.
pub data Width : Type 0 where
  one two four eight : Width

abbrev pub width_bytes : Width → ℕ
width_bytes one = 1
width_bytes two = 2
width_bytes four = 4
width_bytes eight = 8

abbrev pub pci_write : Width → ℕ → ℕ → Io Unit
pci_write one = pci_write8
pci_write two = pci_write16
pci_write four = pci_write32
pci_write eight = pci_write64

-- On a device that behaves as a memory, `pci_write8`, `pci_write16`, `pci_write32` and `pci_write64`
-- store the bytes of their value at the address, least significant first, and change no other byte,
-- wherever the address lies in its word; the address leaves room for three words below 2^32.
pub pci_write-store_bytes :
    (k : Width) (address value : ℕ) (m : Memory) (h : History) (b : ℕ)
    → AllBytes (replay h m)
    → address + 12 ≤ 2 ^ 32
    → value < 2 ^ (8 * width_bytes k)
    → replay (pci_write k address value (ram m) h).1 m b
      ≡ store_bytes address (le_bytes (width_bytes k) value) (replay h m) b
pci_write-store_bytes one a v m h b bytes room n = write8-stores a v m h b bytes n
pci_write-store_bytes two a v m h b bytes room n = write16-stores a v m h b bytes (omega arith) n
pci_write-store_bytes four a v m h b bytes room n = write32-stores a v m h b bytes (omega arith) n
pci_write-store_bytes eight a v m h b bytes room n = write64-stores a v m h b bytes room n
