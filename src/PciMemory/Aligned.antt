-- ===== src/PciMemory/Aligned.antt =====
-- Accesses of kernel/pci/pci_mmio.c at aligned addresses, on any hardware.
use ninjastorms.Prelude.{ℕ, ◌%◌, ◌^◌, ◌≡◌, refl, ◌∷◌}
use ninjastorms.Device.{got, put, History, Hardware}
use ninjastorms.PciMemory.{pci_write32, pci_read32, write_word}

pub pci_write32-aligned :
    (a v : ℕ) (hw : Hardware) (h : History) → a % 4 ≡ 0 → (pci_write32 a v hw h).1 ≡ put 4 a v ∷ h
unfolding pci_write32 write_word
pci_write32-aligned a v hw h e = rw e refl

pub pci_read32-got :
    (a : ℕ) (hw : Hardware) (h : History) → (pci_read32 a hw h).1 ≡ got 4 a (hw h 4 a % 2 ^ 32) ∷ h
unfolding pci_read32
pci_read32-got a hw h = refl
