-- ===== src/PciMemory/Tests.antt =====
-- A write of 64 bits across three words of an empty memory.
use ninjastorms.Prelude.{◌≡◌, [], arith}
use ninjastorms.Memory.Bytes.{store_bytes}
use ninjastorms.PciMemory.Ram.{le_bytes, replay, ram}
use ninjastorms.PciMemory.Write.{pci_write, eight, pci_write-store_bytes}

pci_write-store_bytes_example :
    replay (pci_write eight 0x50000013 0x1122334455667788 (ram (λ a. 0)) []).1 (λ a. 0) 0x50000015
    ≡ store_bytes 0x50000013 (le_bytes 8 0x1122334455667788) (λ a. 0) 0x50000015
pci_write-store_bytes_example =
    pci_write-store_bytes eight 0x50000013 0x1122334455667788 (λ a. 0) [] 0x50000015
      (λ a. omega arith) (omega arith) (omega arith)
