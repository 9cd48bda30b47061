-- ===== src/Network/E1000/Init/Tests.antt =====
-- A card in the second slot of the table, on a fresh heap.
use ninjastorms.Prelude.{refl, false, none, [], arith, set}
use ninjastorms.Device.{Hardware}
use ninjastorms.Malloc.{Heap, fresh}
use ninjastorms.Malloc.Valid.{IsValid}
use ninjastorms.Pci.{Devices, pci_devices, zero_device, device_addr}
use ninjastorms.Network.Mac.{null_mac}
use ninjastorms.Network.E1000.{E1000}
use ninjastorms.Network.E1000.Init.{e1000_init}
use ninjastorms.Network.E1000.Init.Ready.{Initialised, e1000_init-Initialised}

abbrev blank : E1000
blank = record {
  base = 0;
  io_base = 0;
  mem_base = 0;
  eeprom_exists = false;
  mac = null_mac;
  rx_cur = 0;
  tx_cur = 0;
  pci_device = none;
}

abbrev devices : Devices
devices = set pci_devices 1 (record zero_device {
  config_base = device_addr 12;
  pci_slot_id = 12;
  vendor_id = 0x8086;
  device_id = 0x100E;
})

abbrev heap : Heap
heap = fresh (λ a. 0) (λ a. 0)

heap-IsValid : IsValid heap [] []
unfolding fresh
heap-IsValid = record {
  tiles = refl;
  in_heap = omega arith;
  chain = refl;
  distinct = tt;
  known = λ b i. cc;
}

abbrev quiet : Hardware
quiet h w a = 0

e1000_init-Initialised_example :
    Initialised 1 devices heap
      (e1000_init 1 0 [] devices blank heap quiet []).0
      (e1000_init 1 0 [] devices blank heap quiet []).1
e1000_init-Initialised_example =
    e1000_init-Initialised 1 0 [] devices blank heap [] [] quiet [] heap-IsValid (omega arith)
