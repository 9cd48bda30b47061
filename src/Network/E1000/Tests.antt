-- ===== src/Network/E1000/Tests.antt =====
-- A card that has two packets ready; the PCI bus says which card it is.
use ninjastorms.Prelude.{
  ℕ, ◌%◌, ◌^◌, ◌≤◌, ◌≡◌, refl, some, [], ◌∷◌, true, if◌then◌else◌, ◌==◌, leb, ltb, ◌<◌, ◌+◌,
  bit_and, arith,
}
use ninjastorms.Device.{put, Hardware, History}
use ninjastorms.Network.Queue.{empty_queue, max_packet_size}
use ninjastorms.Network.Mac.{null_mac}
use ninjastorms.Network.E1000.{E1000, rx_desc, length_field, e1000_num_rx_desc}
use ninjastorms.Network.E1000.Receive.{Receiving, e1000_irq_handler}
use ninjastorms.Network.E1000.Ring.{Kept, Serves, count, e1000_irq_handler-Kept}

abbrev card : E1000
card = record {
  base = 0x5000010;
  io_base = 0x43000000;
  mem_base = 0x50000000;
  eeprom_exists = true;
  mac = null_mac;
  rx_cur = 0;
  tx_cur = 0;
  pci_device = some 0x42006000;
}

abbrev start : Receiving
start = record { card = card; queue = empty_queue }

abbrev two_packets : Hardware
two_packets h w a =
    if w == 1
    then if leb 3 (count 0x50002818 h) then 0 else 1
    else if ltb a 0x42000000
    then 0x80
    else 0x100E8086

abbrev before : History
before = put 4 0x50002818 31 ∷ []

two_packets-Serves : Serves two_packets card 3
two_packets-Serves = (λ h i l. short i l, λ h i l c. none_left (count 0x50002818 h) c)
  where
    short :
        (i : ℕ)
        → i < e1000_num_rx_desc
        → (if ltb (rx_desc card i + length_field) 0x42000000 then 0x80 else 0x100E8086) % 2 ^ 16
          ≤ max_packet_size
    short i l =
        let t : ltb (rx_desc card i + length_field) 0x42000000 ≡ true = ground arith in
        rw t (omega arith)

    none_left : (c : ℕ) → 3 ≤ c → bit_and ((if leb 3 c then 0 else 1) % 2 ^ 8) 0x1 ≡ 0
    none_left c l = let t : leb 3 c ≡ true = ground arith in rw t refl

e1000_irq_handler-Kept_example :
    Kept
      (e1000_irq_handler 0 [] 3 start two_packets before).0
      (e1000_irq_handler 0 [] 3 start two_packets before).1
e1000_irq_handler-Kept_example =
    e1000_irq_handler-Kept two_packets 0 [] 3 2 start before
      (omega arith, omega arith, omega arith, omega arith) two_packets-Serves (omega arith)
      (omega arith, omega arith)
