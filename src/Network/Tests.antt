-- ===== src/Network/Tests.antt =====
-- The conversions and the Ethernet frame at concrete addresses.
use ninjastorms.Prelude.{
  if◌then◌else◌, ltb, ℕ, ◌+◌, ◌≤◌, ◌≡◌, refl, false, some, none, inl, [], ◌∷◌, ◌++◌, arith,
  replicate,
}
use ninjastorms.Memory.{Memory}
use ninjastorms.Memory.Bytes.{read_bytes}
use ninjastorms.Network.ByteOrder.Wire.{wire16}
use ninjastorms.Network.Mac.{Mac, mac_to_str, broadcast_mac}
use ninjastorms.Network.Mac.Wire.{wire_mac}
use ninjastorms.Network.Mac.Print.{read_mac, read_mac-mac_to_str}
use ninjastorms.Network.Ethernet.{ethernet_send, padding, header_size, type_arp}
use ninjastorms.Network.Queue.{RecvQueue, empty_queue, insert_packet, network_task_round}
use ninjastorms.Network.Queue.Refine.{
  IsValidQueue, received, receive, hand_on, bytes_in, recv_queue_refines,
}
use ninjastorms.Network.Arp.{Host}
use ninjastorms.Network.Ipv4.{Round}
use ninjastorms.Network.Ethernet.Frame.{ethernet_send_lem}

abbrev card : Mac
card = 0x52 ∷ 0x54 ∷ 0x00 ∷ 0x12 ∷ 0x34 ∷ 0x56 ∷ []

read_mac-mac_to_str_example : read_mac (mac_to_str false card) ≡ some (wire_mac false card)
read_mac-mac_to_str_example = read_mac-mac_to_str false card refl (ground arith)

-- A payload of 28 bytes at 0x1000, and the frame behind it.
abbrev ones : Memory
ones a = 1

apart : 0x1000 + (padding 28 + 28) ≤ 0x2000
unfolding padding
apart = omega arith

ethernet_send_lem_example :
    let s = ethernet_send false card 0x2000 broadcast_mac type_arp 0x1000 28 ones in
    (s.p_len ≡ header_size + 46)
    × (read_bytes s.address s.p_len s.memory
        ≡ (wire_mac false broadcast_mac ++ (wire_mac false card ++ wire16 type_arp))
          ++ (read_bytes 0x1000 28 ones ++ replicate (padding 28) 0))
ethernet_send_lem_example =
    ethernet_send_lem false card broadcast_mac 0x2000 type_arp 0x1000 28 ones refl refl
      (omega arith) (inl apart)

empty_queue-IsValidQueue : IsValidQueue empty_queue
empty_queue-IsValidQueue = record { start_in = omega arith; end_in = omega arith; size = refl }

recv_queue_refines_example :
    let (slot, rest) = network_task_round empty_queue in
    ((q' : RecvQueue) × (insert_packet 0x1000 60 ones empty_queue ≡ some q')
      × (received q' ≡ receive (read_bytes 0x1000 60 ones) (received empty_queue))
      × IsValidQueue q')
    × ((bytes_in rest slot, received rest) ≡ hand_on (received empty_queue))
    × IsValidQueue rest
recv_queue_refines_example =
    recv_queue_refines 0x1000 60 ones empty_queue empty_queue-IsValidQueue (omega arith)

-- A clock that goes on by a second in each round, and no ARP table.
abbrev lonely : ℕ → Round
lonely k = record { table = none; seconds = λ j. 100; now = if ltb k 10 then 100 + k else 110 }

abbrev this_host : Host
this_host = record { big_endian = false; mac = card }
