-- ===== src/Network/Arp/Tests.antt =====
-- ARP frames of a host in the same network, on a little-endian processor.
use ninjastorms.Prelude.{ℕ, ◌≡◌, refl, true, false, some, [], ◌∷◌, arith, replicate}
use ninjastorms.Network.ByteOrder.{ntohl, ntohs}
use ninjastorms.Network.Mac.{null_mac, ntoh_mac}
use ninjastorms.Network.Routing.{
  Table, Readings, arp_null_entry, arp_table_find, arp_table_lookup, arp_table_update, is_expired,
  find_step, find_loop,
}
use ninjastorms.Network.Arp.{
  ArpFrame, Host, arp_receive, is_supported, arp_request, arp_reply, own_ipv4_addr,
}
use ninjastorms.Network.Arp.Handler.{Reads, arp_receive-replies}
use ninjastorms.Network.Arp.Merge.{Soon, arp_receive-lookup}

abbrev host : Host
host = record { big_endian = false; mac = 0x52 ∷ 0x54 ∷ 0x00 ∷ 0x12 ∷ 0x34 ∷ 0x56 ∷ [] }

-- 10.0.2.2 asks for an address.
abbrev question : ℕ → ArpFrame
question ip = record {
  hardware_type = 0x0100;
  protocol_type = 0x0008;
  hardware_addr_len = 6;
  protocol_addr_len = 4;
  opcode = 0x0100;
  src_hardware_addr = 0x02 ∷ 0x02 ∷ 0x00 ∷ 0x0a ∷ 0x55 ∷ 0x52 ∷ [];
  src_ip_address = 0x0202000A;
  dest_hardware_addr = null_mac;
  dest_ip_address = ip;
}

-- For this host, and for 10.0.2.11.
abbrev to_us : ArpFrame
to_us = question 0x0A02000A

abbrev to_other : ArpFrame
to_other = question 0x0B02000A

abbrev empty : Table
empty = replicate 10 arp_null_entry

abbrev at : ℕ → Readings
at now k = now

supported : is_supported host to_us ≡ true
unfolding is_supported ntohs
supported = refl

supported_other : is_supported host to_other ≡ true
unfolding is_supported ntohs
supported_other = refl

sender_ip : ntohl false to_us.src_ip_address ≡ 0x0A000202
unfolding ntohl
sender_ip = refl

for_us : ntohl false to_us.dest_ip_address ≡ own_ipv4_addr
unfolding ntohl
for_us = refl

for_other : ntohl false to_other.dest_ip_address ≡ 0x0A00020B
unfolding ntohl
for_other = refl

a_request : ntohs false to_us.opcode ≡ arp_request
unfolding ntohs
a_request = refl

arp_receive-replies_example :
    let sender = ntoh_mac false to_us.src_hardware_addr in
    (reply : ArpFrame) × ((arp_receive host (at 60) 61 to_us (some empty)).1
      ≡ record { dest_mac = sender; frame = reply } ∷ [])
    × Reads host reply arp_reply sender (ntohl false to_us.src_ip_address)
arp_receive-replies_example =
    arp_receive-replies host (at 60) 61 to_us (some empty) refl refl (omega (arith, sender_ip))
      supported for_us a_request

soon : Soon (at 60) 61 (at 100)
soon = record { behind_update = λ k l. omega arith; behind_entry = λ l. omega arith }

arp_receive-lookup_example :
    (arp_table_lookup
      (at 100)
      (ntohl false to_us.src_ip_address)
      (arp_receive host (at 60) 61 to_us (some empty)).0).0
    ≡ ntoh_mac false to_us.src_hardware_addr
arp_receive-lookup_example =
    arp_receive-lookup host (at 60) (at 100) 61 to_us empty refl (omega (arith, sender_ip))
      supported for_us soon

unknown :
    arp_table_update
      (at 60)
      (ntoh_mac false to_other.src_hardware_addr)
      (ntohl false to_other.src_ip_address)
      (some empty)
    ≡ (false, some empty)
unfolding arp_table_update arp_table_find find_loop find_step is_expired ntohl
unknown = refl
