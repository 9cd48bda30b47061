-- ===== src/Network/Arp.antt =====
-- kernel/network/arp.c and kernel/network/pdu_handler.c: ARP frames and the handler that answers
-- them. A call of `ethernet_send` is a value: the destination and the ARP frame that is its payload.
pub mod Handler
pub mod Merge
mod Tests
use ninjastorms.Prelude.{
  ℕ, Bool, true, false, not, ◌||◌, Option, none, some, List, [], ◌∷◌, if◌then◌else◌, ◌==◌,
}
use ninjastorms.Network.ByteOrder.{htonl, htons, ntohl, ntohs}
use ninjastorms.Network.Mac.{
  Mac, null_mac, broadcast_mac, eth_mac_address_length, hton_mac, ntoh_mac,
}
use ninjastorms.Network.Routing.{
  Table, Readings, arp_table_update, arp_table_add_entry, arp_table_get_mac,
}
use ninjastorms.Network.Ethernet.{type_arp, type_ipv4}

-- `arp_frame_t`: each field holds what the processor reads in it.
pub record ArpFrame : Type 0 where
  pub hardware_type : ℕ
  pub protocol_type : ℕ
  pub hardware_addr_len : ℕ
  pub protocol_addr_len : ℕ
  pub opcode : ℕ
  pub src_hardware_addr : Mac
  pub src_ip_address : ℕ
  pub dest_hardware_addr : Mac
  pub dest_ip_address : ℕ

abbrev pub arp_request : ℕ
arp_request = 0x0001

abbrev pub arp_reply : ℕ
arp_reply = 0x0002

abbrev pub htype_ethernet : ℕ
htype_ethernet = 1

abbrev pub ipv4_addr_len : ℕ
ipv4_addr_len = 4

-- 10.0.2.10
abbrev pub own_ipv4_addr : ℕ
own_ipv4_addr = 0x0A00020A

-- A call `ethernet_send (dest_mac, TYPE_ARP, &frame, sizeof (arp_frame_t))`.
pub record ArpSending : Type 0 where
  pub dest_mac : Mac
  pub frame : ArpFrame

-- What the code reads of the processor and of the network card: the byte order and the card's MAC
-- address.
pub record Host : Type 0 where
  pub big_endian : Bool
  pub mac : Mac

pub arp_build_frame : Host → ℕ → Mac → ℕ → ArpFrame
arp_build_frame host opcode dest_hw dest_ip = record {
  hardware_type = htons host.big_endian htype_ethernet;
  protocol_type = htons host.big_endian type_ipv4;
  hardware_addr_len = eth_mac_address_length;
  protocol_addr_len = ipv4_addr_len;
  opcode = htons host.big_endian opcode;
  src_hardware_addr = hton_mac host.big_endian host.mac;
  src_ip_address = htonl host.big_endian own_ipv4_addr;
  dest_hardware_addr = hton_mac host.big_endian dest_hw;
  dest_ip_address = htonl host.big_endian dest_ip;
}

pub arp_handle_request : Host → ArpFrame → ArpSending
arp_handle_request host frame =
    let sender = ntoh_mac host.big_endian frame.src_hardware_addr in
    record {
      dest_mac = sender;
      frame = arp_build_frame host arp_reply sender (ntohl host.big_endian frame.src_ip_address);
    }

-- The two tests that drop a frame.
pub is_supported : Host → ArpFrame → Bool
is_supported host frame =
    if not (ntohs host.big_endian frame.hardware_type == htype_ethernet)
      || not (frame.hardware_addr_len == eth_mac_address_length)
    then false
    else if not (ntohs host.big_endian frame.protocol_type == type_ipv4)
        || not (frame.protocol_addr_len == ipv4_addr_len)
    then false
    else true

-- The table behind the update and, for a frame to this host that updated nothing, the new entry.
pub merge : Host → Readings → ℕ → ArpFrame → Option Table → Option Table
merge host seconds now frame table =
    let mac = ntoh_mac host.big_endian frame.src_hardware_addr in
    let ip = ntohl host.big_endian frame.src_ip_address in
    let (merge_flag, table') = arp_table_update seconds mac ip table in
    if ntohl host.big_endian frame.dest_ip_address == own_ipv4_addr
    then (if not merge_flag then arp_table_add_entry now mac ip table' else table')
    else table'

-- `arp_receive`: `seconds` are the clock readings of the update, `now` the one of a new entry.
pub arp_receive : Host → Readings → ℕ → ArpFrame → Option Table → Option Table × List ArpSending
unfolding is_supported merge
arp_receive host seconds now frame table = if not (is_supported host frame) then (table, []) else (
  merge host seconds now frame table,
  if ntohl host.big_endian frame.dest_ip_address == own_ipv4_addr
      then (if ntohs host.big_endian frame.opcode == arp_request
          then arp_handle_request host frame ∷ []
          else [])
      else [],
)

pub arp_send_request : Host → ℕ → ArpSending
arp_send_request host ip = record {
  dest_mac = broadcast_mac;
  frame = arp_build_frame host arp_request null_mac ip;
}

-- `arp_table_get_mac` with the request that it sends.
pub get_mac : Host → Readings → ℕ → Option Table → Mac × List ArpSending × Option Table
get_mac host seconds ip table =
    let (mac, asks, table') = arp_table_get_mac seconds ip table in
    (mac, if asks then arp_send_request host ip ∷ [] else [], table')

-- `start_pdu_encapsulation`: only ARP is handed on.
pub start_pdu_encapsulation :
    Host → Readings → ℕ → ℕ → ArpFrame → Option Table → Option Table × List ArpSending
start_pdu_encapsulation host seconds now ether_type frame table =
    if ntohs host.big_endian ether_type == type_arp
    then arp_receive host seconds now frame table
    else (table, [])
