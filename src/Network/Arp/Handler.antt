-- ===== src/Network/Arp/Handler.antt =====
-- What `arp_receive` answers, and to which frames.
use ninjastorms.Prelude.{
  ℕ, ◌<◌, ◌≡◌, ◌≢◌, refl, ◌⊎◌, true, false, Option, [], ◌∷◌, arith, length, ◌^◌,
}
use ninjastorms.Network.ByteOrder.{ntohl, ntohs}
use ninjastorms.Network.ByteOrder.Wire.{ntoh-hton}
use ninjastorms.Network.Mac.{Mac, ntoh_mac, eth_mac_address_length}
use ninjastorms.Network.Mac.Equal.{ntoh_mac-hton_mac, length-ntoh_mac}
use ninjastorms.Network.Routing.{Table, Readings}
use ninjastorms.Network.Ethernet.{type_ipv4}
use ninjastorms.Network.Arp.{
  ArpFrame, Host, arp_build_frame, arp_handle_request, is_supported, arp_receive, arp_request,
  arp_reply, htype_ethernet, own_ipv4_addr,
}

-- What the receiver of a frame reads in it.
pub record Reads (host : Host) (frame : ArpFrame) (opcode : ℕ) (dest_mac : Mac) (dest_ip : ℕ)
    : Type 0 where
  pub supported : is_supported host frame ≡ true
  pub operation : ntohs host.big_endian frame.opcode ≡ opcode
  pub sender : ntoh_mac host.big_endian frame.src_hardware_addr ≡ host.mac
  pub sender_ip : ntohl host.big_endian frame.src_ip_address ≡ own_ipv4_addr
  pub target : ntoh_mac host.big_endian frame.dest_hardware_addr ≡ dest_mac
  pub target_ip : ntohl host.big_endian frame.dest_ip_address ≡ dest_ip

-- A built frame says what it was built from.
arp_build_frame-Reads :
    (host : Host) (opcode : ℕ) (dest_mac : Mac) (dest_ip : ℕ)
    → length host.mac ≡ eth_mac_address_length
    → length dest_mac ≡ eth_mac_address_length
    → opcode < 2 ^ 16
    → dest_ip < 2 ^ 32
    → Reads host (arp_build_frame host opcode dest_mac dest_ip) opcode dest_mac dest_ip
unfolding arp_build_frame is_supported
arp_build_frame-Reads host opcode dest_mac dest_ip own_size dest_size op ip =
    let b = host.big_endian in
    let (ip_back, op_back) = ntoh-hton b dest_ip opcode ip op in
    let (own_back, type_back) = ntoh-hton b own_ipv4_addr type_ipv4 (omega arith) (omega arith) in
    let (_, hardware_back) = ntoh-hton b own_ipv4_addr htype_ethernet (omega arith) (omega arith) in
    record {
      supported = rw (type_back, hardware_back) refl;
      operation = op_back;
      sender = ntoh_mac-hton_mac b host.mac own_size;
      sender_ip = own_back;
      target = ntoh_mac-hton_mac b dest_mac dest_size;
      target_ip = ip_back;
    }

-- With MAC addresses of six bytes and a sender's IP address of 32 bits, a supported request to this
-- host is answered by one frame, sent to the sender: a supported reply that reads as one from this
-- host's MAC and IP addresses to the sender's.
pub arp_receive-replies :
    (host : Host) (seconds : Readings) (now : ℕ) (frame : ArpFrame) (table : Option Table)
    → length host.mac ≡ eth_mac_address_length
    → length frame.src_hardware_addr ≡ eth_mac_address_length
    → ntohl host.big_endian frame.src_ip_address < 2 ^ 32
    → is_supported host frame ≡ true
    → ntohl host.big_endian frame.dest_ip_address ≡ own_ipv4_addr
    → ntohs host.big_endian frame.opcode ≡ arp_request
    → let sender = ntoh_mac host.big_endian frame.src_hardware_addr in
      (reply : ArpFrame) × ((arp_receive host seconds now frame table).1
        ≡ record { dest_mac = sender; frame = reply } ∷ [])
      × Reads host reply arp_reply sender (ntohl host.big_endian frame.src_ip_address)
unfolding arp_receive arp_handle_request
arp_receive-replies host seconds now frame table own_size size ip supported to_us request =
    let sender = ntoh_mac host.big_endian frame.src_hardware_addr in
    (
      arp_build_frame host arp_reply sender (ntohl host.big_endian frame.src_ip_address),
      ground arith,
      arp_build_frame-Reads host arp_reply sender (ntohl host.big_endian frame.src_ip_address)
          own_size (length-ntoh_mac host.big_endian frame.src_hardware_addr size) (omega arith) ip,
    )

-- A frame that is not supported, is for another address or is no request is not answered.
pub arp_receive-silent :
    (host : Host) (seconds : Readings) (now : ℕ) (frame : ArpFrame) (table : Option Table)
    → (is_supported host frame ≡ false)
      ⊎ (ntohl host.big_endian frame.dest_ip_address ≢ own_ipv4_addr)
      ⊎ (ntohs host.big_endian frame.opcode ≢ arp_request)
    → (arp_receive host seconds now frame table).1 ≡ []
unfolding arp_receive
arp_receive-silent host seconds now frame table why = ground arith
