-- ===== src/Network/Ethernet.antt =====
-- `ethernet_send` of kernel/network/ethernet.c, down to the bytes of the frame in memory.
pub mod Frame
use ninjastorms.Prelude.{
  ℕ, ◌+◌, ◌-◌, ◌*◌, ◌%◌, ◌^◌, Bool, true, false, not, List, [], ◌∷◌, ◌++◌, if◌then◌else◌, ◌==◌, ltb,
  length,
}
use ninjastorms.Memory.{Memory, memcpy, memset}
use ninjastorms.Memory.Bytes.{store_bytes}
use ninjastorms.Network.ByteOrder.{htons}
use ninjastorms.Network.ByteOrder.Wire.{memory16}
use ninjastorms.Network.Mac.{Mac, hton_mac}

abbrev pub minimum_payload_length : ℕ
minimum_payload_length = 46

-- `enum ether_type`
abbrev pub type_arp : ℕ
type_arp = 0x0806

abbrev pub type_ipv4 : ℕ
type_ipv4 = 0x0800

-- `sizeof(ethernet_frame_t)`: two addresses of six bytes and a type of two.
abbrev pub header_size : ℕ
header_size = 14

-- `len_padding`, an `uint8_t`
unfoldable pub padding : ℕ → ℕ
padding len_payload =
    (if ltb len_payload minimum_payload_length then minimum_payload_length - len_payload else 0)
    % 2 ^ 8

-- The call of `e1000_send_packet`: where the frame lies, and its length as an `uint16_t`.
pub record Sending : Type 0 where
  pub address : ℕ
  pub p_len : ℕ
  pub memory : Memory

-- The fields of the frame's header, as the code stores them one by one.
pub header : Bool → Mac → Mac → ℕ → List ℕ
header big_endian dest_mac own_mac eth_type =
    hton_mac big_endian dest_mac
    ++ (hton_mac big_endian own_mac ++ memory16 big_endian (htons big_endian eth_type))

-- `frame` is the address that `malloc` gave for the frame; the code does not test it for null.
pub ethernet_send : Bool → Mac → ℕ → Mac → ℕ → ℕ → ℕ → Memory → Sending
unfolding padding header
ethernet_send big_endian own_mac frame dest_mac eth_type payload len_payload m =
    let len_padding = padding len_payload in
    let len = (len_padding + len_payload) % 2 ^ 32 in
    let m₁ = store_bytes frame (header big_endian dest_mac own_mac eth_type) m in
    let m₂ = (memcpy (frame + header_size) payload len m₁).1 in
    let m₃ =
      if not (len_padding == 0)
      then (memset (frame + header_size + len_payload) 0 len_padding m₂).1
      else m₂ in
    record { address = frame; p_len = (header_size + len) % 2 ^ 16; memory = m₃ }
