-- ===== src/Network/Ethernet/Frame.antt =====
-- What `ethernet_send` hands to the network card.
use mathlib.Core.Path.{ap₂}
use ninjastorms.Prelude.{
  ℕ, ◌+◌, ◌-◌, ◌%◌, ◌^◌, ◌<◌, ◌≤◌, ◌≡◌, refl, sym, ap, ◌∙◌, ◌⊎◌, Bool, true, false, not, ◌++◌,
  arith, length, length-append, if◌then◌else◌, ◌==◌, ltb, leb, ◌&&◌, replicate,
}
use ninjastorms.Memory.{Memory, memset}
use ninjastorms.Memory.Copy.{copied, filled, memcpy-copied, memset-filled}
use ninjastorms.Memory.Bytes.{
  read_bytes, store_bytes, store_bytes-outside, read_bytes-same, read_bytes-shift,
  read_bytes-append, read_bytes-replicate, read-store_bytes,
}
use ninjastorms.Network.ByteOrder.{htons}
use ninjastorms.Network.ByteOrder.Wire.{memory16, wire16, memory-hton}
use ninjastorms.Network.Mac.{Mac, hton_mac}
use ninjastorms.Network.Mac.Equal.{length-hton_mac}
use ninjastorms.Network.Mac.Wire.{wire_mac, hton_mac-wire_mac}
use ninjastorms.Network.Ethernet.{
  padding, header, header_size, minimum_payload_length, Sending, ethernet_send,
}

padding_lem :
    (n : ℕ) → padding n + n ≡ (if ltb n minimum_payload_length then minimum_payload_length else n)
unfolding padding
padding_lem n = ground arith

length-header :
    (big_endian : Bool) (dest own : Mac) (type : ℕ)
    → length dest ≡ 6
    → length own ≡ 6
    → length (header big_endian dest own type) ≡ header_size
unfolding header
length-header big_endian dest own type h k = omega (
  arith,
  length-append (hton_mac big_endian dest)
      (hton_mac big_endian own ++ memory16 big_endian (htons big_endian type)),
  length-append (hton_mac big_endian own) (memory16 big_endian (htons big_endian type)),
  length-hton_mac big_endian dest h,
  length-hton_mac big_endian own k,
  two big_endian,
)
  where
    two : (b : Bool) → length (memory16 b (htons b type)) ≡ 2
    two true = refl
    two false = refl

-- The padding, when there is any, is set to zero; the test for none changes nothing.
zeroed :
    (s p : ℕ) (m : Memory) (a : ℕ)
    → (if not (p == 0) then (memset s 0 p m).1 else m) a ≡ filled s 0 p m a
zeroed s p m a = ground (arith, (memset-filled s 0 p m).1 a)

-- The memory when the card is told, address by address.
module _ (big_endian : Bool) (own dest : Mac) (frame type payload n : ℕ) (m : Memory)
    (fits : header_size + minimum_payload_length + n < 2 ^ 16)
    (apart : (payload + (padding n + n) ≤ frame)
      ⊎ (frame + header_size + (padding n + n) ≤ payload)) where
  abbrev sent : Sending
  sent = ethernet_send big_endian own frame dest type payload n m

  abbrev with_header : Memory
  with_header = store_bytes frame (header big_endian dest own type) m

  sent_at :
      (a : ℕ)
      → sent.memory a
        ≡ filled
            (frame + header_size + n)
            0
            (padding n)
            (copied (frame + header_size) payload (padding n + n) with_header)
            a
  unfolding ethernet_send
  sent_at a =
      let e : (padding n + n) % 2 ^ 32 ≡ padding n + n = omega (arith, padding_lem n, fits) in
      rw e (
        zeroed (frame + header_size + n) (padding n) _ a
        ∙ ap
            (λ (v : ℕ).
              if leb (frame + header_size + n) a && ltb a (frame + header_size + n + padding n)
              then 0
              else v)
            ((memcpy-copied (frame + header_size) payload (padding n + n) with_header
                (omega arith)).1
              a))

  in_header : (b : ℕ) → b < frame + header_size → sent.memory b ≡ with_header b
  in_header b h = sent_at b ∙ ground arith

  in_payload :
      (k : ℕ)
      → length (header big_endian dest own type) ≡ header_size
      → k < n
      → sent.memory (frame + header_size + k) ≡ m (payload + k)
  in_payload k size h =
      sent_at (frame + header_size + k)
      ∙ ground (
        arith,
        store_bytes-outside frame (header big_endian dest own type) m (payload + k),
        ap with_header {x = payload + (frame + header_size + k - (frame + header_size))}
            {y = payload + k} (omega arith),
      )

  in_padding :
      (b : ℕ)
      → frame + header_size + n ≤ b
      → b < frame + header_size + n + padding n
      → sent.memory b ≡ 0
  in_padding b lo hi = sent_at b ∙ ground arith

header-wire :
    (big_endian : Bool) (dest own : Mac) (type : ℕ)
    → length dest ≡ 6
    → length own ≡ 6
    → header big_endian dest own type
      ≡ wire_mac big_endian dest ++ (wire_mac big_endian own ++ wire16 type)
unfolding header
header-wire big_endian dest own type dest_size own_size =
    rw (hton_mac-wire_mac big_endian dest dest_size, hton_mac-wire_mac big_endian own own_size)
      (ap (λ t. wire_mac big_endian dest ++ (wire_mac big_endian own ++ t))
        (memory-hton big_endian type).1)

p_len-sent :
    (big_endian : Bool) (own dest : Mac) (frame type payload n : ℕ) (m : Memory)
    → header_size + minimum_payload_length + n < 2 ^ 16
    → (ethernet_send big_endian own frame dest type payload n m).p_len
      ≡ header_size + (n + padding n)
unfolding ethernet_send
p_len-sent big_endian own dest frame type payload n m fits = ground arith

-- With MAC addresses of six bytes, for a payload that leaves the length below 2^16 and does not
-- overlap the new frame, `ethernet_send` hands the card a frame of 14 bytes and the payload, or of
-- 60 bytes if that is more. It holds both addresses and the type in the order of the wire, the
-- payload, and zeros to the end.
pub ethernet_send_lem :
    (big_endian : Bool) (own dest : Mac) (frame type payload n : ℕ) (m : Memory)
    → length own ≡ 6
    → length dest ≡ 6
    → header_size + minimum_payload_length + n < 2 ^ 16
    → (payload + (padding n + n) ≤ frame) ⊎ (frame + header_size + (padding n + n) ≤ payload)
    → let s = ethernet_send big_endian own frame dest type payload n m in
      (s.p_len ≡ header_size + (if ltb n minimum_payload_length then minimum_payload_length else n))
      × (read_bytes s.address s.p_len s.memory
          ≡ (wire_mac big_endian dest ++ (wire_mac big_endian own ++ wire16 type))
            ++ (read_bytes payload n m ++ replicate (padding n) 0))
unfolding ethernet_send
ethernet_send_lem big_endian own dest frame type payload n m own_size dest_size fits apart =
    let s = ethernet_send big_endian own frame dest type payload n m in
    let size = length-header big_endian dest own type dest_size own_size in
    let h = header big_endian dest own type in
    let head : read_bytes frame header_size s.memory ≡ h =
      read_bytes-same frame header_size s.memory (store_bytes frame h m)
        (λ b lo hi. in_header big_endian own dest frame type payload n m fits apart b hi)
      ∙ ap (λ k. read_bytes frame k (store_bytes frame h m)) (sym size)
      ∙ read-store_bytes frame h m in
    let body : read_bytes (frame + header_size) n s.memory ≡ read_bytes payload n m =
      read_bytes-shift (frame + header_size) payload n s.memory m
        (λ k lt. in_payload big_endian own dest frame type payload n m fits apart k size lt) in
    let tail : read_bytes (frame + header_size + n) (padding n) s.memory ≡ replicate (padding n) 0 =
      read_bytes-replicate (frame + header_size + n) (padding n) 0 s.memory
        (in_padding big_endian own dest frame type payload n m fits apart) in
    let len = p_len-sent big_endian own dest frame type payload n m fits in
    (
      len ∙ omega (arith, padding_lem n),
      ap (λ k. read_bytes s.address k s.memory) len
          ∙ read_bytes-append frame header_size (n + padding n) s.memory
          ∙ ap₂ ◌++◌ (head ∙ header-wire big_endian dest own type dest_size own_size)
              (read_bytes-append (frame + header_size) n (padding n) s.memory ∙ ap₂ ◌++◌ body tail),
    )
