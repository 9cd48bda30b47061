-- ===== src/Network/Mac/Print.antt =====
-- `mac_to_str` of kernel/network/ethernet.c, against a reader of its text.
use ninjastorms.Prelude.{
  ℕ, ◌+◌, ◌-◌, ◌*◌, ◌/◌, ◌%◌, ◌^◌, ◌<◌, ◌≡◌, refl, ap, sym, subst, ◌∙◌, Bool, true, false, Option,
  none, some, List, [], ◌∷◌, arith, length, leb, ◌&&◌, bit_and, ◌==◌, if◌then◌else◌,
}
use ninjastorms.Prelude.Bits.{bit_and-low}
use ninjastorms.Network.Mac.{Mac, hton_mac, mac_to_str, int_to_hex_char}
use ninjastorms.Network.Mac.Equal.{Mac-Bytes, length-hton_mac}
use ninjastorms.Network.Mac.Wire.{wire_mac, hton_mac-wire_mac}

-- The value of a hexadecimal digit in lower case; no other character has one.
pub hex_value : ℕ → Option ℕ
hex_value c =
    if leb b'0' c && leb c b'9'
    then some (c - b'0')
    else if leb b'a' c && leb c b'f'
    then some (c + 10 - b'a')
    else none

hex_value-int_to_hex_char : (v : ℕ) → v < 16 → hex_value (int_to_hex_char v) ≡ some v
unfolding hex_value int_to_hex_char
hex_value-int_to_hex_char v h = ground arith

-- A byte of two digits.
pub read_byte : Option ℕ → Option ℕ → Option ℕ
read_byte none l = none
read_byte (some h) none = none
read_byte (some h) (some l) = some (h * 16 + l)

-- A byte in front of an address.
pub join_byte : Option ℕ → Option Mac → Option Mac
join_byte none rest = none
join_byte (some b) none = none
join_byte (some b) (some rest) = some (b ∷ rest)

-- Two digits for each byte, and a colon between two bytes.
pub read_mac : List ℕ → Option Mac
read_mac [] = none
read_mac (h ∷ []) = none
read_mac (h ∷ l ∷ []) = join_byte (read_byte (hex_value h) (hex_value l)) (some [])
read_mac (h ∷ l ∷ c ∷ rest) =
    let bytes = read_mac rest in
    if c == b':' then join_byte (read_byte (hex_value h) (hex_value l)) bytes else none

-- The digits of one byte.
high : ℕ → ℕ
high x = int_to_hex_char (x / 2 ^ 4)

low : ℕ → ℕ
low x = int_to_hex_char (bit_and x 0x0f)

byte_back : (x : ℕ) → x < 256 → read_byte (hex_value (high x)) (hex_value (low x)) ≡ some x
unfolding high low read_byte
byte_back x h =
    rw
      (
        bit_and-low 8 4 x (omega arith),
        hex_value-int_to_hex_char (x / 2 ^ 4) (omega arith),
        hex_value-int_to_hex_char (x % 2 ^ 4) (omega arith),
      )
      (ap some (omega arith))

spelled :
    (a b c d e f : ℕ)
    → mac_to_str true (a ∷ b ∷ c ∷ d ∷ e ∷ f ∷ [])
      ≡ high a
        ∷ low a
        ∷ b':'
        ∷ high b
        ∷ low b
        ∷ b':'
        ∷ high c
        ∷ low c
        ∷ b':'
        ∷ high d
        ∷ low d
        ∷ b':'
        ∷ high e
        ∷ low e
        ∷ b':'
        ∷ high f
        ∷ low f
        ∷ []
unfolding mac_to_str high low
spelled a b c d e f = refl

-- All six bytes fit eight bits.
abbrev pub AllBytes : List ℕ → Type 0
AllBytes [] = Unit
AllBytes (x ∷ xs) = (x < 256) × AllBytes xs

read_six :
    (a b c d e f : ℕ)
    → AllBytes (a ∷ b ∷ c ∷ d ∷ e ∷ f ∷ [])
    → read_mac (mac_to_str true (a ∷ b ∷ c ∷ d ∷ e ∷ f ∷ [])) ≡ some (a ∷ b ∷ c ∷ d ∷ e ∷ f ∷ [])
unfolding read_mac join_byte
read_six a b c d e f (ha, (hb, (hc, (hd, (he, (hf, _)))))) =
    ap read_mac (spelled a b c d e f)
    ∙ rw
        (
          byte_back a ha,
          byte_back b hb,
          byte_back c hc,
          byte_back d hd,
          byte_back e he,
          byte_back f hf,
        )
        refl

read_wire : (mac : Mac) → length mac ≡ 6 → AllBytes mac → read_mac (mac_to_str true mac) ≡ some mac
read_wire mac h v =
    let x = Mac-Bytes mac h in
    subst (λ m. AllBytes m → read_mac (mac_to_str true m) ≡ some m) (sym x.is)
      (read_six x.a x.b x.c x.d x.e x.f) v

mac_to_str-wire :
    (big_endian : Bool) (mac : Mac)
    → mac_to_str big_endian mac ≡ mac_to_str true (hton_mac big_endian mac)
unfolding mac_to_str hton_mac
mac_to_str-wire true mac = refl
mac_to_str-wire false mac = refl

AllBytes-hton_mac :
    (big_endian : Bool) (mac : Mac)
    → length mac ≡ 6
    → AllBytes mac
    → AllBytes (hton_mac big_endian mac)
unfolding hton_mac
AllBytes-hton_mac true mac h v = v
AllBytes-hton_mac false mac h v =
    let x = Mac-Bytes mac h in
    subst (λ m. AllBytes m → AllBytes (hton_mac false m)) (sym x.is) (λ v. ground arith) v

-- In either mode of the processor, the text of an address of six bytes, each below 256, consists of two hexadecimal
-- digits in lower case for each byte with a colon between two bytes, and reads back as the address in the order of the
-- wire: its bytes as they are in big-endian mode, and the last one first in little-endian mode.
pub read_mac-mac_to_str :
    (big_endian : Bool) (mac : Mac)
    → length mac ≡ 6
    → AllBytes mac
    → read_mac (mac_to_str big_endian mac) ≡ some (wire_mac big_endian mac)
read_mac-mac_to_str big_endian mac h v =
    rw (mac_to_str-wire big_endian mac, ← hton_mac-wire_mac big_endian mac h)
      (read_wire (hton_mac big_endian mac) (length-hton_mac big_endian mac h)
        (AllBytes-hton_mac big_endian mac h v))
