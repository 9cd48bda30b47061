-- ===== src/Network/Mac/Wire.antt =====
-- The order of the bytes of a MAC address on the wire, without the conversions of kernel/network/network_io.c.
use ninjastorms.Prelude.{ℕ, ◌≡◌, ◌++◌, refl, Bool, true, false, List, [], ◌∷◌, length}
use ninjastorms.Network.Mac.{Mac, hton_mac}
use ninjastorms.Network.Mac.Equal.{Mac-Bytes}

-- A list from its last element to its first.
abbrev pub reverse : List ℕ → List ℕ
reverse [] = []
reverse (x ∷ xs) = reverse xs ++ (x ∷ [])

-- A processor in big-endian mode has the bytes of an address in the order of the wire, and one in little-endian mode
-- has the last one first.
abbrev pub wire_mac : Bool → Mac → Mac
wire_mac true mac = mac
wire_mac false mac = reverse mac

pub hton_mac-wire_mac :
    (big_endian : Bool) (mac : Mac)
    → length mac ≡ 6
    → hton_mac big_endian mac ≡ wire_mac big_endian mac
unfolding hton_mac
hton_mac-wire_mac true mac h = refl
hton_mac-wire_mac false mac h = let x = Mac-Bytes mac h in rw (x.is) refl
