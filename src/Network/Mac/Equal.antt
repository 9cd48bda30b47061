-- ===== src/Network/Mac/Equal.antt =====
-- MAC addresses of six bytes: reversal and comparison.
use ninjastorms.Prelude.{ℕ, ◌≡◌, ◌↔◌, refl, Bool, true, false, [], ◌∷◌, arith, length}
use ninjastorms.Network.Mac.{Mac, hton_mac, ntoh_mac, mac_address_equal, eth_mac_address_length}

-- The six bytes of an address.
pub record Bytes (mac : Mac) : Type 0 where
  pub a : ℕ
  pub b : ℕ
  pub c : ℕ
  pub d : ℕ
  pub e : ℕ
  pub f : ℕ
  pub is : mac ≡ a ∷ b ∷ c ∷ d ∷ e ∷ f ∷ []

pub Mac-Bytes : (mac : Mac) → length mac ≡ 6 → Bytes mac
Mac-Bytes (a ∷ b ∷ c ∷ d ∷ e ∷ f ∷ []) h = record {
  a = a;
  b = b;
  c = c;
  d = d;
  e = e;
  f = f;
  is = refl;
}
Mac-Bytes [] h = absurd (omega arith)
Mac-Bytes (a ∷ []) h = absurd (omega arith)
Mac-Bytes (a ∷ b ∷ []) h = absurd (omega arith)
Mac-Bytes (a ∷ b ∷ c ∷ []) h = absurd (omega arith)
Mac-Bytes (a ∷ b ∷ c ∷ d ∷ []) h = absurd (omega arith)
Mac-Bytes (a ∷ b ∷ c ∷ d ∷ e ∷ []) h = absurd (omega arith)
Mac-Bytes (a ∷ b ∷ c ∷ d ∷ e ∷ f ∷ g ∷ r) h = absurd (omega arith)

-- A conversion of an address of six bytes to network byte order and back gives the address, in
-- either mode of the processor.
pub ntoh_mac-hton_mac :
    (big_endian : Bool) (mac : Mac)
    → length mac ≡ 6
    → ntoh_mac big_endian (hton_mac big_endian mac) ≡ mac
unfolding ntoh_mac hton_mac
ntoh_mac-hton_mac true mac h = refl
ntoh_mac-hton_mac false mac h = let x = Mac-Bytes mac h in rw (x.is) refl

pub length-hton_mac :
    (big_endian : Bool) (mac : Mac) → length mac ≡ 6 → length (hton_mac big_endian mac) ≡ 6
unfolding hton_mac
length-hton_mac true mac h = h
length-hton_mac false mac h = refl

pub length-ntoh_mac :
    (big_endian : Bool) (mac : Mac) → length mac ≡ 6 → length (ntoh_mac big_endian mac) ≡ 6
unfolding ntoh_mac
length-ntoh_mac true mac h = h
length-ntoh_mac false mac h = refl

-- `mac_address_equal` decides whether two addresses of six bytes are the same.
pub mac_address_equal_iff :
    (mac1 mac2 : Mac)
    → length mac1 ≡ eth_mac_address_length
    → length mac2 ≡ eth_mac_address_length
    → (mac_address_equal mac1 mac2 ≡ true) ↔ (mac1 ≡ mac2)
unfolding mac_address_equal
mac_address_equal_iff mac1 mac2 h k =
    let x = Mac-Bytes mac1 h in
    let y = Mac-Bytes mac2 k in rw (x.is, y.is) (λ t. ground arith, λ p. ground arith)
