-- ===== src/Network/ByteOrder/Wire.antt =====
-- The conversions against the bytes that lie in memory.
use ninjastorms.Prelude.{ℕ, ◌/◌, ◌%◌, ◌^◌, ◌<◌, ◌≡◌, refl, Bool, true, false, List, [], ◌∷◌, arith}
use ninjastorms.Network.ByteOrder.{htonl, htons, ntohl, ntohs}

-- The four bytes of a 32-bit number, most significant first: the order on the wire.
abbrev pub wire32 : ℕ → List ℕ
wire32 x = x / 2 ^ 24 % 2 ^ 8 ∷ x / 2 ^ 16 % 2 ^ 8 ∷ x / 2 ^ 8 % 2 ^ 8 ∷ x % 2 ^ 8 ∷ []

abbrev pub wire16 : ℕ → List ℕ
wire16 x = x / 2 ^ 8 % 2 ^ 8 ∷ x % 2 ^ 8 ∷ []

-- How a processor lays a number out in memory, lowest address first.
abbrev pub memory32 : Bool → ℕ → List ℕ
memory32 true x = wire32 x
memory32 false x = x % 2 ^ 8 ∷ x / 2 ^ 8 % 2 ^ 8 ∷ x / 2 ^ 16 % 2 ^ 8 ∷ x / 2 ^ 24 % 2 ^ 8 ∷ []

abbrev pub memory16 : Bool → ℕ → List ℕ
memory16 true x = wire16 x
memory16 false x = x % 2 ^ 8 ∷ x / 2 ^ 8 % 2 ^ 8 ∷ []

pub cons4 :
    (a b c d a' b' c' d' : ℕ)
    → a ≡ a'
    → b ≡ b'
    → c ≡ c'
    → d ≡ d'
    → a ∷ b ∷ c ∷ d ∷ [] ≡ a' ∷ b' ∷ c' ∷ d' ∷ []
cons4 a b c d a' b' c' d' p q r s = λ i. p i ∷ q i ∷ r i ∷ s i ∷ []

cons2 : (a b a' b' : ℕ) → a ≡ a' → b ≡ b' → a ∷ b ∷ [] ≡ a' ∷ b' ∷ []
cons2 a b a' b' p q = λ i. p i ∷ q i ∷ []

-- In either mode of the processor, a number that `htonl` converted lies in memory in the order of
-- the wire, and so does one that `htons` converted.
pub memory-hton :
    (big_endian : Bool) (x : ℕ)
    → (memory32 big_endian (htonl big_endian x) ≡ wire32 x)
      × (memory16 big_endian (htons big_endian x) ≡ wire16 x)
unfolding htonl htons
memory-hton true x = (refl, refl)
memory-hton false x = (
  cons4 _ _ _ _ _ _ _ _ (omega arith) (omega arith) (omega arith) (omega arith),
  cons2 _ _ _ _ (omega arith) (omega arith),
)

-- In either mode of the processor, `ntohl` takes `htonl` back on numbers of 32 bits, and `ntohs`
-- takes `htons` back on numbers of 16 bits.
pub ntoh-hton :
    (big_endian : Bool) (x y : ℕ)
    → x < 2 ^ 32
    → y < 2 ^ 16
    → (ntohl big_endian (htonl big_endian x) ≡ x) × (ntohs big_endian (htons big_endian y) ≡ y)
unfolding htonl htons ntohl ntohs
ntoh-hton true x y h k = (refl, refl)
ntoh-hton false x y h k = omega arith
