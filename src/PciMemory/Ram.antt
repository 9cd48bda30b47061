-- ===== src/PciMemory/Ram.antt =====
-- Hardware that behaves as a memory of bytes, little-endian words in it.
use ninjastorms.Prelude.{
  ℕ, zero, suc, ◌+◌, ◌*◌, ◌/◌, ◌%◌, ◌^◌, ◌<◌, ◌≤◌, ◌≡◌, refl, ap, ◌⊎◌, length, List, [], ◌∷◌, arith,
}
use ninjastorms.Memory.{Memory}
use ninjastorms.Memory.Bytes.{store_bytes, store_bytes-outside}
use ninjastorms.Network.ByteOrder.Wire.{cons4}
use ninjastorms.Device.{got, put, printed, History, Hardware}

-- The value of `w` bytes at an address, and the `w` bytes of a value.
unfoldable pub le_value : ℕ → Memory → ℕ → ℕ
le_value zero m a = 0
le_value (suc w) m a = m a + 256 * le_value w m (a + 1)

unfoldable pub le_bytes : ℕ → ℕ → List ℕ
le_bytes zero v = []
le_bytes (suc w) v = v % 256 ∷ le_bytes w (v / 256)

-- The memory behind a history of accesses.
abbrev pub replay : History → Memory → Memory
replay [] m = m
replay (got w a v ∷ h) m = replay h m
replay (printed o ∷ h) m = replay h m
replay (put w a v ∷ h) m = store_bytes a (le_bytes w v) (replay h m)

abbrev pub ram : Memory → Hardware
ram m h w a = le_value w (replay h m) a

abbrev pub AllBytes : Memory → Type 0
AllBytes m = (a : ℕ) → m a < 256

-- Four bytes from their word.
pub le_bytes_lem :
    (x a b c d : ℕ)
    → a < 256
    → b < 256
    → c < 256
    → d < 256
    → x ≡ a + 256 * (b + 256 * (c + 256 * d))
    → le_bytes 4 x ≡ a ∷ b ∷ c ∷ d ∷ []
unfolding le_bytes
le_bytes_lem x a b c d ha hb hc hd e =
    cons4 _ _ _ _ _ _ _ _ (omega arith) (omega arith) (omega arith) (omega arith)

pub le_value-lt : (m : Memory) (a : ℕ) → AllBytes m → le_value 4 m a < 2 ^ 32
unfolding le_value
le_value-lt m a v = omega (arith, v a, v (a + 1), v (a + 1 + 1), v (a + 1 + 1 + 1))

-- A store beside the bytes that are read.
pub le_value-store :
    (m : Memory) (a b : ℕ) (xs : List ℕ)
    → (b + 4 ≤ a) ⊎ (a + length xs ≤ b)
    → le_value 4 (store_bytes a xs m) b ≡ le_value 4 m b
unfolding le_value
le_value-store m a b xs h =
    rw
      (
        store_bytes-outside a xs m b (omega arith),
        store_bytes-outside a xs m (b + 1) (omega arith),
        store_bytes-outside a xs m (b + 1 + 1) (omega arith),
        store_bytes-outside a xs m (b + 1 + 1 + 1) (omega arith),
      )
      refl

pub length-le_bytes : (w v : ℕ) → length (le_bytes w v) ≡ w
unfolding le_bytes
length-le_bytes zero v = refl
length-le_bytes (suc w) v = ap suc (length-le_bytes w (v / 256))
