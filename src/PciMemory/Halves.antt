-- ===== src/PciMemory/Halves.antt =====
-- The words of a value that lies across two words, byte by byte.
use mathlib.Core.Path.{ap₂}
use ninjastorms.Prelude.{ℕ, ◌+◌, ◌-◌, ◌*◌, ◌/◌, ◌%◌, ◌^◌, ◌<◌, ◌≡◌, ◌∙◌, [], ◌∷◌, arith, bit_or}
use ninjastorms.PciMemory.{shift_left, shift_right}
use ninjastorms.PciMemory.Ram.{le_bytes, le_bytes_lem}
use ninjastorms.PciMemory.Word.{join_high, join_low}

-- The lower and the upper word of a value that starts at byte `l` of a word.
abbrev pub low_word : ℕ → ℕ → ℕ → ℕ
low_word l x v =
    bit_or (shift_right (shift_left x ((4 - l) * 8)) ((4 - l) * 8)) (shift_left v (l * 8))

abbrev pub high_word : ℕ → ℕ → ℕ → ℕ
high_word l y v = bit_or (shift_left (shift_right y (l * 8)) (l * 8)) (shift_right v ((4 - l) * 8))

-- The bytes of both, for the bytes of the words and of the value.
module _ (x v a b c d p q r s : ℕ) (ex : x ≡ a + 256 * (b + 256 * (c + 256 * (d + 256 * 0))))
    (ev : v ≡ p + 256 * (q + 256 * (r + 256 * (s + 256 * 0)))) (ha : a < 256) (hb : b < 256)
    (hc : c < 256) (hd : d < 256) (hp : p < 256) (hq : q < 256) (hr : r < 256) (hs : s < 256) where
  pub low_1 : le_bytes 4 (low_word 1 x v) ≡ a ∷ p ∷ q ∷ r ∷ []
  low_1 =
      let word : low_word 1 x v ≡ (p + 256 * (q + 256 * r)) * 2 ^ 8 + a =
        ap₂ bit_or (omega arith) (omega arith)
        ∙ join_high 8 a (p + 256 * (q + 256 * r)) (omega arith) in
      le_bytes_lem (low_word 1 x v) a p q r ha hp hq hr (omega (arith, word))

  pub high_1 : le_bytes 4 (high_word 1 x v) ≡ s ∷ b ∷ c ∷ d ∷ []
  high_1 =
      let word : high_word 1 x v ≡ (b + 256 * (c + 256 * d)) * 2 ^ 8 + s =
        ap₂ bit_or (omega arith) (omega arith)
        ∙ join_low 24 8 s (b + 256 * (c + 256 * d)) (omega arith) (omega arith) in
      le_bytes_lem (high_word 1 x v) s b c d hs hb hc hd (omega (arith, word))

  pub low_2 : le_bytes 4 (low_word 2 x v) ≡ a ∷ b ∷ p ∷ q ∷ []
  low_2 =
      let word : low_word 2 x v ≡ (p + 256 * q) * 2 ^ 16 + (a + 256 * b) =
        ap₂ bit_or (omega arith) (omega arith)
        ∙ join_high 16 (a + 256 * b) (p + 256 * q) (omega arith) in
      le_bytes_lem (low_word 2 x v) a b p q ha hb hp hq (omega (arith, word))

  pub high_2 : le_bytes 4 (high_word 2 x v) ≡ r ∷ s ∷ c ∷ d ∷ []
  high_2 =
      let word : high_word 2 x v ≡ (c + 256 * d) * 2 ^ 16 + (r + 256 * s) =
        ap₂ bit_or (omega arith) (omega arith)
        ∙ join_low 16 16 (r + 256 * s) (c + 256 * d) (omega arith) (omega arith) in
      le_bytes_lem (high_word 2 x v) r s c d hr hs hc hd (omega (arith, word))

  pub low_3 : le_bytes 4 (low_word 3 x v) ≡ a ∷ b ∷ c ∷ p ∷ []
  low_3 =
      let word : low_word 3 x v ≡ p * 2 ^ 24 + (a + 256 * (b + 256 * c)) =
        ap₂ bit_or (omega arith) (omega arith)
        ∙ join_high 24 (a + 256 * (b + 256 * c)) p (omega arith) in
      le_bytes_lem (low_word 3 x v) a b c p ha hb hc hp (omega (arith, word))

  pub high_3 : le_bytes 4 (high_word 3 x v) ≡ q ∷ r ∷ s ∷ d ∷ []
  high_3 =
      let word : high_word 3 x v ≡ d * 2 ^ 24 + (q + 256 * (r + 256 * s)) =
        ap₂ bit_or (omega arith) (omega arith)
        ∙ join_low 8 24 (q + 256 * (r + 256 * s)) d (omega arith) (omega arith) in
      le_bytes_lem (high_word 3 x v) q r s d hq hr hs hd (omega (arith, word))

-- The bytes of a word.
abbrev pub byte_0 : ℕ → ℕ
byte_0 v = v % 256

abbrev pub byte_1 : ℕ → ℕ
byte_1 v = v / 256 % 256

abbrev pub byte_2 : ℕ → ℕ
byte_2 v = v / 256 / 256 % 256

abbrev pub byte_3 : ℕ → ℕ
byte_3 v = v / 256 / 256 / 256 % 256

pub value_bytes :
    (v : ℕ)
    → v < 2 ^ 32
    → v ≡ byte_0 v + 256 * (byte_1 v + 256 * (byte_2 v + 256 * (byte_3 v + 256 * 0)))
value_bytes v n = omega arith
