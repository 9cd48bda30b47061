-- ===== src/PciMemory/Parts.antt =====
-- The words that `pci_write64` of kernel/pci/pci_mmio.c reads and writes at an unaligned address.
use ninjastorms.Prelude.{
  ℕ, ◌+◌, ◌-◌, ◌*◌, ◌/◌, ◌%◌, ◌^◌, ◌<◌, ◌≤◌, ◌≡◌, refl, false, List, [], ◌∷◌, arith, bit_or, ◌==◌,
}
use ninjastorms.Memory.{Memory}
use ninjastorms.Memory.Bytes.{store_bytes}
use ninjastorms.Device.{History}
use ninjastorms.PciMemory.{shift_left, shift_right, pci_read32, write_word, pci_write64}
use ninjastorms.PciMemory.Ram.{
  le_value, le_bytes, replay, ram, AllBytes, le_value-lt, le_value-store, length-le_bytes,
}
use ninjastorms.PciMemory.Halves.{byte_0, byte_1, byte_2, byte_3}
use ninjastorms.PciMemory.Unaligned.{two_words}

-- The words that the code puts together.
abbrev pub lower : ℕ → ℕ → ℕ → ℕ
lower l x v =
    bit_or (shift_right (shift_left x ((4 - l) * 8)) ((4 - l) * 8))
      (v * 2 ^ (l * 8) % 2 ^ 64 % 2 ^ 32)

abbrev pub middle : ℕ → ℕ → ℕ
middle l v = shift_right v ((4 - l) * 8) % 2 ^ 32

abbrev pub upper : ℕ → ℕ → ℕ → ℕ
upper l y v =
    bit_or (shift_left (shift_right y (l * 8)) (l * 8)) (shift_right v ((4 - l + 4) * 8) % 2 ^ 32)

abbrev pub three_words : ℕ → ℕ → ℕ → ℕ → Memory → Memory
three_words w x z y m = store_bytes (w + 8) (le_bytes 4 y) (two_words w x z m)

pub write64-run :
    (w l v : ℕ) (m : Memory) (h : History)
    → w % 4 ≡ 0
    → 0 < l
    → l < 4
    → w + 12 ≤ 2 ^ 32
    → AllBytes (replay h m)
    → replay (pci_write64 (w + l) v (ram m) h).1 m
      ≡ three_words w
          (lower l (le_value 4 (replay h m) w) v)
          (middle l v)
          (upper l (le_value 4 (replay h m) (w + 8)) v)
          (replay h m)
unfolding pci_write64 pci_read32 write_word
write64-run w l v m h al lo hi room bytes =
    let o : (w + l) % 4 ≡ l = omega arith in
    let t : (l == 0) ≡ false = ground arith in
    let e : w + l - l ≡ w = omega arith in
    let e' : (w + l + (4 - l)) % 2 ^ 32 ≡ w + 4 = omega arith in
    let e'' : (w + l + 4 + (4 - l)) % 2 ^ 32 ≡ w + 8 = omega arith in
    let x : le_value 4 (replay h m) w % 2 ^ 32 ≡ le_value 4 (replay h m) w =
      omega (arith, le_value-lt (replay h m) w bytes) in
    let low = lower l (le_value 4 (replay h m) w) v in
    let first = store_bytes w (le_bytes 4 low) (replay h m) in
    let y : le_value 4 (store_bytes (w + 4) (le_bytes 4 (middle l v)) first) (w + 8) % 2 ^ 32
        ≡ le_value 4 (replay h m) (w + 8) =
      omega (
        arith,
        le_value-lt (replay h m) (w + 8) bytes,
        le_value-store first (w + 4) (w + 8) (le_bytes 4 (middle l v))
            (omega (arith, length-le_bytes 4 (middle l v))),
        le_value-store (replay h m) w (w + 8) (le_bytes 4 low)
            (omega (arith, length-le_bytes 4 low)),
      ) in
    rw (o, t, e, e', e'', x, y) refl

-- The bytes of a value of 64 bits.
pub eight_bytes :
    (v : ℕ)
    → le_bytes 8 v
      ≡ byte_0 (v % 2 ^ 32)
        ∷ byte_1 (v % 2 ^ 32)
        ∷ byte_2 (v % 2 ^ 32)
        ∷ byte_3 (v % 2 ^ 32)
        ∷ byte_0 (v / 2 ^ 32)
        ∷ byte_1 (v / 2 ^ 32)
        ∷ byte_2 (v / 2 ^ 32)
        ∷ byte_3 (v / 2 ^ 32)
        ∷ []
unfolding le_bytes
eight_bytes v = λ i. e0 i ∷ e1 i ∷ e2 i ∷ e3 i ∷ e4 i ∷ e5 i ∷ e6 i ∷ e7 i ∷ []
  where
    e0 : v % 256 ≡ byte_0 (v % 2 ^ 32)
    e0 = omega arith

    e1 : v / 256 % 256 ≡ byte_1 (v % 2 ^ 32)
    e1 = omega arith

    e2 : v / 256 / 256 % 256 ≡ byte_2 (v % 2 ^ 32)
    e2 = omega arith

    e3 : v / 256 / 256 / 256 % 256 ≡ byte_3 (v % 2 ^ 32)
    e3 = omega arith

    e4 : v / 256 / 256 / 256 / 256 % 256 ≡ byte_0 (v / 2 ^ 32)
    e4 = omega arith

    e5 : v / 256 / 256 / 256 / 256 / 256 % 256 ≡ byte_1 (v / 2 ^ 32)
    e5 = omega arith

    e6 : v / 256 / 256 / 256 / 256 / 256 / 256 % 256 ≡ byte_2 (v / 2 ^ 32)
    e6 = omega arith

    e7 : v / 256 / 256 / 256 / 256 / 256 / 256 / 256 % 256 ≡ byte_3 (v / 2 ^ 32)
    e7 = omega arith

-- Eight bytes across three words, whatever they are.
module _ (m : Memory) (w b p₀ p₁ p₂ p₃ p₄ p₅ p₆ p₇ : ℕ) where
  abbrev across : List ℕ → List ℕ → List ℕ → ℕ
  across xs zs ys = store_bytes (w + 8) ys (store_bytes (w + 4) zs (store_bytes w xs m)) b

  pub across_1 :
      across
        (m (w) ∷ p₀ ∷ p₁ ∷ p₂ ∷ [])
        (p₃ ∷ p₄ ∷ p₅ ∷ p₆ ∷ [])
        (p₇ ∷ m (w + 8 + 1) ∷ m (w + 8 + 1 + 1) ∷ m (w + 8 + 1 + 1 + 1) ∷ [])
      ≡ store_bytes (w + 1) (p₀ ∷ p₁ ∷ p₂ ∷ p₃ ∷ p₄ ∷ p₅ ∷ p₆ ∷ p₇ ∷ []) m b
  unfolding store_bytes
  across_1 = ground arith

  pub across_2 :
      across
        (m (w) ∷ m (w + 1) ∷ p₀ ∷ p₁ ∷ [])
        (p₂ ∷ p₃ ∷ p₄ ∷ p₅ ∷ [])
        (p₆ ∷ p₇ ∷ m (w + 8 + 1 + 1) ∷ m (w + 8 + 1 + 1 + 1) ∷ [])
      ≡ store_bytes (w + 2) (p₀ ∷ p₁ ∷ p₂ ∷ p₃ ∷ p₄ ∷ p₅ ∷ p₆ ∷ p₇ ∷ []) m b
  unfolding store_bytes
  across_2 = ground arith

  pub across_3 :
      across
        (m (w) ∷ m (w + 1) ∷ m (w + 1 + 1) ∷ p₀ ∷ [])
        (p₁ ∷ p₂ ∷ p₃ ∷ p₄ ∷ [])
        (p₅ ∷ p₆ ∷ p₇ ∷ m (w + 8 + 1 + 1 + 1) ∷ [])
      ≡ store_bytes (w + 3) (p₀ ∷ p₁ ∷ p₂ ∷ p₃ ∷ p₄ ∷ p₅ ∷ p₆ ∷ p₇ ∷ []) m b
  unfolding store_bytes
  across_3 = ground arith
