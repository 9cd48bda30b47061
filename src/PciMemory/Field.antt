-- ===== src/PciMemory/Field.antt =====
-- `pci_write8` and `pci_write16` of kernel/pci/pci_mmio.c inside one word.
use ninjastorms.Prelude.{
  ℕ, zero, suc, ◌+◌, ◌-◌, ◌*◌, ◌/◌, ◌%◌, ◌^◌, ◌<◌, ◌≡◌, ◌≢◌, refl, ap, sym, ◌∙◌, false, [], ◌∷◌,
  arith, bit_and, bit_or, ◌==◌,
}
use ninjastorms.Memory.{Memory}
use ninjastorms.Memory.Bytes.{store_bytes}
use ninjastorms.Device.{History}
use ninjastorms.PciMemory.{shift_left, pci_read32, write_word, pci_write8, pci_write16}
use ninjastorms.PciMemory.Ram.{le_value, le_bytes, replay, ram, AllBytes, le_bytes_lem, le_value-lt}
use ninjastorms.PciMemory.Word.{replace_field, replaced}

-- The word with a value of the field `ones` at byte `l`.
abbrev field_word : ℕ → ℕ → ℕ → ℕ → ℕ
field_word ones l x v =
    bit_or (bit_and x (2 ^ 32 - 1 - shift_left ones (l * 8))) (shift_left v (l * 8))

module _ (x v a b c d : ℕ) (ex : x ≡ a + 256 * (b + 256 * (c + 256 * (d + 256 * 0)))) (ha : a < 256)
    (hb : b < 256) (hc : c < 256) (hd : d < 256) where
  field_8_0 : v < 2 ^ 8 → le_bytes 4 (field_word (2 ^ 8 - 1) 0 x v) ≡ v ∷ b ∷ c ∷ d ∷ []
  field_8_0 hv =
      let shifted : shift_left v 0 ≡ v * 2 ^ 0 = omega arith in
      let word : field_word (2 ^ 8 - 1) 0 x v ≡ replaced 8 0 x v =
        ap (bit_or (bit_and x (2 ^ 32 - 1 - shift_left (2 ^ 8 - 1) 0))) shifted
        ∙ replace_field 24 8 0 x v (2 ^ 32 - 1 - shift_left (2 ^ 8 - 1) 0) refl (omega arith) hv in
      le_bytes_lem (field_word (2 ^ 8 - 1) 0 x v) v b c d (omega arith) hb hc hd
        (omega (arith, word))

  field_8_1 : v < 2 ^ 8 → le_bytes 4 (field_word (2 ^ 8 - 1) 1 x v) ≡ a ∷ v ∷ c ∷ d ∷ []
  field_8_1 hv =
      let shifted : shift_left v 8 ≡ v * 2 ^ 8 = omega arith in
      let word : field_word (2 ^ 8 - 1) 1 x v ≡ replaced 8 8 x v =
        ap (bit_or (bit_and x (2 ^ 32 - 1 - shift_left (2 ^ 8 - 1) 8))) shifted
        ∙ replace_field 16 8 8 x v (2 ^ 32 - 1 - shift_left (2 ^ 8 - 1) 8) refl (omega arith) hv in
      le_bytes_lem (field_word (2 ^ 8 - 1) 1 x v) a v c d ha (omega arith) hc hd
        (omega (arith, word))

  field_8_2 : v < 2 ^ 8 → le_bytes 4 (field_word (2 ^ 8 - 1) 2 x v) ≡ a ∷ b ∷ v ∷ d ∷ []
  field_8_2 hv =
      let shifted : shift_left v 16 ≡ v * 2 ^ 16 = omega arith in
      let word : field_word (2 ^ 8 - 1) 2 x v ≡ replaced 8 16 x v =
        ap (bit_or (bit_and x (2 ^ 32 - 1 - shift_left (2 ^ 8 - 1) 16))) shifted
        ∙ replace_field 8 8 16 x v (2 ^ 32 - 1 - shift_left (2 ^ 8 - 1) 16) refl (omega arith) hv in
      le_bytes_lem (field_word (2 ^ 8 - 1) 2 x v) a b v d ha hb (omega arith) hd
        (omega (arith, word))

  field_8_3 : v < 2 ^ 8 → le_bytes 4 (field_word (2 ^ 8 - 1) 3 x v) ≡ a ∷ b ∷ c ∷ v ∷ []
  field_8_3 hv =
      let shifted : shift_left v 24 ≡ v * 2 ^ 24 = omega arith in
      let word : field_word (2 ^ 8 - 1) 3 x v ≡ replaced 8 24 x v =
        ap (bit_or (bit_and x (2 ^ 32 - 1 - shift_left (2 ^ 8 - 1) 24))) shifted
        ∙ replace_field 0 8 24 x v (2 ^ 32 - 1 - shift_left (2 ^ 8 - 1) 24) refl (omega arith) hv in
      le_bytes_lem (field_word (2 ^ 8 - 1) 3 x v) a b c v ha hb hc (omega arith)
        (omega (arith, word))

  field_16_0 :
      v < 2 ^ 16 → le_bytes 4 (field_word (2 ^ 16 - 1) 0 x v) ≡ (v % 256) ∷ (v / 256) ∷ c ∷ d ∷ []
  field_16_0 hv =
      let shifted : shift_left v 0 ≡ v * 2 ^ 0 = omega arith in
      let word : field_word (2 ^ 16 - 1) 0 x v ≡ replaced 16 0 x v =
        ap (bit_or (bit_and x (2 ^ 32 - 1 - shift_left (2 ^ 16 - 1) 0))) shifted
        ∙ replace_field 16 16 0 x v (2 ^ 32 - 1 - shift_left (2 ^ 16 - 1) 0) refl (omega arith)
            hv in
      le_bytes_lem (field_word (2 ^ 16 - 1) 0 x v) (v % 256) (v / 256) c d (omega arith)
        (omega arith) hc hd (omega (arith, word))

  field_16_1 :
      v < 2 ^ 16 → le_bytes 4 (field_word (2 ^ 16 - 1) 1 x v) ≡ a ∷ (v % 256) ∷ (v / 256) ∷ d ∷ []
  field_16_1 hv =
      let shifted : shift_left v 8 ≡ v * 2 ^ 8 = omega arith in
      let word : field_word (2 ^ 16 - 1) 1 x v ≡ replaced 16 8 x v =
        ap (bit_or (bit_and x (2 ^ 32 - 1 - shift_left (2 ^ 16 - 1) 8))) shifted
        ∙ replace_field 8 16 8 x v (2 ^ 32 - 1 - shift_left (2 ^ 16 - 1) 8) refl (omega arith) hv in
      le_bytes_lem (field_word (2 ^ 16 - 1) 1 x v) a (v % 256) (v / 256) d ha (omega arith)
        (omega arith) hd (omega (arith, word))

  field_16_2 :
      v < 2 ^ 16 → le_bytes 4 (field_word (2 ^ 16 - 1) 2 x v) ≡ a ∷ b ∷ (v % 256) ∷ (v / 256) ∷ []
  field_16_2 hv =
      let shifted : shift_left v 16 ≡ v * 2 ^ 16 = omega arith in
      let word : field_word (2 ^ 16 - 1) 2 x v ≡ replaced 16 16 x v =
        ap (bit_or (bit_and x (2 ^ 32 - 1 - shift_left (2 ^ 16 - 1) 16))) shifted
        ∙ replace_field 0 16 16 x v (2 ^ 32 - 1 - shift_left (2 ^ 16 - 1) 16) refl (omega arith)
            hv in
      le_bytes_lem (field_word (2 ^ 16 - 1) 2 x v) a b (v % 256) (v / 256) ha hb (omega arith)
        (omega arith) (omega (arith, word))

write8-run :
    (w l v : ℕ) (m : Memory) (h : History)
    → w % 4 ≡ 0
    → l < 4
    → AllBytes (replay h m)
    → replay (pci_write8 (w + l) v (ram m) h).1 m
      ≡ store_bytes w (le_bytes 4 (field_word 0xFF l (le_value 4 (replay h m) w) v)) (replay h m)
unfolding pci_write8 pci_read32 write_word
write8-run w l v m h al hi bytes =
    let o : (w + l) % 4 ≡ l = omega arith in
    let e : w + l - l ≡ w = omega arith in
    let x : le_value 4 (replay h m) w % 2 ^ 32 ≡ le_value 4 (replay h m) w =
      omega (arith, le_value-lt (replay h m) w bytes) in
    rw (o, e, x) refl

write16-run :
    (w l v : ℕ) (m : Memory) (h : History)
    → w % 4 ≡ 0
    → l < 3
    → AllBytes (replay h m)
    → replay (pci_write16 (w + l) v (ram m) h).1 m
      ≡ store_bytes w (le_bytes 4 (field_word 0xFFFF l (le_value 4 (replay h m) w) v)) (replay h m)
unfolding pci_write16 pci_read32 write_word
write16-run w l v m h al hi bytes =
    let o : (w + l) % 4 ≡ l = omega arith in
    let t : (l == 3) ≡ false = ground arith in
    let e : w + l - l ≡ w = omega arith in
    let x : le_value 4 (replay h m) w % 2 ^ 32 ≡ le_value 4 (replay h m) w =
      omega (arith, le_value-lt (replay h m) w bytes) in
    rw (o, t, e, x) refl

module _ (m : Memory) (bytes : AllBytes m) (w v : ℕ) where
  pub two_bytes : v < 2 ^ 16 → le_bytes 2 v ≡ v % 256 ∷ v / 256 ∷ []
  unfolding le_bytes
  two_bytes n = ap (λ k. v % 256 ∷ k ∷ []) (omega arith)

  one_byte : v < 2 ^ 8 → le_bytes 1 v ≡ v ∷ []
  unfolding le_bytes
  one_byte n = ap (λ k. k ∷ []) (omega arith)

  stored_8_0 :
      (b : ℕ)
      → v < 2 ^ 8
      → store_bytes w (le_bytes 4 (field_word (2 ^ 8 - 1) 0 (le_value 4 m w) v)) m b
        ≡ store_bytes (w + 0) (le_bytes 1 v) m b
  unfolding store_bytes le_value
  stored_8_0 b n =
      ap (λ xs. store_bytes w xs m b)
        (field_8_0 (le_value 4 m w) v (m w) (m (w + 1)) (m (w + 1 + 1)) (m (w + 1 + 1 + 1)) refl
          (bytes _) (bytes _) (bytes _) (bytes _) n)
      ∙ ground arith
      ∙ ap (λ ys. store_bytes (w + 0) ys m b) (sym (one_byte n))

  stored_8_1 :
      (b : ℕ)
      → v < 2 ^ 8
      → store_bytes w (le_bytes 4 (field_word (2 ^ 8 - 1) 1 (le_value 4 m w) v)) m b
        ≡ store_bytes (w + 1) (le_bytes 1 v) m b
  unfolding store_bytes le_value
  stored_8_1 b n =
      ap (λ xs. store_bytes w xs m b)
        (field_8_1 (le_value 4 m w) v (m w) (m (w + 1)) (m (w + 1 + 1)) (m (w + 1 + 1 + 1)) refl
          (bytes _) (bytes _) (bytes _) (bytes _) n)
      ∙ ground arith
      ∙ ap (λ ys. store_bytes (w + 1) ys m b) (sym (one_byte n))

  stored_8_2 :
      (b : ℕ)
      → v < 2 ^ 8
      → store_bytes w (le_bytes 4 (field_word (2 ^ 8 - 1) 2 (le_value 4 m w) v)) m b
        ≡ store_bytes (w + 2) (le_bytes 1 v) m b
  unfolding store_bytes le_value
  stored_8_2 b n =
      ap (λ xs. store_bytes w xs m b)
        (field_8_2 (le_value 4 m w) v (m w) (m (w + 1)) (m (w + 1 + 1)) (m (w + 1 + 1 + 1)) refl
          (bytes _) (bytes _) (bytes _) (bytes _) n)
      ∙ ground arith
      ∙ ap (λ ys. store_bytes (w + 2) ys m b) (sym (one_byte n))

  stored_8_3 :
      (b : ℕ)
      → v < 2 ^ 8
      → store_bytes w (le_bytes 4 (field_word (2 ^ 8 - 1) 3 (le_value 4 m w) v)) m b
        ≡ store_bytes (w + 3) (le_bytes 1 v) m b
  unfolding store_bytes le_value
  stored_8_3 b n =
      ap (λ xs. store_bytes w xs m b)
        (field_8_3 (le_value 4 m w) v (m w) (m (w + 1)) (m (w + 1 + 1)) (m (w + 1 + 1 + 1)) refl
          (bytes _) (bytes _) (bytes _) (bytes _) n)
      ∙ ground arith
      ∙ ap (λ ys. store_bytes (w + 3) ys m b) (sym (one_byte n))

  stored_16_0 :
      (b : ℕ)
      → v < 2 ^ 16
      → store_bytes w (le_bytes 4 (field_word (2 ^ 16 - 1) 0 (le_value 4 m w) v)) m b
        ≡ store_bytes (w + 0) (le_bytes 2 v) m b
  unfolding store_bytes le_value
  stored_16_0 b n =
      ap (λ xs. store_bytes w xs m b)
        (field_16_0 (le_value 4 m w) v (m w) (m (w + 1)) (m (w + 1 + 1)) (m (w + 1 + 1 + 1)) refl
          (bytes _) (bytes _) (bytes _) (bytes _) n)
      ∙ ground arith
      ∙ ap (λ ys. store_bytes (w + 0) ys m b) (sym (two_bytes n))

  stored_16_1 :
      (b : ℕ)
      → v < 2 ^ 16
      → store_bytes w (le_bytes 4 (field_word (2 ^ 16 - 1) 1 (le_value 4 m w) v)) m b
        ≡ store_bytes (w + 1) (le_bytes 2 v) m b
  unfolding store_bytes le_value
  stored_16_1 b n =
      ap (λ xs. store_bytes w xs m b)
        (field_16_1 (le_value 4 m w) v (m w) (m (w + 1)) (m (w + 1 + 1)) (m (w + 1 + 1 + 1)) refl
          (bytes _) (bytes _) (bytes _) (bytes _) n)
      ∙ ground arith
      ∙ ap (λ ys. store_bytes (w + 1) ys m b) (sym (two_bytes n))

  stored_16_2 :
      (b : ℕ)
      → v < 2 ^ 16
      → store_bytes w (le_bytes 4 (field_word (2 ^ 16 - 1) 2 (le_value 4 m w) v)) m b
        ≡ store_bytes (w + 2) (le_bytes 2 v) m b
  unfolding store_bytes le_value
  stored_16_2 b n =
      ap (λ xs. store_bytes w xs m b)
        (field_16_2 (le_value 4 m w) v (m w) (m (w + 1)) (m (w + 1 + 1)) (m (w + 1 + 1 + 1)) refl
          (bytes _) (bytes _) (bytes _) (bytes _) n)
      ∙ ground arith
      ∙ ap (λ ys. store_bytes (w + 2) ys m b) (sym (two_bytes n))

pub write8-stores :
    (a v : ℕ) (m : Memory) (h : History) (b : ℕ)
    → AllBytes (replay h m)
    → v < 2 ^ 8
    → replay (pci_write8 a v (ram m) h).1 m b ≡ store_bytes a (le_bytes 1 v) (replay h m) b
write8-stores a v m h b bytes n = go (a % 4) refl
  where
    at : (l : ℕ) → a % 4 ≡ l → a ≡ a - l + l
    at l e = omega arith

    go :
        (l : ℕ)
        → a % 4 ≡ l
        → replay (pci_write8 a v (ram m) h).1 m b ≡ store_bytes a (le_bytes 1 v) (replay h m) b
    go zero e = rw (at 0 e) (
        ap (λ k. k b) (write8-run (a - 0) 0 v m h (omega arith) (omega arith) bytes)
        ∙ stored_8_0 (replay h m) bytes (a - 0) v b n)
    go (suc zero) e = rw (at 1 e) (
        ap (λ k. k b) (write8-run (a - 1) 1 v m h (omega arith) (omega arith) bytes)
        ∙ stored_8_1 (replay h m) bytes (a - 1) v b n)
    go (suc (suc zero)) e = rw (at 2 e) (
        ap (λ k. k b) (write8-run (a - 2) 2 v m h (omega arith) (omega arith) bytes)
        ∙ stored_8_2 (replay h m) bytes (a - 2) v b n)
    go (suc (suc (suc zero))) e = rw (at 3 e) (
        ap (λ k. k b) (write8-run (a - 3) 3 v m h (omega arith) (omega arith) bytes)
        ∙ stored_8_3 (replay h m) bytes (a - 3) v b n)
    go (suc (suc (suc (suc l)))) e = absurd (omega arith)

-- Inside one word.
pub write16-stores-inside :
    (a v : ℕ) (m : Memory) (h : History) (b : ℕ)
    → AllBytes (replay h m)
    → v < 2 ^ 16
    → a % 4 ≢ 3
    → replay (pci_write16 a v (ram m) h).1 m b ≡ store_bytes a (le_bytes 2 v) (replay h m) b
write16-stores-inside a v m h b bytes n inside = go (a % 4) refl
  where
    at : (l : ℕ) → a % 4 ≡ l → a ≡ a - l + l
    at l e = omega arith

    go :
        (l : ℕ)
        → a % 4 ≡ l
        → replay (pci_write16 a v (ram m) h).1 m b ≡ store_bytes a (le_bytes 2 v) (replay h m) b
    go zero e = rw (at 0 e) (
        ap (λ k. k b) (write16-run (a - 0) 0 v m h (omega arith) (omega arith) bytes)
        ∙ stored_16_0 (replay h m) bytes (a - 0) v b n)
    go (suc zero) e = rw (at 1 e) (
        ap (λ k. k b) (write16-run (a - 1) 1 v m h (omega arith) (omega arith) bytes)
        ∙ stored_16_1 (replay h m) bytes (a - 1) v b n)
    go (suc (suc zero)) e = rw (at 2 e) (
        ap (λ k. k b) (write16-run (a - 2) 2 v m h (omega arith) (omega arith) bytes)
        ∙ stored_16_2 (replay h m) bytes (a - 2) v b n)
    go (suc (suc (suc l))) e = absurd (omega arith)
