-- ===== src/PciMemory/Double.antt =====
-- `pci_write64` of kernel/pci/pci_mmio.c as a store of eight bytes.
use mathlib.Core.Path.{ap₂}
use ninjastorms.Prelude.{
  ℕ, zero, suc, ◌+◌, ◌-◌, ◌/◌, ◌%◌, ◌^◌, ◌<◌, ◌≤◌, ◌≡◌, refl, ap, sym, ◌∙◌, List, [], ◌∷◌, arith,
  bit_or,
}
use ninjastorms.Memory.{Memory}
use ninjastorms.Memory.Bytes.{store_bytes}
use ninjastorms.Device.{History}
use ninjastorms.PciMemory.{write_word, pci_write64}
use ninjastorms.PciMemory.Ram.{le_value, le_bytes, replay, ram, AllBytes, le_bytes_lem}
use ninjastorms.PciMemory.Halves.{
  low_word, high_word, low_1, high_1, low_2, high_2, low_3, high_3, byte_0, byte_1, byte_2, byte_3,
  value_bytes,
}
use ninjastorms.PciMemory.Parts.{
  lower, middle, upper, three_words, write64-run, eight_bytes, across_1, across_2, across_3,
}

module _ (m : Memory) (bytes : AllBytes m) (w v : ℕ) (n : v < 2 ^ 64) where
  abbrev stored : ℕ → Memory
  stored l =
      three_words w (lower l (le_value 4 m w) v) (middle l v) (upper l (le_value 4 m (w + 8)) v) m

  stored_1 : (b : ℕ) → stored 1 b ≡ store_bytes (w + 1) (le_bytes 8 v) m b
  unfolding store_bytes le_value
  stored_1 b =
      let lo : lower 1 (le_value 4 m w) v ≡ low_word 1 (le_value 4 m w) (v % 2 ^ 32) =
        ap₂ bit_or refl (omega arith) in
      let hi : upper 1 (le_value 4 m (w + 8)) v ≡ high_word 1 (le_value 4 m (w + 8)) (v / 2 ^ 32) =
        ap₂ bit_or refl (omega arith) in
      let low =
        ap (le_bytes 4) lo
        ∙ low_1 (le_value 4 m w) (v % 2 ^ 32) (m w) (m (w + 1)) (m (w + 1 + 1)) (m (w + 1 + 1 + 1))
            (byte_0 (v % 2 ^ 32)) (byte_1 (v % 2 ^ 32)) (byte_2 (v % 2 ^ 32)) (byte_3 (v % 2 ^ 32))
            refl (value_bytes (v % 2 ^ 32) (omega arith)) (bytes _) (bytes _) (bytes _) (bytes _)
            (omega arith) (omega arith) (omega arith) (omega arith) in
      let high =
        ap (le_bytes 4) hi
        ∙ high_1 (le_value 4 m (w + 8)) (v / 2 ^ 32) (m (w + 8)) (m (w + 8 + 1)) (m (w + 8 + 1 + 1))
            (m (w + 8 + 1 + 1 + 1)) (byte_0 (v / 2 ^ 32)) (byte_1 (v / 2 ^ 32))
            (byte_2 (v / 2 ^ 32)) (byte_3 (v / 2 ^ 32)) refl
            (value_bytes (v / 2 ^ 32) (omega arith)) (bytes _) (bytes _) (bytes _) (bytes _)
            (omega arith) (omega arith) (omega arith) (omega arith) in
      let mid : le_bytes 4 (middle 1 v)
          ≡ byte_3 (v % 2 ^ 32)
            ∷ byte_0 (v / 2 ^ 32)
            ∷ byte_1 (v / 2 ^ 32)
            ∷ byte_2 (v / 2 ^ 32)
            ∷ [] =
        le_bytes_lem (middle 1 v) (byte_3 (v % 2 ^ 32)) (byte_0 (v / 2 ^ 32)) (byte_1 (v / 2 ^ 32))
          (byte_2 (v / 2 ^ 32)) (omega arith) (omega arith) (omega arith) (omega arith)
          (omega arith) in
      ap₂
        (λ ys zs.
          store_bytes (w + 8) ys
            (store_bytes (w + 4) zs (store_bytes w (le_bytes 4 (lower 1 (le_value 4 m w) v)) m)) b)
        high mid
      ∙ ap
          (λ xs.
            store_bytes (w + 8)
              (byte_3 (v / 2 ^ 32) ∷ m (w + 8 + 1) ∷ m (w + 8 + 1 + 1) ∷ m (w + 8 + 1 + 1 + 1) ∷ [])
              (store_bytes (w + 4)
                (byte_3 (v % 2 ^ 32)
                  ∷ byte_0 (v / 2 ^ 32)
                  ∷ byte_1 (v / 2 ^ 32)
                  ∷ byte_2 (v / 2 ^ 32)
                  ∷ [])
                (store_bytes w xs m))
              b)
          low
      ∙ across_1 m w b (byte_0 (v % 2 ^ 32)) (byte_1 (v % 2 ^ 32)) (byte_2 (v % 2 ^ 32))
          (byte_3 (v % 2 ^ 32)) (byte_0 (v / 2 ^ 32)) (byte_1 (v / 2 ^ 32)) (byte_2 (v / 2 ^ 32))
          (byte_3 (v / 2 ^ 32))
      ∙ ap (λ xs. store_bytes (w + 1) xs m b) (sym (eight_bytes v))

  stored_2 : (b : ℕ) → stored 2 b ≡ store_bytes (w + 2) (le_bytes 8 v) m b
  unfolding store_bytes le_value
  stored_2 b =
      let lo : lower 2 (le_value 4 m w) v ≡ low_word 2 (le_value 4 m w) (v % 2 ^ 32) =
        ap₂ bit_or refl (omega arith) in
      let hi : upper 2 (le_value 4 m (w + 8)) v ≡ high_word 2 (le_value 4 m (w + 8)) (v / 2 ^ 32) =
        ap₂ bit_or refl (omega arith) in
      let low =
        ap (le_bytes 4) lo
        ∙ low_2 (le_value 4 m w) (v % 2 ^ 32) (m w) (m (w + 1)) (m (w + 1 + 1)) (m (w + 1 + 1 + 1))
            (byte_0 (v % 2 ^ 32)) (byte_1 (v % 2 ^ 32)) (byte_2 (v % 2 ^ 32)) (byte_3 (v % 2 ^ 32))
            refl (value_bytes (v % 2 ^ 32) (omega arith)) (bytes _) (bytes _) (bytes _) (bytes _)
            (omega arith) (omega arith) (omega arith) (omega arith) in
      let high =
        ap (le_bytes 4) hi
        ∙ high_2 (le_value 4 m (w + 8)) (v / 2 ^ 32) (m (w + 8)) (m (w + 8 + 1)) (m (w + 8 + 1 + 1))
            (m (w + 8 + 1 + 1 + 1)) (byte_0 (v / 2 ^ 32)) (byte_1 (v / 2 ^ 32))
            (byte_2 (v / 2 ^ 32)) (byte_3 (v / 2 ^ 32)) refl
            (value_bytes (v / 2 ^ 32) (omega arith)) (bytes _) (bytes _) (bytes _) (bytes _)
            (omega arith) (omega arith) (omega arith) (omega arith) in
      let mid : le_bytes 4 (middle 2 v)
          ≡ byte_2 (v % 2 ^ 32)
            ∷ byte_3 (v % 2 ^ 32)
            ∷ byte_0 (v / 2 ^ 32)
            ∷ byte_1 (v / 2 ^ 32)
            ∷ [] =
        le_bytes_lem (middle 2 v) (byte_2 (v % 2 ^ 32)) (byte_3 (v % 2 ^ 32)) (byte_0 (v / 2 ^ 32))
          (byte_1 (v / 2 ^ 32)) (omega arith) (omega arith) (omega arith) (omega arith)
          (omega arith) in
      ap₂
        (λ ys zs.
          store_bytes (w + 8) ys
            (store_bytes (w + 4) zs (store_bytes w (le_bytes 4 (lower 2 (le_value 4 m w) v)) m)) b)
        high mid
      ∙ ap
          (λ xs.
            store_bytes (w + 8)
              (byte_2 (v / 2 ^ 32)
                ∷ byte_3 (v / 2 ^ 32)
                ∷ m (w + 8 + 1 + 1)
                ∷ m (w + 8 + 1 + 1 + 1)
                ∷ [])
              (store_bytes (w + 4)
                (byte_2 (v % 2 ^ 32)
                  ∷ byte_3 (v % 2 ^ 32)
                  ∷ byte_0 (v / 2 ^ 32)
                  ∷ byte_1 (v / 2 ^ 32)
                  ∷ [])
                (store_bytes w xs m))
              b)
          low
      ∙ across_2 m w b (byte_0 (v % 2 ^ 32)) (byte_1 (v % 2 ^ 32)) (byte_2 (v % 2 ^ 32))
          (byte_3 (v % 2 ^ 32)) (byte_0 (v / 2 ^ 32)) (byte_1 (v / 2 ^ 32)) (byte_2 (v / 2 ^ 32))
          (byte_3 (v / 2 ^ 32))
      ∙ ap (λ xs. store_bytes (w + 2) xs m b) (sym (eight_bytes v))

  stored_3 : (b : ℕ) → stored 3 b ≡ store_bytes (w + 3) (le_bytes 8 v) m b
  unfolding store_bytes le_value
  stored_3 b =
      let lo : lower 3 (le_value 4 m w) v ≡ low_word 3 (le_value 4 m w) (v % 2 ^ 32) =
        ap₂ bit_or refl (omega arith) in
      let hi : upper 3 (le_value 4 m (w + 8)) v ≡ high_word 3 (le_value 4 m (w + 8)) (v / 2 ^ 32) =
        ap₂ bit_or refl (omega arith) in
      let low =
        ap (le_bytes 4) lo
        ∙ low_3 (le_value 4 m w) (v % 2 ^ 32) (m w) (m (w + 1)) (m (w + 1 + 1)) (m (w + 1 + 1 + 1))
            (byte_0 (v % 2 ^ 32)) (byte_1 (v % 2 ^ 32)) (byte_2 (v % 2 ^ 32)) (byte_3 (v % 2 ^ 32))
            refl (value_bytes (v % 2 ^ 32) (omega arith)) (bytes _) (bytes _) (bytes _) (bytes _)
            (omega arith) (omega arith) (omega arith) (omega arith) in
      let high =
        ap (le_bytes 4) hi
        ∙ high_3 (le_value 4 m (w + 8)) (v / 2 ^ 32) (m (w + 8)) (m (w + 8 + 1)) (m (w + 8 + 1 + 1))
            (m (w + 8 + 1 + 1 + 1)) (byte_0 (v / 2 ^ 32)) (byte_1 (v / 2 ^ 32))
            (byte_2 (v / 2 ^ 32)) (byte_3 (v / 2 ^ 32)) refl
            (value_bytes (v / 2 ^ 32) (omega arith)) (bytes _) (bytes _) (bytes _) (bytes _)
            (omega arith) (omega arith) (omega arith) (omega arith) in
      let mid : le_bytes 4 (middle 3 v)
          ≡ byte_1 (v % 2 ^ 32)
            ∷ byte_2 (v % 2 ^ 32)
            ∷ byte_3 (v % 2 ^ 32)
            ∷ byte_0 (v / 2 ^ 32)
            ∷ [] =
        le_bytes_lem (middle 3 v) (byte_1 (v % 2 ^ 32)) (byte_2 (v % 2 ^ 32)) (byte_3 (v % 2 ^ 32))
          (byte_0 (v / 2 ^ 32)) (omega arith) (omega arith) (omega arith) (omega arith)
          (omega arith) in
      ap₂
        (λ ys zs.
          store_bytes (w + 8) ys
            (store_bytes (w + 4) zs (store_bytes w (le_bytes 4 (lower 3 (le_value 4 m w) v)) m)) b)
        high mid
      ∙ ap
          (λ xs.
            store_bytes (w + 8)
              (byte_1 (v / 2 ^ 32)
                ∷ byte_2 (v / 2 ^ 32)
                ∷ byte_3 (v / 2 ^ 32)
                ∷ m (w + 8 + 1 + 1 + 1)
                ∷ [])
              (store_bytes (w + 4)
                (byte_1 (v % 2 ^ 32)
                  ∷ byte_2 (v % 2 ^ 32)
                  ∷ byte_3 (v % 2 ^ 32)
                  ∷ byte_0 (v / 2 ^ 32)
                  ∷ [])
                (store_bytes w xs m))
              b)
          low
      ∙ across_3 m w b (byte_0 (v % 2 ^ 32)) (byte_1 (v % 2 ^ 32)) (byte_2 (v % 2 ^ 32))
          (byte_3 (v % 2 ^ 32)) (byte_0 (v / 2 ^ 32)) (byte_1 (v / 2 ^ 32)) (byte_2 (v / 2 ^ 32))
          (byte_3 (v / 2 ^ 32))
      ∙ ap (λ xs. store_bytes (w + 3) xs m b) (sym (eight_bytes v))

write64-aligned :
    (w v : ℕ) (m : Memory) (h : History) (b : ℕ)
    → w % 4 ≡ 0
    → w + 12 ≤ 2 ^ 32
    → v < 2 ^ 64
    → replay (pci_write64 w v (ram m) h).1 m b ≡ store_bytes w (le_bytes 8 v) (replay h m) b
unfolding pci_write64 write_word store_bytes
write64-aligned w v m h b al room n =
    let e : (w + 4) % 2 ^ 32 ≡ w + 4 = omega arith in
    let x = four_bytes (v % 2 ^ 32) (omega arith) in
    let y : le_bytes 4 (v / 2 ^ 32 % 2 ^ 32) ≡ four (v / 2 ^ 32) =
      ap (le_bytes 4) (omega arith) ∙ four_bytes (v / 2 ^ 32) (omega arith) in
    rw (al, e, x, y, eight_bytes v) (ground arith)
  where
    four : ℕ → List ℕ
    four u = byte_0 u ∷ byte_1 u ∷ byte_2 u ∷ byte_3 u ∷ []

    four_bytes : (u : ℕ) → u < 2 ^ 32 → le_bytes 4 u ≡ four u
    four_bytes u h =
        le_bytes_lem u (byte_0 u) (byte_1 u) (byte_2 u) (byte_3 u) (omega arith) (omega arith)
          (omega arith) (omega arith) (omega arith)

pub write64-stores :
    (a v : ℕ) (m : Memory) (h : History) (b : ℕ)
    → AllBytes (replay h m)
    → a + 12 ≤ 2 ^ 32
    → v < 2 ^ 64
    → replay (pci_write64 a v (ram m) h).1 m b ≡ store_bytes a (le_bytes 8 v) (replay h m) b
write64-stores a v m h b bytes room n = go (a % 4) refl
  where
    at : (l : ℕ) → a % 4 ≡ l → a ≡ a - l + l
    at l e = omega arith

    go :
        (l : ℕ)
        → a % 4 ≡ l
        → replay (pci_write64 a v (ram m) h).1 m b ≡ store_bytes a (le_bytes 8 v) (replay h m) b
    go zero e = write64-aligned a v m h b e room n
    go (suc zero) e = rw (at 1 e) (
        ap (λ k. k b)
          (write64-run (a - 1) 1 v m h (omega arith) (omega arith) (omega arith) (omega arith)
            bytes)
        ∙ stored_1 (replay h m) bytes (a - 1) v n b)
    go (suc (suc zero)) e = rw (at 2 e) (
        ap (λ k. k b)
          (write64-run (a - 2) 2 v m h (omega arith) (omega arith) (omega arith) (omega arith)
            bytes)
        ∙ stored_2 (replay h m) bytes (a - 2) v n b)
    go (suc (suc (suc zero))) e = rw (at 3 e) (
        ap (λ k. k b)
          (write64-run (a - 3) 3 v m h (omega arith) (omega arith) (omega arith) (omega arith)
            bytes)
        ∙ stored_3 (replay h m) bytes (a - 3) v n b)
    go (suc (suc (suc (suc l)))) e = absurd (omega arith)
