-- ===== src/PciMemory/Unaligned.antt =====
-- `pci_write32` of kernel/pci/pci_mmio.c as a store of four bytes.
use mathlib.Core.Path.{ap₂}
use ninjastorms.Prelude.{
  ℕ, ◌+◌, ◌-◌, ◌%◌, ◌^◌, ◌<◌, ◌≤◌, ◌≡◌, false, refl, zero, suc, ap, ◌∙◌, arith, ◌==◌,
}
use ninjastorms.Memory.{Memory}
use ninjastorms.Memory.Bytes.{store_bytes}
use ninjastorms.Device.{History}
use ninjastorms.PciMemory.{pci_read32, write_word, pci_write32}
use ninjastorms.PciMemory.Ram.{
  le_value, le_bytes, replay, ram, AllBytes, le_value-lt, le_value-store, length-le_bytes,
}
use ninjastorms.PciMemory.Halves.{
  low_word, high_word, low_1, high_1, low_2, high_2, low_3, high_3, byte_0, byte_1, byte_2, byte_3,
  value_bytes,
}

-- A store of two words.
abbrev pub two_words : ℕ → ℕ → ℕ → Memory → Memory
two_words w x y m = store_bytes (w + 4) (le_bytes 4 y) (store_bytes w (le_bytes 4 x) m)

-- The words that an unaligned write of 32 bits reads and writes.
write32-run :
    (w l v : ℕ) (m : Memory) (h : History)
    → w % 4 ≡ 0
    → 0 < l
    → l < 4
    → w + 8 ≤ 2 ^ 32
    → AllBytes (replay h m)
    → replay (pci_write32 (w + l) v (ram m) h).1 m
      ≡ two_words w
          (low_word l (le_value 4 (replay h m) w) v)
          (high_word l (le_value 4 (replay h m) (w + 4)) v)
          (replay h m)
unfolding pci_write32 pci_read32 write_word
write32-run w l v m h al lo hi room bytes =
    let o : (w + l) % 4 ≡ l = omega arith in
    let t : (l == 0) ≡ false = ground arith in
    let e : w + l - l ≡ w = omega arith in
    let e' : (w + l + (4 - l)) % 2 ^ 32 ≡ w + 4 = omega arith in
    let x : le_value 4 (replay h m) w % 2 ^ 32 ≡ le_value 4 (replay h m) w =
      omega (arith, le_value-lt (replay h m) w bytes) in
    let low = low_word l (le_value 4 (replay h m) w) v in
    let y : le_value 4 (store_bytes w (le_bytes 4 low) (replay h m)) (w + 4) % 2 ^ 32
        ≡ le_value 4 (replay h m) (w + 4) =
      omega (
        arith,
        le_value-lt (replay h m) (w + 4) bytes,
        le_value-store (replay h m) w (w + 4) (le_bytes 4 low)
            (omega (arith, length-le_bytes 4 low)),
      ) in
    rw (o, t, e, e', x, y) refl

-- Two words whose bytes are those of the memory with four bytes stored at byte `l`.
module _ (m : Memory) (bytes : AllBytes m) (w v : ℕ) (n : v < 2 ^ 32) where
  abbrev stored : ℕ → Memory
  stored l = two_words w (low_word l (le_value 4 m w) v) (high_word l (le_value 4 m (w + 4)) v) m

  stored_1 : (b : ℕ) → stored 1 b ≡ store_bytes (w + 1) (le_bytes 4 v) m b
  unfolding store_bytes le_value le_bytes
  stored_1 b =
      let low =
        low_1 (le_value 4 m w) v (m w) (m (w + 1)) (m (w + 1 + 1)) (m (w + 1 + 1 + 1)) (byte_0 v)
          (byte_1 v) (byte_2 v) (byte_3 v) refl (value_bytes v n) (bytes _) (bytes _) (bytes _)
          (bytes _) (omega arith) (omega arith) (omega arith) (omega arith) in
      let high =
        high_1 (le_value 4 m (w + 4)) v (m (w + 4)) (m (w + 4 + 1)) (m (w + 4 + 1 + 1))
          (m (w + 4 + 1 + 1 + 1)) (byte_0 v) (byte_1 v) (byte_2 v) (byte_3 v) refl (value_bytes v n)
          (bytes _) (bytes _) (bytes _) (bytes _) (omega arith) (omega arith) (omega arith)
          (omega arith) in
      ap₂ (λ ys xs. store_bytes (w + 4) ys (store_bytes w xs m) b) high low ∙ ground arith

  stored_2 : (b : ℕ) → stored 2 b ≡ store_bytes (w + 2) (le_bytes 4 v) m b
  unfolding store_bytes le_value le_bytes
  stored_2 b =
      let low =
        low_2 (le_value 4 m w) v (m w) (m (w + 1)) (m (w + 1 + 1)) (m (w + 1 + 1 + 1)) (byte_0 v)
          (byte_1 v) (byte_2 v) (byte_3 v) refl (value_bytes v n) (bytes _) (bytes _) (bytes _)
          (bytes _) (omega arith) (omega arith) (omega arith) (omega arith) in
      let high =
        high_2 (le_value 4 m (w + 4)) v (m (w + 4)) (m (w + 4 + 1)) (m (w + 4 + 1 + 1))
          (m (w + 4 + 1 + 1 + 1)) (byte_0 v) (byte_1 v) (byte_2 v) (byte_3 v) refl (value_bytes v n)
          (bytes _) (bytes _) (bytes _) (bytes _) (omega arith) (omega arith) (omega arith)
          (omega arith) in
      ap₂ (λ ys xs. store_bytes (w + 4) ys (store_bytes w xs m) b) high low ∙ ground arith

  stored_3 : (b : ℕ) → stored 3 b ≡ store_bytes (w + 3) (le_bytes 4 v) m b
  unfolding store_bytes le_value le_bytes
  stored_3 b =
      let low =
        low_3 (le_value 4 m w) v (m w) (m (w + 1)) (m (w + 1 + 1)) (m (w + 1 + 1 + 1)) (byte_0 v)
          (byte_1 v) (byte_2 v) (byte_3 v) refl (value_bytes v n) (bytes _) (bytes _) (bytes _)
          (bytes _) (omega arith) (omega arith) (omega arith) (omega arith) in
      let high =
        high_3 (le_value 4 m (w + 4)) v (m (w + 4)) (m (w + 4 + 1)) (m (w + 4 + 1 + 1))
          (m (w + 4 + 1 + 1 + 1)) (byte_0 v) (byte_1 v) (byte_2 v) (byte_3 v) refl (value_bytes v n)
          (bytes _) (bytes _) (bytes _) (bytes _) (omega arith) (omega arith) (omega arith)
          (omega arith) in
      ap₂ (λ ys xs. store_bytes (w + 4) ys (store_bytes w xs m) b) high low ∙ ground arith

write32-aligned :
    (w v : ℕ) (m : Memory) (h : History) (b : ℕ)
    → w % 4 ≡ 0
    → replay (pci_write32 w v (ram m) h).1 m b ≡ store_bytes w (le_bytes 4 v) (replay h m) b
unfolding pci_write32 write_word
write32-aligned w v m h b al = rw al refl

pub write32-stores :
    (a v : ℕ) (m : Memory) (h : History) (b : ℕ)
    → AllBytes (replay h m)
    → a + 8 ≤ 2 ^ 32
    → v < 2 ^ 32
    → replay (pci_write32 a v (ram m) h).1 m b ≡ store_bytes a (le_bytes 4 v) (replay h m) b
write32-stores a v m h b bytes room n = go (a % 4) refl
  where
    at : (l : ℕ) → a % 4 ≡ l → a ≡ a - l + l
    at l e = omega arith

    go :
        (l : ℕ)
        → a % 4 ≡ l
        → replay (pci_write32 a v (ram m) h).1 m b ≡ store_bytes a (le_bytes 4 v) (replay h m) b
    go zero e = write32-aligned a v m h b e
    go (suc zero) e = rw (at 1 e) (
        ap (λ f. f b)
          (write32-run (a - 1) 1 v m h (omega arith) (omega arith) (omega arith) (omega arith)
            bytes)
        ∙ stored_1 (replay h m) bytes (a - 1) v n b)
    go (suc (suc zero)) e = rw (at 2 e) (
        ap (λ f. f b)
          (write32-run (a - 2) 2 v m h (omega arith) (omega arith) (omega arith) (omega arith)
            bytes)
        ∙ stored_2 (replay h m) bytes (a - 2) v n b)
    go (suc (suc (suc zero))) e = rw (at 3 e) (
        ap (λ f. f b)
          (write32-run (a - 3) 3 v m h (omega arith) (omega arith) (omega arith) (omega arith)
            bytes)
        ∙ stored_3 (replay h m) bytes (a - 3) v n b)
    go (suc (suc (suc (suc l)))) e = absurd (omega arith)
