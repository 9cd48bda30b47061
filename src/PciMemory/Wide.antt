-- ===== src/PciMemory/Wide.antt =====
-- `pci_write16` of kernel/pci/pci_mmio.c between two words.
use mathlib.Core.Path.{ap₂}
use native.Mathlib.Decide.{ℕ_discrete}
use ninjastorms.Prelude.{
  ℕ, ◌+◌, ◌-◌, ◌*◌, ◌/◌, ◌%◌, ◌^◌, ◌<◌, ◌≤◌, ◌≡◌, refl, ap, sym, ◌∙◌, [], ◌∷◌, arith, bit_or,
}
use ninjastorms.Memory.{Memory}
use ninjastorms.Memory.Bytes.{store_bytes}
use ninjastorms.Device.{History}
use ninjastorms.PciMemory.{shift_left, shift_right, pci_read32, write_word, pci_write16}
use ninjastorms.PciMemory.Ram.{
  le_value, le_bytes, replay, ram, AllBytes, le_bytes_lem, le_value-lt, le_value-store,
  length-le_bytes,
}
use ninjastorms.PciMemory.Word.{join_low}
use ninjastorms.PciMemory.Halves.{low_word, low_3}
use ninjastorms.PciMemory.Unaligned.{two_words}
use ninjastorms.PciMemory.Field.{two_bytes, write16-stores-inside}

-- The upper word of a 16-bit value whose lower byte ends a word.
abbrev tail_word : ℕ → ℕ → ℕ
tail_word y v = bit_or (shift_left (shift_right y 8) 8) (shift_right v 8)

tail_bytes :
    (y v a b c d : ℕ)
    → y ≡ a + 256 * (b + 256 * (c + 256 * (d + 256 * 0)))
    → a < 256
    → b < 256
    → c < 256
    → d < 256
    → v < 2 ^ 16
    → le_bytes 4 (tail_word y v) ≡ v / 256 ∷ b ∷ c ∷ d ∷ []
tail_bytes y v a b c d ey ha hb hc hd hv =
    let word : tail_word y v ≡ (b + 256 * (c + 256 * d)) * 2 ^ 8 + v / 256 =
      ap₂ bit_or (omega arith) (omega arith)
      ∙ join_low 24 8 (v / 256) (b + 256 * (c + 256 * d)) (omega arith) (omega arith) in
    le_bytes_lem (tail_word y v) (v / 256) b c d (omega arith) hb hc hd (omega (arith, word))

write16-run-between :
    (w v : ℕ) (m : Memory) (h : History)
    → w % 4 ≡ 0
    → w + 8 ≤ 2 ^ 32
    → AllBytes (replay h m)
    → replay (pci_write16 (w + 3) v (ram m) h).1 m
      ≡ two_words w
          (low_word 3 (le_value 4 (replay h m) w) v)
          (tail_word (le_value 4 (replay h m) (w + 4)) v)
          (replay h m)
unfolding pci_write16 pci_read32 write_word
write16-run-between w v m h al room bytes =
    let o : (w + 3) % 4 ≡ 3 = omega arith in
    let e : w + 3 - 3 ≡ w = omega arith in
    let e' : (w + 3 + 1) % 2 ^ 32 ≡ w + 4 = omega arith in
    let x : le_value 4 (replay h m) w % 2 ^ 32 ≡ le_value 4 (replay h m) w =
      omega (arith, le_value-lt (replay h m) w bytes) in
    let low = low_word 3 (le_value 4 (replay h m) w) v in
    let y : le_value 4 (store_bytes w (le_bytes 4 low) (replay h m)) (w + 4) % 2 ^ 32
        ≡ le_value 4 (replay h m) (w + 4) =
      omega (
        arith,
        le_value-lt (replay h m) (w + 4) bytes,
        le_value-store (replay h m) w (w + 4) (le_bytes 4 low)
            (omega (arith, length-le_bytes 4 low)),
      ) in
    rw (o, e, e', x, y) refl

stored_between :
    (m : Memory) (w v b : ℕ)
    → AllBytes m
    → v < 2 ^ 16
    → two_words w (low_word 3 (le_value 4 m w) v) (tail_word (le_value 4 m (w + 4)) v) m b
      ≡ store_bytes (w + 3) (le_bytes 2 v) m b
unfolding store_bytes le_value
stored_between m w v b bytes n =
    let low =
      low_3 (le_value 4 m w) v (m w) (m (w + 1)) (m (w + 1 + 1)) (m (w + 1 + 1 + 1)) (v % 256)
        (v / 256) 0 0 refl (omega arith) (bytes _) (bytes _) (bytes _) (bytes _) (omega arith)
        (omega arith) (omega arith) (omega arith) in
    let high =
      tail_bytes (le_value 4 m (w + 4)) v (m (w + 4)) (m (w + 4 + 1)) (m (w + 4 + 1 + 1))
        (m (w + 4 + 1 + 1 + 1)) refl (bytes _) (bytes _) (bytes _) (bytes _) n in
    ap₂ (λ ys xs. store_bytes (w + 4) ys (store_bytes w xs m) b) high low
    ∙ ground arith
    ∙ ap (λ ys. store_bytes (w + 3) ys m b) (sym (two_bytes m bytes w v n))

pub write16-stores :
    (a v : ℕ) (m : Memory) (h : History) (b : ℕ)
    → AllBytes (replay h m)
    → a + 8 ≤ 2 ^ 32
    → v < 2 ^ 16
    → replay (pci_write16 a v (ram m) h).1 m b ≡ store_bytes a (le_bytes 2 v) (replay h m) b
write16-stores a v m h b bytes room n = elim (ℕ_discrete (a % 4) 3) [
  | yes e ↦
      let at : a ≡ a - 3 + 3 = omega arith in
      rw at (
        ap (λ k. k b) (write16-run-between (a - 3) v m h (omega arith) (omega arith) bytes)
        ∙ stored_between (replay h m) (a - 3) v b bytes n)
  | no ne ↦ write16-stores-inside a v m h b bytes n ne
]
