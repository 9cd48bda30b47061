-- ===== src/Pci/Setup/Bar.antt =====
-- The base address registers of a PCI device.
use ninjastorms.Prelude.{
  ℕ, ◌+◌, ◌-◌, ◌*◌, ◌%◌, ◌^◌, ◌<◌, ◌≡◌, ◌≢◌, refl, ap, ◌∙◌, Bool, true, false, if◌then◌else◌, ◌==◌,
  ◌∷◌, bit_and, arith,
}
use ninjastorms.Prelude.Bits.{bit_and-cut, bit_and-ones, bit_and-zero}
use ninjastorms.Device.{got, put, History, Hardware, complement, last_put}
use ninjastorms.Pci.Setup.{pci_bar, bit_mask, get_bar_size, pci_alloc_memory, get_bar_type}

-- The size of the smallest region, in memory or of ports: 2 to the number of the bits that say what the region is.
abbrev pub type_bits : ℕ → ℕ
type_bits before = if bit_and before 1 == 0 then 4 else 2

masked :
    (k n q flags : ℕ)
    → q < 2 ^ n
    → flags < 2 ^ k
    → bit_and (q * 2 ^ k + flags) ((2 ^ n - 1) * 2 ^ k + 0) ≡ q * 2 ^ k
masked k n q flags h g =
    bit_and-cut k q flags (2 ^ n - 1) 0 g (omega arith)
    ∙ ap (λ a. a * 2 ^ k + bit_and flags 0) (bit_and-ones n q h)
    ∙ ap (λ a. q * 2 ^ k + a) (bit_and-zero k flags g)
    ∙ omega arith

-- The size that is decoded, with the two masks.
decode_lem :
    (b : Bool) (k flags : ℕ)
    → let w : ℕ = if b then 4 else 2 in
      flags < 2 ^ w
      → 0 < k * 2 ^ w
      → k * 2 ^ w < 2 ^ 32
      → (complement (
              bit_and
                ((2 ^ 32 - k * 2 ^ w + flags) % 2 ^ 32)
                (if b then 0xFFFFFFF0 else 0xFFFFFFFC))
            + 1)
          % 2 ^ 32
        ≡ k * 2 ^ w
decode_lem true k flags g pos l =
    let e : (2 ^ 32 - k * 2 ^ 4 + flags) % 2 ^ 32 ≡ (2 ^ 28 - k) * 2 ^ 4 + flags = omega arith in
    ap (λ x. (complement (bit_and x 0xFFFFFFF0) + 1) % 2 ^ 32) e
    ∙ ap (λ x. (complement x + 1) % 2 ^ 32) (masked 4 28 (2 ^ 28 - k) flags (omega arith) g)
    ∙ omega arith
decode_lem false k flags g pos l =
    let e : (2 ^ 32 - k * 2 ^ 2 + flags) % 2 ^ 32 ≡ (2 ^ 30 - k) * 2 ^ 2 + flags = omega arith in
    ap (λ x. (complement (bit_and x 0xFFFFFFFC) + 1) % 2 ^ 32) e
    ∙ ap (λ x. (complement x + 1) % 2 ^ 32) (masked 2 30 (2 ^ 30 - k) flags (omega arith) g)
    ∙ omega arith

-- How a device decodes the address of a region of `size` bytes: the low bits of the register say what the region is,
-- and the bits below the size cannot be written.
abbrev pub Decodes : Hardware → ℕ → ℕ → ℕ → Type 0
Decodes hw register size flags =
    (h : History) → last_put register h ≡ 0xFFFFFFFF → hw h 4 register ≡ 2 ^ 32 - size + flags

-- On a device that answers all ones as the specification of PCI says, `get_bar_size` gives the size of the region, and
-- the register holds again what it held before. The size is a multiple of the least one for its type.
pub get_bar_size_lem :
    (hw : Hardware) (h : History) (base number k flags : ℕ)
    → let register = base + pci_bar number in
      let before = hw h 4 register % 2 ^ 32 in
      let size = k * 2 ^ type_bits before in
      Decodes hw register size flags
      → flags < 2 ^ type_bits before
      → 0 < size
      → size < 2 ^ 32
      → ((get_bar_size base number hw h).0 ≡ size)
        × (last_put register (get_bar_size base number hw h).1 ≡ before)
unfolding get_bar_size
get_bar_size_lem hw h base number k flags d g pos l =
    let register = base + pci_bar number in
    let before = hw h 4 register % 2 ^ 32 in
    let same : (register == register) ≡ true = ground arith in
    let h' = put 4 register 0xFFFFFFFF ∷ got 4 register before ∷ h in
    let answer = d h' (rw same refl) in
    (
      ap (λ x. (complement (bit_and (x % 2 ^ 32) (bit_mask before)) + 1) % 2 ^ 32) answer
          ∙ decode_lem (bit_and before 1 == 0) k flags g pos l,
      rw same refl,
    )

-- A region is put where its type belongs: behind `pci_alloc_memory` the register holds the address that is returned,
-- 0x50000000 for memory and 0x43000000 for ports, and no other register was written.
pub pci_alloc_memory_lem :
    (hw : Hardware) (h : History) (config_base bar : ℕ)
    → let register = config_base + pci_bar bar in
      let (address, h') = pci_alloc_memory config_base bar hw h in
      (address ≡ (if bit_and (hw h 4 register % 2 ^ 32) 1 == 0 then 0x50000000 else 0x43000000))
      × (last_put register h' ≡ address)
      × ((a : ℕ) → register ≢ a → last_put a h' ≡ last_put a h)
unfolding pci_alloc_memory get_bar_type
pci_alloc_memory_lem hw h config_base bar =
    let register = config_base + pci_bar bar in
    let same : (register == register) ≡ true = ground arith in
    (refl, rw same refl, λ a n. let other : (register == a) ≡ false = ground arith in rw other refl)
