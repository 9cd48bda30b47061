-- ===== src/Pci/Setup/Table.antt =====
-- The table of PCI devices behind `pci_init` of kernel/pci/pci.c.
use ninjastorms.Prelude.{
  ℕ, zero, suc, ◌+◌, ◌%◌, ◌^◌, ◌<◌, ◌≤◌, arith, ◌≡◌, ◌≢◌, refl, ◌∙◌, List, ◌∷◌, get_or, ◌⊎◌,
}
use mathlib.Core.Path.{ap₂}
use ninjastorms.Device.{got, History, Hardware}
use ninjastorms.Pci.{
  Devices, zero_device, max_pci_devices, pci_devices, pci_config, pci_vendor_id, pci_device_id,
  pci_invalid_vendor, device_addr, enter_device, enumerate_step, enumerate_loop,
  enumerate_pci_devices, pci_get_device,
}
use ninjastorms.Pci.Enumerate.{First, has_device, vendor_at, pci_get_device-enumerated}
use ninjastorms.Pci.Setup.{enumerate_slots, pci_init, configure_board}

-- What the configuration registers of 16 bits say does not change.
abbrev pub Fixed16 : Hardware → (ℕ → ℕ) → Type 0
Fixed16 hw config =
    (h : History) (a : ℕ) → pci_config ≤ a → a < pci_config + 2 ^ 16 → hw h 2 a % 2 ^ 16 ≡ config a

module _ (hw : Hardware) (config : ℕ → ℕ) (fixed : Fixed16 hw config) where
  enumerate_slots-loop :
      (n i : ℕ) (devices : Devices) (h : History)
      → i + n ≤ 32
      → (enumerate_slots n i devices hw h).0 ≡ enumerate_loop config n i devices
  unfolding enumerate_slots enumerate_loop enumerate_step
  enumerate_slots-loop zero i devices h l = refl
  enumerate_slots-loop (suc n) i devices h l =
      let vendor = hw h 2 (device_addr i + pci_vendor_id) % 2 ^ 16 in
      let h₁ = got 2 (device_addr i + pci_vendor_id) vendor ∷ h in
      let device = hw h₁ 2 (device_addr i + pci_device_id) % 2 ^ 16 in
      let h₂ = got 2 (device_addr i + pci_device_id) device ∷ h₁ in
      enumerate_slots-loop n (i + 1) (enter_device i vendor device devices) h₂ (omega arith)
      ∙ ap₂ (λ v d. enumerate_loop config n (i + 1) (enter_device i v d devices))
          (fixed h (device_addr i + pci_vendor_id) (omega arith) (omega arith))
          (fixed h₁ (device_addr i + pci_device_id) (omega arith) (omega arith))

  pci_init-enumerated :
      (clock : ℕ) (file : List ℕ) (devices : Devices) (h : History)
      → (pci_init clock file devices hw h).0 ≡ enumerate_pci_devices config devices
  unfolding pci_init enumerate_pci_devices
  pci_init-enumerated clock file devices h =
      enumerate_slots-loop 21 11 devices (configure_board clock file hw h).1 (omega arith)

-- After `pci_init`, on hardware whose 16-bit configuration registers always say the same, for a valid vendor and not
-- both ids 0, `pci_get_device` finds the first of the slots 11 to 31 whose configuration space has the two ids, and
-- null if none has them; and each slot that has a device is in the table with the base of its configuration space. It
-- does not matter whether the core of the board was found.
pub pci_init-finds :
    (hw : Hardware) (config : ℕ → ℕ) (clock : ℕ) (file : List ℕ) (h : History) (vendor dev : ℕ)
    → Fixed16 hw config
    → vendor ≢ pci_invalid_vendor
    → (vendor ≢ 0) ⊎ (dev ≢ 0)
    → let devices = (pci_init clock file pci_devices hw h).0 in
      First (has_device config vendor dev) max_pci_devices (pci_get_device vendor dev devices)
      × ((k : ℕ)
          → k < max_pci_devices
          → vendor_at config k ≢ pci_invalid_vendor
          → (get_or devices k zero_device).config_base ≡ device_addr (k + 11))
pci_init-finds hw config clock file h vendor dev fixed n m =
    rw (pci_init-enumerated hw config fixed clock file pci_devices h)
      (pci_get_device-enumerated config vendor dev n m)
