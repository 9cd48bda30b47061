-- ===== src/Pci/Enumerate.antt =====
-- Enumeration and look-up of PCI devices against the configuration space.
use native.Mathlib.Decide.{ℕ_discrete}
use ninjastorms.Prelude.{
  ℕ, zero, suc, ◌+◌, ◌-◌, ◌<◌, ◌≤◌, ◌≡◌, ◌≢◌, refl, sym, subst, ◌∙◌, ◌⊎◌, inl, inr, Bool, true,
  false, Option, none, some, arith, length, length-set, ◌&&◌, ◌==◌, get_or, get_or-set_self,
  get_or-set_ne, get_or-replicate, Bool-cases,
}
use ninjastorms.Pci.{
  Device, Devices, zero_device, max_pci_devices, pci_devices, pci_vendor_id, pci_device_id,
  pci_invalid_vendor, device_addr, enumerate_step, enumerate_loop, enumerate_pci_devices, is_device,
  get_loop, pci_get_device,
}

abbrev pub vendor_at : (ℕ → ℕ) → ℕ → ℕ
vendor_at read16 k = read16 (device_addr (k + 11) + pci_vendor_id)

abbrev pub device_at : (ℕ → ℕ) → ℕ → ℕ
device_at read16 k = read16 (device_addr (k + 11) + pci_device_id)

abbrev device : Devices → ℕ → Device
device devices k = get_or devices k zero_device

-- What the table has of the slot `k + 11`.
record Entered (read16 : ℕ → ℕ) (k : ℕ) (d : Device) : Type 0 where
  absent : vendor_at read16 k ≡ pci_invalid_vendor → d ≡ zero_device
  present :
      vendor_at read16 k ≢ pci_invalid_vendor
      → (d.vendor_id ≡ vendor_at read16 k)
        × (d.device_id ≡ device_at read16 k)
        × (d.config_base ≡ device_addr (k + 11))

length-enumerate_step :
    (read16 : ℕ → ℕ) (i : ℕ) (devices : Devices)
    → length (enumerate_step read16 i devices) ≡ length devices
unfolding enumerate_step
length-enumerate_step read16 i devices =
    elim (Bool-cases (read16 (device_addr i + pci_vendor_id) == pci_invalid_vendor)) [
      | inl t ↦ rw t refl
      | inr f ↦ rw f (length-set devices (i - 11) _)
    ]

enumerate_step-ne :
    (read16 : ℕ → ℕ) (k j : ℕ) (devices : Devices)
    → k ≢ j
    → device (enumerate_step read16 (k + 11) devices) j ≡ device devices j
unfolding enumerate_step
enumerate_step-ne read16 k j devices n =
    elim (Bool-cases (vendor_at read16 k == pci_invalid_vendor)) [
      | inl t ↦ rw t refl
      | inr f ↦ rw f (get_or-set_ne devices (k + 11 - 11) j _ zero_device (omega arith))
    ]

enumerate_step-Entered :
    (read16 : ℕ → ℕ) (k : ℕ) (devices : Devices)
    → k < length devices
    → device devices k ≡ zero_device
    → Entered read16 k (device (enumerate_step read16 (k + 11) devices) k)
unfolding enumerate_step
enumerate_step-Entered read16 k devices h e =
    elim (Bool-cases (vendor_at read16 k == pci_invalid_vendor)) [
      | inl t ↦ rw t (record { absent = λ a. e; present = λ n. absurd (ground (arith, n)) })
      | inr f ↦
          let at : k + 11 - 11 ≡ k = omega arith in
          let new = record (device devices k) {
            config_base = device_addr (k + 11);
            pci_slot_id = k + 11;
            vendor_id = vendor_at read16 k;
            device_id = device_at read16 k;
          } in
          rw (f, at, get_or-set_self devices k new zero_device h)
            (record { absent = λ a. absurd (ground (arith, a)); present = λ n. (refl, refl, refl) })
    ]

-- The loop from index `k` on.
enumerate_loop-Entered :
    (n k : ℕ) (read16 : ℕ → ℕ) (devices : Devices)
    → k + n ≤ length devices
    → ((j : ℕ) → k ≤ j → j < k + n → device devices j ≡ zero_device)
    → ((j : ℕ) → j < k → Entered read16 j (device devices j))
    → (j : ℕ) → j < k + n
    → Entered read16 j (device (enumerate_loop read16 n (k + 11) devices) j)
unfolding enumerate_loop
enumerate_loop-Entered zero k read16 devices size empty before j h = before j (omega arith)
enumerate_loop-Entered (suc n) k read16 devices size empty before j h =
    let next : k + 11 + 1 ≡ k + 1 + 11 = omega arith in
    rw next (
      enumerate_loop-Entered n (k + 1) read16 (enumerate_step read16 (k + 11) devices)
        (omega (arith, length-enumerate_step read16 (k + 11) devices))
        (λ i lo hi.
          enumerate_step-ne read16 k i devices (omega arith) ∙ empty i (omega arith) (omega arith))
        (λ i lt. elim (ℕ_discrete k i) [
          | yes p ↦
              subst (λ m. Entered read16 m (device (enumerate_step read16 (k + 11) devices) m)) p
                (enumerate_step-Entered read16 k devices (omega arith)
                  (empty k (omega arith) (omega arith)))
          | no ne ↦ rw (enumerate_step-ne read16 k i devices ne) (before i (omega arith))
        ])
        j (omega arith))

-- What `get_loop` returns, started at index `k` with no match before.
abbrev pub First : (ℕ → Bool) → ℕ → Option ℕ → Type 0
First test end none = (j : ℕ) → j < end → test j ≡ false
First test end (some i) = (i < end) × (test i ≡ true) × ((j : ℕ) → j < i → test j ≡ false)

get_loop-First :
    (n k vendor dev : ℕ) (devices : Devices)
    → ((j : ℕ) → j < k → is_device vendor dev (device devices j) ≡ false)
    → First (λ j. is_device vendor dev (device devices j)) (k + n) (get_loop n k vendor dev devices)
unfolding get_loop
get_loop-First zero k vendor dev devices before = λ j h. before j (omega arith)
get_loop-First (suc n) k vendor dev devices before =
    elim (Bool-cases (is_device vendor dev (device devices k))) [
      | inl t ↦ rw t (omega arith, t, before)
      | inr f ↦
          let e : k + 1 + n ≡ k + suc n = omega arith in
          rw f (
            subst
              (λ m.
                First (λ j. is_device vendor dev (device devices j)) m
                  (get_loop n (k + 1) vendor dev devices))
              e
              (get_loop-First n (k + 1) vendor dev devices λ j h. elim (ℕ_discrete k j) [
                | yes p ↦ subst (λ m. is_device vendor dev (device devices m) ≡ false) p f
                | no ne ↦ before j (omega arith)
              ]))
    ]

First-same :
    (test test' : ℕ → Bool) (end : ℕ) (o : Option ℕ)
    → ((j : ℕ) → j < end → test j ≡ test' j)
    → First test end o
    → First test' end o
First-same test test' end none same f = λ j h. sym (same j h) ∙ f j h
First-same test test' end (some i) same (h, t, before) =
    (h, sym (same i h) ∙ t, (λ j lt. sym (same j (omega arith)) ∙ before j lt))

-- Whether the hardware has the device in the slot `k + 11`.
abbrev pub has_device : (ℕ → ℕ) → ℕ → ℕ → ℕ → Bool
has_device read16 vendor dev k = (vendor_at read16 k == vendor) && (device_at read16 k == dev)

Entered-same :
    (read16 : ℕ → ℕ) (vendor dev k : ℕ) (d : Device)
    → vendor ≢ pci_invalid_vendor
    → (vendor ≢ 0) ⊎ (dev ≢ 0)
    → Entered read16 k d
    → is_device vendor dev d ≡ has_device read16 vendor dev k
Entered-same read16 vendor dev k d n m e =
    elim (ℕ_discrete (vendor_at read16 k) pci_invalid_vendor) [
      | yes gone ↦ rw (e.absent gone) (ground arith)
      | no there ↦ let (p, q, _) = e.present there in ground arith
    ]

enumerated :
    (read16 : ℕ → ℕ) (k : ℕ)
    → k < max_pci_devices
    → Entered read16 k (device (enumerate_pci_devices read16 pci_devices) k)
unfolding enumerate_pci_devices
enumerated read16 k h =
    enumerate_loop-Entered 21 0 read16 pci_devices (omega arith)
      (λ j lo hi. get_or-replicate 21 j zero_device) (λ j lt. absurd (omega arith)) k h

-- After the enumeration, for a valid vendor and not both ids 0, `pci_get_device` finds the first of the
-- slots 11 to 31 whose configuration space has the two ids, and null if none has them; and each slot
-- that has a device is in the table with the base of its configuration space.
pub pci_get_device-enumerated :
    (read16 : ℕ → ℕ) (vendor dev : ℕ)
    → vendor ≢ pci_invalid_vendor
    → (vendor ≢ 0) ⊎ (dev ≢ 0)
    → let devices = enumerate_pci_devices read16 pci_devices in
      First (has_device read16 vendor dev) max_pci_devices (pci_get_device vendor dev devices)
      × ((k : ℕ)
          → k < max_pci_devices
          → vendor_at read16 k ≢ pci_invalid_vendor
          → (get_or devices k zero_device).config_base ≡ device_addr (k + 11))
unfolding pci_get_device
pci_get_device-enumerated read16 vendor dev n m =
    let devices = enumerate_pci_devices read16 pci_devices in
    (
      First-same (λ j. is_device vendor dev (device devices j)) (has_device read16 vendor dev) 21
          (get_loop 21 0 vendor dev devices)
          (λ j h. Entered-same read16 vendor dev j (device devices j) n m (enumerated read16 j h))
          (get_loop-First 21 0 vendor dev devices (λ j h. absurd (omega arith))),
      λ k h there. ((enumerated read16 k h).present there).2,
    )
