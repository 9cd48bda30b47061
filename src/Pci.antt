-- ===== src/Pci.antt =====
-- kernel/pci/pci.c: the table of PCI devices. Here, what a 16-bit read of the configuration space gives is
-- up to the hardware: `read16` is an argument.
pub mod Enumerate
pub mod Setup
use ninjastorms.Prelude.{
  ℕ, zero, suc, ◌+◌, ◌-◌, ◌*◌, ◌%◌, ◌^◌, Bool, Option, none, some, List, ◌&&◌, if◌then◌else◌, ◌==◌,
  set, get_or, replicate,
}

-- `pci_device_t`
pub record Device : Type 0 where
  pub config_base : ℕ
  pub mem_base : ℕ
  pub io_base : ℕ
  pub pci_slot_id : ℕ
  pub vendor_id : ℕ
  pub device_id : ℕ

abbrev pub Devices : Type 0
Devices = List Device

abbrev pub zero_device : Device
zero_device = record {
  config_base = 0;
  mem_base = 0;
  io_base = 0;
  pci_slot_id = 0;
  vendor_id = 0;
  device_id = 0;
}

abbrev pub max_pci_devices : ℕ
max_pci_devices = 21

-- `pci_devices` as the static initialiser gives it.
abbrev pub pci_devices : Devices
pci_devices = replicate 21 zero_device

abbrev pub pci_config : ℕ
pci_config = 0x42000000

abbrev pub pci_vendor_id : ℕ
pci_vendor_id = 0x00

abbrev pub pci_device_id : ℕ
pci_device_id = 0x02

abbrev pub pci_invalid_vendor : ℕ
pci_invalid_vendor = 0xFFFF

-- `PCI_CONFIG + (i << PCI_DEVICE_BIT_OFFSET)`
abbrev pub device_addr : ℕ → ℕ
device_addr i = pci_config + i * 2 ^ 11

-- What one round of the loop of `enumerate_pci_devices` does with the two identifiers that it reads.
abbrev pub enter_device : ℕ → ℕ → ℕ → Devices → Devices
enter_device i vendor device devices =
    if vendor == pci_invalid_vendor
    then devices
    else set devices (i - 11) (record (get_or devices (i - 11) zero_device) {
      config_base = device_addr i;
      pci_slot_id = i;
      vendor_id = vendor;
      device_id = device;
    })

pub enumerate_step : (ℕ → ℕ) → ℕ → Devices → Devices
enumerate_step read16 i devices =
    enter_device i (read16 (device_addr i + pci_vendor_id)) (read16 (device_addr i + pci_device_id))
      devices

-- The loop with the rounds left and the slot.
enumerate_loop : (ℕ → ℕ) → ℕ → ℕ → Devices → Devices
enumerate_loop read16 zero i devices = devices
enumerate_loop read16 (suc n) i devices =
    enumerate_loop read16 n (i + 1) (enumerate_step read16 i devices)

pub enumerate_pci_devices : (ℕ → ℕ) → Devices → Devices
unfolding enumerate_loop
enumerate_pci_devices read16 devices = enumerate_loop read16 21 11 devices

abbrev is_device : ℕ → ℕ → Device → Bool
is_device vendor device d = (d.vendor_id == vendor) && (d.device_id == device)

get_loop : ℕ → ℕ → ℕ → ℕ → Devices → Option ℕ
get_loop zero i vendor device devices = none
get_loop (suc n) i vendor device devices =
    let rest = get_loop n (i + 1) vendor device devices in
    if is_device vendor device (get_or devices i zero_device) then some i else rest

-- `pci_get_device`: the index of the device, or null.
pub pci_get_device : ℕ → ℕ → Devices → Option ℕ
unfolding get_loop
pci_get_device vendor device devices = get_loop max_pci_devices 0 vendor device devices
