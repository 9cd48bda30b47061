-- ===== src/Network/E1000/Init.antt =====
-- `e1000_init` of kernel/network/e1000.c: the driver finds its card on the PCI bus and starts it. What the memory of
-- the struct holds before it is written is an argument, and so are the clock and the path of the source file for the
-- log. The result has the pointer `e1000`, where `none` is null, and the heap; `none` for both says that the fuel for
-- a call of `malloc` was not enough.
pub mod Started
pub mod Ready
mod Tests
use ninjastorms.Prelude.{
  ℕ, ◌+◌, ◌*◌, Option, none, some, List, [], ◌∷◌, if◌then◌else◌, ◌==◌, get_or,
}
use ninjastorms.Device.{Io, pure, ◌>>=◌, ◌>>◌, ◌>>?◌}
use ninjastorms.Logger.{log}
use ninjastorms.Malloc.{Heap, malloc, null}
use ninjastorms.Pci.{Devices, Device, zero_device, pci_get_device}
use ninjastorms.Pci.Setup.{pci_alloc_memory, pci_enable_bus_mastering}
use ninjastorms.Network.E1000.{E1000, start_e1000}

abbrev pub intel_vend : ℕ
intel_vend = 0x8086

abbrev pub e1000_dev : ℕ
e1000_dev = 0x100E

-- `sizeof(e1000_device_t)`: the descriptors, two words, a byte for `bool`, the address, two half words and a pointer.
abbrev pub device_size : ℕ
device_size = 32 * 16 + 8 * 16 + 4 + 4 + 1 + 6 + 1 + 2 + 2 + 4

-- "No memory for e1000 struct left!"
abbrev no_memory : List ℕ
no_memory =
    b'N' ∷ b'o' ∷ b' ' ∷ b'm' ∷ b'e' ∷ b'm' ∷ b'o' ∷ b'r' ∷ b'y' ∷ b' ' ∷ b'f' ∷ b'o' ∷ b'r' ∷ b' '
    ∷ b'e' ∷ b'1' ∷ b'0' ∷ b'0' ∷ b'0' ∷ b' ' ∷ b's' ∷ b't' ∷ b'r' ∷ b'u' ∷ b'c' ∷ b't' ∷ b' '
    ∷ b'l' ∷ b'e' ∷ b'f' ∷ b't' ∷ b'!' ∷ []

-- "Network card not found!"
abbrev not_found : List ℕ
not_found =
    b'N' ∷ b'e' ∷ b't' ∷ b'w' ∷ b'o' ∷ b'r' ∷ b'k' ∷ b' ' ∷ b'c' ∷ b'a' ∷ b'r' ∷ b'd' ∷ b' ' ∷ b'n'
    ∷ b'o' ∷ b't' ∷ b' ' ∷ b'f' ∷ b'o' ∷ b'u' ∷ b'n' ∷ b'd' ∷ b'!' ∷ []

-- Behind the look-up, with the configuration base of the device.
pub attach : ℕ → ℕ → E1000 → Heap → Io (Option (Option E1000 × Heap))
attach fuel config_base e heap = do
  mem ← pci_alloc_memory config_base 0
  io ← pci_alloc_memory config_base 1
  pci_enable_bus_mastering config_base
  start_e1000 fuel (record e { mem_base = mem; io_base = io; pci_device = some config_base }) heap
      >>? λ (e', heap'). pure (some (some e', heap'))

-- The devices are those of `pci_devices`; the look-up gives an index in them.
pub look_up : ℕ → ℕ → List ℕ → Option ℕ → Devices → E1000 → Heap → Io (Option (Option E1000 × Heap))
unfolding attach
look_up fuel clock file none devices e heap =
    log clock 3 file not_found >> pure (some (some (record e { pci_device = none }), heap))
look_up fuel clock file (some i) devices e heap =
    attach fuel (get_or devices i zero_device).config_base e heap

abbrev pub allocated :
    ℕ → ℕ → List ℕ → Devices → E1000 → Option (ℕ × Heap) → Io (Option (Option E1000 × Heap))
allocated fuel clock file devices blank none = pure none
allocated fuel clock file devices blank (some (p, heap)) =
    if p == null
    then log clock 3 file no_memory >> pure (some (none, heap))
    else look_up fuel clock file (pci_get_device intel_vend e1000_dev devices) devices
        (record blank { base = p }) heap

pub e1000_init : ℕ → ℕ → List ℕ → Devices → E1000 → Heap → Io (Option (Option E1000 × Heap))
unfolding look_up
e1000_init fuel clock file devices blank heap =
    allocated fuel clock file devices blank (malloc fuel device_size heap)
