-- ===== src/Network/E1000/Init/Ready.antt =====
-- What `e1000_init` of kernel/network/e1000.c comes to.
use ninjastorms.Prelude.{
  ℕ, ◌+◌, ◌-◌, ◌%◌, ◌^◌, ◌<◌, ◌≤◌, ◌≡◌, refl, ap, ◌∙◌, Bool, true, false, Option, none, some, List,
  if◌then◌else◌, ◌==◌, arith, length, inl, inr, ◌⊎◌, get_or, bit_and,
}
use ninjastorms.Device.{History, Hardware, Io, pure, after_some, last_put}
use ninjastorms.Malloc.{Heap, malloc, null}
use ninjastorms.Malloc.Valid.{IsValid}
use ninjastorms.Malloc.Enough.{malloc-fuel, malloc-within}
use ninjastorms.Pci.{Devices, zero_device, pci_get_device}
use ninjastorms.Pci.Setup.{pci_bar, pci_alloc_memory, pci_enable_bus_mastering}
use ninjastorms.Pci.Setup.Bar.{pci_alloc_memory_lem}
use ninjastorms.Network.E1000.{E1000, e1000_num_rx_desc, start_e1000}
use ninjastorms.Network.E1000.Ring.{Placed, Ring, tail}
use ninjastorms.Network.E1000.Init.{intel_vend, e1000_dev, device_size, attach, look_up, e1000_init}
use ninjastorms.Network.E1000.Init.Started.{Enough, Ready, start_e1000-Ready}

-- A card that works: it is the device with the configuration base, its registers lie in the memory or in the ports of
-- the bus, behind the struct of the driver, the driver looks at the first receive descriptor next and the card may fill
-- all up to the last.
abbrev pub Working : ℕ → E1000 → History → Type 0
Working config_base e h =
    (e.pci_device ≡ some config_base)
    × Placed e
    × (e.rx_cur ≡ 0)
    × (last_put (tail e) h ≡ e1000_num_rx_desc - 1)
    × Ring e h

-- What `e1000_init` leaves: nothing where there was no memory, a driver without a card where the table has none, and a
-- card that works otherwise.
abbrev pub Initialised : ℕ → Devices → Heap → Option (Option E1000 × Heap) → History → Type 0
Initialised fuel devices heap none h = ¬ Unit
Initialised fuel devices heap (some (none, heap')) h =
    (malloc fuel device_size heap ≡ some (null, heap')) × Enough fuel heap'
Initialised fuel devices heap (some (some e, heap')) h =
    (((pci_get_device intel_vend e1000_dev devices ≡ none) × (e.pci_device ≡ none))
      ⊎ ((i : ℕ) × (pci_get_device intel_vend e1000_dev devices ≡ some i)
          × Working (get_or devices i zero_device).config_base e h))
    × Enough fuel heap'

-- Behind the start.
Attached : ℕ → ℕ → Option (Option E1000 × Heap) → History → Type 0
Attached fuel config_base none h = ¬ Unit
Attached fuel config_base (some (none, heap)) h = ¬ Unit
Attached fuel config_base (some (some e, heap)) h = Working config_base e h × Enough fuel heap

abbrev finish : E1000 × Heap → Io (Option (Option E1000 × Heap))
finish (e, heap) = pure (some (some e, heap))

Ready-Attached :
    (fuel config_base : ℕ) (e₀ : E1000) (r : Option (E1000 × Heap)) (hw : Hardware) (h : History)
    → e₀.pci_device ≡ some config_base
    → Placed e₀
    → Ready e₀ r h fuel
    → Attached fuel config_base (after_some finish r hw h).0 (after_some finish r hw h).1
unfolding Attached
Ready-Attached fuel config_base e₀ none hw h d p ready = absurd (ready tt)
Ready-Attached fuel config_base e₀ (some (e, heap)) hw h d (x, o, y, z)
      ((b, m, dev), cur, last, w) =
    (
      (
        dev ∙ d,
        (omega (arith, b), omega (arith, m), omega (arith, m), omega (arith, m)),
        cur,
        last,
        (omega (arith, cur), omega (arith, last, cur)),
      ),
      w,
    )

-- Where the registers of a card are put.
mapped :
    (b : Bool) (base : ℕ)
    → base + 0x400 ≤ 0x43000000
    → let m : ℕ = if b then 0x50000000 else 0x43000000 in
      base + 0x400 ≤ 0x43000000 × 0x43000000 ≤ m × m % 4 ≡ 0 × m + 0x20000 ≤ 2 ^ 32
mapped true base l = (omega arith, omega arith, omega arith, omega arith)
mapped false base l = (omega arith, omega arith, omega arith, omega arith)

attach_lem :
    (fuel config_base : ℕ) (e : E1000) (heap : Heap) (hw : Hardware) (h : History)
    → e.base + 0x400 ≤ 0x43000000
    → Enough fuel heap
    → Attached fuel config_base
        (attach fuel config_base e heap hw h).0
        (attach fuel config_base e heap hw h).1
unfolding attach
attach_lem fuel config_base e heap hw h l v =
    let (mem, h₁) = pci_alloc_memory config_base 0 hw h in
    let (io, h₂) = pci_alloc_memory config_base 1 hw h₁ in
    let h₃ = (pci_enable_bus_mastering config_base hw h₂).1 in
    let e₀ : E1000 = record e { mem_base = mem; io_base = io; pci_device = some config_base } in
    let (at_bus, _, _) = pci_alloc_memory_lem hw h config_base 0 in
    let p : Placed e₀ =
      rw at_bus (mapped (bit_and (hw h 4 (config_base + pci_bar 0) % 2 ^ 32) 1 == 0) e.base l) in
    let (r, h₄) = start_e1000 fuel e₀ heap hw h₃ in
    Ready-Attached fuel config_base e₀ r hw h₄ refl p (start_e1000-Ready fuel e₀ heap hw h₃ p v)

Attached-Initialised :
    (fuel i : ℕ) (devices : Devices) (heap : Heap) (r : Option (Option E1000 × Heap)) (h : History)
    → pci_get_device intel_vend e1000_dev devices ≡ some i
    → Attached fuel (get_or devices i zero_device).config_base r h
    → Initialised fuel devices heap r h
unfolding Attached
Attached-Initialised fuel i devices heap none h e a = a
Attached-Initialised fuel i devices heap (some (none, heap')) h e a = absurd (a tt)
Attached-Initialised fuel i devices heap (some (some c, heap')) h e (a, w) = (inr (i, e, a), w)

look_up_lem :
    (fuel clock : ℕ) (file : List ℕ) (found : Option ℕ) (devices : Devices) (e : E1000)
    (heap heap' : Heap) (hw : Hardware) (h : History)
    → pci_get_device intel_vend e1000_dev devices ≡ found
    → e.base + 0x400 ≤ 0x43000000
    → Enough fuel heap'
    → Initialised fuel devices heap
        (look_up fuel clock file found devices e heap' hw h).0
        (look_up fuel clock file found devices e heap' hw h).1
unfolding look_up
look_up_lem fuel clock file none devices e heap heap' hw h f l v = (inl (f, refl), v)
look_up_lem fuel clock file (some i) devices e heap heap' hw h f l v =
    let base = (get_or devices i zero_device).config_base in
    let (r, h') = attach fuel base e heap' hw h in
    Attached-Initialised fuel i devices heap r h' f (attach_lem fuel base e heap' hw h l v)

-- On a valid heap, with more fuel than there are free blocks, `e1000_init` ends, whatever the hardware says, and the
-- heap stays one on which the fuel is enough. Either `malloc` gave null and so is the pointer to the driver; or the table
-- of PCI devices has no card, and the driver has none; or it has one, and the driver's ring of receive descriptors holds:
-- the driver looks at the first descriptor next and the tail register names the last one. The registers of the card
-- are then aligned and lie behind the struct.
pub e1000_init-Initialised :
    (fuel clock : ℕ) (file : List ℕ) (devices : Devices) (blank : E1000) (heap : Heap)
    (bs fs : List ℕ) (hw : Hardware) (h : History)
    → IsValid heap bs fs
    → length fs < fuel
    → Initialised fuel devices heap
        (e1000_init fuel clock file devices blank heap hw h).0
        (e1000_init fuel clock file devices blank heap hw h).1
unfolding e1000_init
e1000_init-Initialised fuel clock file devices blank heap bs fs hw h v l =
    let (p, heap', bs', fs', run, v', l') =
      malloc-fuel fuel device_size heap bs fs v l (omega arith) in
    let enough : Enough fuel heap' = (bs', fs', v', l') in
    elim (malloc-within fuel device_size heap heap' bs fs p v l (omega arith) run) [
      | inl e ↦
          let t : (p == null) ≡ true = ground arith in
          rw (run, t) (run ∙ ap (λ q. some (q, heap')) e, enough)
      | inr (lo, hi) ↦
          let t : (p == null) ≡ false = ground arith in
          rw (run, t)
            (look_up_lem fuel clock file (pci_get_device intel_vend e1000_dev devices) devices
              (record blank { base = p }) heap heap' hw h refl (omega arith) enough)
    ]
