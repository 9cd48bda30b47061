-- ===== src/Network/E1000/Init/Started.antt =====
-- `start_e1000` of kernel/network/e1000.c on a valid heap: it ends, and the ring of receive descriptors holds.
use ninjastorms.Prelude.{
  ℕ, zero, suc, ◌+◌, ◌-◌, ◌*◌, ◌%◌, ◌^◌, ◌<◌, ◌≡◌, refl, ap, sym, ◌∙◌, subst, Option, none, some,
  List, ◌==◌, arith, length, Bool-cases, inl, inr, bit_or,
}
use ninjastorms.Device.{
  History, Hardware, Io, pure, ◌>>=◌, ◌>>◌, ◌>>?◌, after_some, last_put, write8, write64,
}
use ninjastorms.PciMemory.{pci_read64}
use ninjastorms.Malloc.{Heap}
use ninjastorms.Malloc.Valid.{IsValid}
use ninjastorms.Malloc.Enough.{malloc-fuel}
use ninjastorms.Network.Queue.{max_packet_size}
use ninjastorms.Network.E1000.{
  E1000, rx_desc, addr_field, status_field, e1000_num_rx_desc, e1000_num_tx_desc, reg_eeprom,
  reg_rxdesclo, reg_rxdeschi, reg_rxdesclen, reg_rxdeschead, reg_rxdesctail, reg_rctrl, reg_tctrl,
  reg_txdesclo, reg_txdeschi, reg_txdesclen, reg_txdeschead, reg_txdesctail, reg_tipg,
  transmit_control, receive_control, write_command, read_command, eeprom_loop, detect_eeprom,
  read_e1000_hardware_address, descriptor_loop, start_receiving, init_receive_descriptors,
  init_transmit_descriptors, enable_interrupt, start_link, start_e1000,
}
use ninjastorms.Network.E1000.Ring.{Placed, tail, seen, write_other, write_tail, read_same}

-- What the start of the card leaves alone.
abbrev pub Same : E1000 → E1000 → Type 0
Same e e' = (e'.base ≡ e.base) × (e'.mem_base ≡ e.mem_base) × (e'.pci_device ≡ e.pci_device)

-- A heap on which `malloc` ends with the fuel.
abbrev pub Enough : ℕ → Heap → Type 0
Enough fuel heap = (bs : List ℕ) × (fs : List ℕ) × IsValid heap bs fs × (length fs < fuel)

eeprom_loop-Same :
    (n : ℕ) (e : E1000) (hw : Hardware) (h : History) → Same e (eeprom_loop n e hw h).0
unfolding eeprom_loop
eeprom_loop-Same zero e hw h = (refl, refl, refl)
eeprom_loop-Same (suc n) e hw h = elim (Bool-cases e.eeprom_exists) [
  | inl t ↦ rw t (refl, refl, refl)
  | inr f ↦ rw f (eeprom_loop-Same n _ hw _)
]

read_e1000_hardware_address-Same :
    (e : E1000) (hw : Hardware) (h : History) → Same e (read_e1000_hardware_address e hw h).0
unfolding read_e1000_hardware_address
read_e1000_hardware_address-Same e hw h =
    elim (Bool-cases
      ((pci_read64 ((e.mem_base + 0x5400) % 2 ^ 32) hw h).0 * 2 ^ 16 % 2 ^ 64 == 0)) [
        | inl t ↦ rw t (refl, refl, refl)
        | inr f ↦ rw f (refl, refl, refl)
      ]

descriptor_loop-some :
    (fuel n i : ℕ) (e : E1000) (heap : Heap) (hw : Hardware) (h : History)
    → Enough fuel heap
    → (heap' : Heap) × ((descriptor_loop fuel n i e heap hw h).0 ≡ some heap') × Enough fuel heap'
unfolding descriptor_loop
descriptor_loop-some fuel zero i e heap hw h v = (heap, refl, v)
descriptor_loop-some fuel (suc n) i e heap hw h (bs, fs, v, l) =
    let (buffer, heap', bs', fs', run, v', k) =
      malloc-fuel fuel (max_packet_size + 16) heap bs fs v l (omega arith) in
    let (heap'', rest, w) =
      descriptor_loop-some fuel n (i + 1) e heap' hw
        ((write64 (rx_desc e i + addr_field) buffer >> write8 (rx_desc e i + status_field) 0) hw
          h).1
        (bs', fs', v', omega arith) in
    (heap'', rw (run, descriptor_loop) rest, w)

module _ (e : E1000) (p : Placed e) (hw : Hardware) where
  -- Behind the descriptors, the tail register names the last one.
  seen-start_receiving :
      (h : History) → (seen e (start_receiving e hw h).1).0 ≡ e1000_num_rx_desc - 1
  unfolding start_receiving
  seen-start_receiving h =
      let h₁ = (write_command e reg_rxdesclo e.base hw h).1 in
      let h₂ = (write_command e reg_rxdeschi 0 hw h₁).1 in
      let h₃ = (write_command e reg_rxdesclen (e1000_num_rx_desc * 16) hw h₂).1 in
      let h₄ = (write_command e reg_rxdeschead 0 hw h₃).1 in
      let h₅ = (write_command e reg_rxdesctail (e1000_num_rx_desc - 1) hw h₄).1 in
      ap (λ (q : ℕ × ℕ). q.0)
        (write_other e p hw h₅ reg_rctrl receive_control (omega arith) (omega arith) (omega arith)
          ∙ write_tail e p hw h₄ (e1000_num_rx_desc - 1))

  seen-init_transmit_descriptors :
      (h : History) → seen e (init_transmit_descriptors e hw h).1 ≡ seen e h
  unfolding init_transmit_descriptors
  seen-init_transmit_descriptors h =
      let h₁ = (write_command e reg_txdesclo (e.base + e1000_num_rx_desc * 16) hw h).1 in
      let h₂ = (write_command e reg_txdeschi 0 hw h₁).1 in
      let h₃ = (write_command e reg_txdesclen (e1000_num_tx_desc * 16) hw h₂).1 in
      let h₄ = (write_command e reg_txdeschead 0 hw h₃).1 in
      let h₅ = (write_command e reg_txdesctail 0 hw h₄).1 in
      let (control, h₆) = read_command e reg_tctrl hw h₅ in
      let h₇ = (write_command e reg_tctrl (bit_or control transmit_control) hw h₆).1 in
      write_other e p hw h₇ reg_tipg 0x0060200A (omega arith) (omega arith) (omega arith)
      ∙ write_other e p hw h₆ reg_tctrl (bit_or control transmit_control) (omega arith)
          (omega arith) (omega arith)
      ∙ read_same e p hw h₅ reg_tctrl
      ∙ write_other e p hw h₄ reg_txdesctail 0 (omega arith) (omega arith) (omega arith)
      ∙ write_other e p hw h₃ reg_txdeschead 0 (omega arith) (omega arith) (omega arith)
      ∙ write_other e p hw h₂ reg_txdesclen (e1000_num_tx_desc * 16) (omega arith) (omega arith)
          (omega arith)
      ∙ write_other e p hw h₁ reg_txdeschi 0 (omega arith) (omega arith) (omega arith)
      ∙ write_other e p hw h reg_txdesclo (e.base + e1000_num_rx_desc * 16) (omega arith)
          (omega arith) (omega arith)

-- What the start of a card comes to: it is the same card, the driver looks at the first descriptor next, and the card
-- may fill all up to the last.
abbrev pub Ready : E1000 → Option (E1000 × Heap) → History → ℕ → Type 0
Ready e none h fuel = ¬ Unit
Ready e (some (e', heap')) h fuel =
    Same e e' × (e'.rx_cur ≡ 0) × (last_put (tail e') h ≡ e1000_num_rx_desc - 1) × Enough fuel heap'

Same-trans : (a b c : E1000) → Same a b → Same b c → Same a c
Same-trans a b c (p, q, r) (p', q', r') = (p' ∙ p, q' ∙ q, r' ∙ r)

Placed-Same : (a b : E1000) → Same a b → Placed a → Placed b
Placed-Same a b (p, q, _) (x, o, y, z) = rw (p, q) (x, o, y, z)

pub bind_some :
    {A B : Type 0} (m : Io (Option A)) (k : A → Io (Option B)) (hw : Hardware) (h : History) (x : A)
    → (m hw h).0 ≡ some x
    → (m >>? k) hw h ≡ k x hw (m hw h).1
bind_some m k hw h x e = ap (λ r. after_some k r hw (m hw h).1) e

init_receive_descriptors_lem :
    (fuel : ℕ) (e : E1000) (heap : Heap) (hw : Hardware) (h : History)
    → Placed e
    → Enough fuel heap
    → (heap' : Heap) × (h' : History) × (init_receive_descriptors fuel e heap hw h
        ≡ (some (record e { rx_cur = 0 }, heap'), h'))
      × ((seen e h').0 ≡ e1000_num_rx_desc - 1)
      × Enough fuel heap'
unfolding init_receive_descriptors
init_receive_descriptors_lem fuel e heap hw h p v =
    let (heap', run, w) = descriptor_loop-some fuel 32 0 e heap hw h v in
    let h₁ = (descriptor_loop fuel 32 0 e heap hw h).1 in
    (
      heap',
      (start_receiving e hw h₁).1,
      bind_some (descriptor_loop fuel 32 0 e heap)
          (λ heap'. (start_receiving e >> pure (some (record e { rx_cur = 0 }, heap')))) hw h heap'
          run,
      seen-start_receiving e p hw h₁,
      w,
    )

init_transmit_descriptors-result :
    (e : E1000) (hw : Hardware) (h : History)
    → (init_transmit_descriptors e hw h).0 ≡ record e { tx_cur = 0 }
unfolding init_transmit_descriptors
init_transmit_descriptors-result e hw h = refl

abbrev transmit : E1000 × Heap → Io (Option (E1000 × Heap))
transmit (e, heap) = init_transmit_descriptors e >>= λ e'. pure (some (e', heap))

pub start_e1000-Ready :
    (fuel : ℕ) (e₀ : E1000) (heap : Heap) (hw : Hardware) (h : History)
    → Placed e₀
    → Enough fuel heap
    → Ready e₀ (start_e1000 fuel e₀ heap hw h).0 (start_e1000 fuel e₀ heap hw h).1 fuel
unfolding start_e1000 detect_eeprom
start_e1000-Ready fuel e₀ heap hw h p v =
    let (e₁, h₁) = detect_eeprom e₀ hw h in
    let (e, h₂) = read_e1000_hardware_address e₁ hw h₁ in
    let h₃ = (start_link e hw h₂).1 in
    let h₄ = (enable_interrupt e hw h₃).1 in
    let s : Same e₀ e =
      Same-trans e₀ e₁ e (eeprom_loop-Same 1000 e₀ hw (write_command e₀ reg_eeprom 0x1 hw h).1)
        (read_e1000_hardware_address-Same e₁ hw h₁) in
    let q = Placed-Same e₀ e s p in
    let (heap', h₅, run, t, w) = init_receive_descriptors_lem fuel e heap hw h₄ q v in
    let e' : E1000 = record e { rx_cur = 0 } in
    let whole = ap (λ (r : Option (E1000 × Heap) × History). after_some transmit r.0 hw r.1) run in
    let ready : Ready e₀ (some ((init_transmit_descriptors e' hw h₅).0, heap'))
        (init_transmit_descriptors e' hw h₅).1 fuel =
      (s, refl, ap (λ (r : ℕ × ℕ). r.0) (seen-init_transmit_descriptors e' q hw h₅) ∙ t, w) in
    subst (λ (r : Option (E1000 × Heap) × History). Ready e₀ r.0 r.1 fuel) (sym whole) ready
