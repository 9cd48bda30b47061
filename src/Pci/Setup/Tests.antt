-- ===== src/Pci/Setup/Tests.antt =====
-- A board with its PCI core in slot 13 and a network card in slot 12.
use ninjastorms.Prelude.{
  ℕ, ◌+◌, ◌-◌, ◌*◌, ◌%◌, ◌^◌, ◌<◌, ◌≡◌, ◌≢◌, refl, ap, false, arith, inl, [], if◌then◌else◌, ◌==◌,
  get_or,
}
use ninjastorms.Device.{History, Hardware, last_put}
use ninjastorms.Pci.{
  zero_device, max_pci_devices, pci_devices, pci_invalid_vendor, device_addr, pci_get_device,
}
use ninjastorms.Pci.Enumerate.{First, has_device, vendor_at}
use ninjastorms.Pci.Setup.{
  vp_pci_dev_id, vp_pci_class_id, pci_self_config, pci_imap0, pci_imap1, pci_imap2, configure_board,
  pci_init, get_bar_size, pci_bar,
}
use ninjastorms.Pci.Setup.Core.{Configured, configure_board_lem}
use ninjastorms.Pci.Setup.Bar.{get_bar_size_lem}
use ninjastorms.Pci.Setup.Table.{pci_init-finds}

-- The registers of the slots behind `pci_self_config`.
abbrev self : ℕ → ℕ
self a =
    if a == 13 * 2 ^ 11 then vp_pci_dev_id else if a == 13 * 2 ^ 11 + 8 then vp_pci_class_id else 0

abbrev ids : ℕ → ℕ
ids address =
    if address == device_addr 12
    then 0x8086
    else if address == device_addr 12 + 2
    then 0x100E
    else 0xFFFF

-- The register of a region of 128 KB in memory.
abbrev bar : History → ℕ
bar h = if last_put (device_addr 12 + pci_bar 0) h == 0xFFFFFFFF then 0xFFFE0000 else 0

ids-lt : (a : ℕ) → ids a % 2 ^ 16 ≡ ids a
ids-lt a = ground arith

abbrev board : Hardware
board h w a =
    if w == 2
    then ids a
    else if a == device_addr 12 + pci_bar 0
    then bar h
    else self (a - pci_self_config)

board-self : (h : History) (a : ℕ) → a < 2 ^ 16 → board h 4 (pci_self_config + a) ≡ self a
board-self h a l =
    let other : (pci_self_config + a == device_addr 12 + pci_bar 0) ≡ false = ground arith in
    let e : pci_self_config + a - pci_self_config ≡ a = omega arith in rw other (ap self e)

configure_board_lem_example :
    let (r, h') = configure_board 0 [] board [] in
    (last_put pci_imap0 h' ≡ 4)
    × (last_put pci_imap1 h' ≡ 5)
    × (last_put pci_imap2 h' ≡ 6)
    × Configured self r [] h'
configure_board_lem_example = configure_board_lem board self 0 [] [] board-self

pci_init-finds_example :
    let devices = (pci_init 0 [] pci_devices board []).0 in
    First (has_device ids 0x8086 0x100E) max_pci_devices (pci_get_device 0x8086 0x100E devices)
    × ((k : ℕ)
        → k < max_pci_devices
        → vendor_at ids k ≢ pci_invalid_vendor
        → (get_or devices k zero_device).config_base ≡ device_addr (k + 11))
pci_init-finds_example =
    pci_init-finds board ids 0 [] [] 0x8086 0x100E (λ h a lo hi. ids-lt a) (omega arith)
      (inl (omega arith))

get_bar_size_lem_example :
    ((get_bar_size (device_addr 12) 0 board []).0 ≡ 8192 * 2 ^ 4)
    × (last_put (device_addr 12 + pci_bar 0) (get_bar_size (device_addr 12) 0 board []).1 ≡ 0)
get_bar_size_lem_example =
    get_bar_size_lem board [] (device_addr 12) 0 8192 0 (λ h e. rw e refl) (omega arith)
      (omega arith) (omega arith)
