-- ===== src/Network/E1000.antt =====
-- kernel/network/e1000.c and e1000.h: the network card. Its registers stand behind the PCI bus; its
-- descriptors lie in memory, where the card changes them too: they are accessed as device registers.
pub mod Receive
pub mod Ring
pub mod Init
mod Tests
use ninjastorms.Prelude.{
  ℕ, zero, suc, ◌+◌, ◌-◌, ◌*◌, ◌/◌, ◌%◌, ◌^◌, Bool, true, false, not, Option, none, some, List, [],
  ◌∷◌, if◌then◌else◌, ◌==◌, bit_and, bit_or,
}
use ninjastorms.Device.{Io, pure, ◌>>=◌, ◌>>◌, ◌>>?◌, after_some, read8, write8, write16, write64}
use ninjastorms.PciMemory.{pci_read32, pci_read64, pci_write32}
use ninjastorms.PciMemory.Ram.{le_bytes}
use ninjastorms.Malloc.{Heap, malloc}
use ninjastorms.Network.Mac.{Mac, ntoh_mac}
use ninjastorms.Network.Queue.{max_packet_size}

-- `e1000_device_t`: `base` is the address of the struct, where its descriptors stand, and `pci_device` is the
-- configuration base of the PCI device, if there is one.
pub record E1000 : Type 0 where
  pub base : ℕ
  pub io_base : ℕ
  pub mem_base : ℕ
  pub eeprom_exists : Bool
  pub mac : Mac
  pub rx_cur : ℕ
  pub tx_cur : ℕ
  pub pci_device : Option ℕ

abbrev pub e1000_num_rx_desc : ℕ
e1000_num_rx_desc = 32

abbrev pub e1000_num_tx_desc : ℕ
e1000_num_tx_desc = 8

-- `&e1000->rx_descs[i]` and `&e1000->tx_descs[i]`, of 16 bytes each
abbrev pub rx_desc : E1000 → ℕ → ℕ
rx_desc e i = e.base + i * 16

abbrev pub tx_desc : E1000 → ℕ → ℕ
tx_desc e i = e.base + e1000_num_rx_desc * 16 + i * 16

-- Where the fields stand in a descriptor.
abbrev pub addr_field : ℕ
addr_field = 0

abbrev pub length_field : ℕ
length_field = 8

abbrev pub cmd_field : ℕ
cmd_field = 11

abbrev pub status_field : ℕ
status_field = 12

abbrev pub reg_ctrl : ℕ
reg_ctrl = 0x0000

abbrev pub reg_eeprom : ℕ
reg_eeprom = 0x0014

abbrev pub reg_int_cause : ℕ
reg_int_cause = 0x00C0

abbrev pub reg_imask : ℕ
reg_imask = 0x00D0

abbrev pub reg_rctrl : ℕ
reg_rctrl = 0x0100

abbrev pub reg_rxdesclo : ℕ
reg_rxdesclo = 0x2800

abbrev pub reg_rxdeschi : ℕ
reg_rxdeschi = 0x2804

abbrev pub reg_rxdesclen : ℕ
reg_rxdesclen = 0x2808

abbrev pub reg_rxdeschead : ℕ
reg_rxdeschead = 0x2810

abbrev pub reg_rxdesctail : ℕ
reg_rxdesctail = 0x2818

abbrev pub reg_tctrl : ℕ
reg_tctrl = 0x0400

abbrev pub reg_txdesclo : ℕ
reg_txdesclo = 0x3800

abbrev pub reg_txdeschi : ℕ
reg_txdeschi = 0x3804

abbrev pub reg_txdesclen : ℕ
reg_txdesclen = 0x3808

abbrev pub reg_txdeschead : ℕ
reg_txdeschead = 0x3810

abbrev pub reg_txdesctail : ℕ
reg_txdesctail = 0x3818

abbrev pub reg_tipg : ℕ
reg_tipg = 0x0410

abbrev pub ectrl_slu : ℕ
ectrl_slu = 0x40

-- RCTL_EN | RCTL_SBP | RCTL_UPE | RCTL_MPE | RCTL_LBM_NONE | RTCL_RDMTS_HALF | RCTL_BAM | RCTL_SECRC |
-- RCTL_BSIZE_8192, which share no bit
abbrev pub receive_control : ℕ
receive_control =
    2 ^ 1 + 2 ^ 2 + 2 ^ 3 + 2 ^ 4 + 0 * 2 ^ 6 + 0 * 2 ^ 8 + 2 ^ 15 + 2 ^ 26 + (2 * 2 ^ 16 + 2 ^ 25)

-- TCTL_EN | TCTL_PSP and CMD_EOP | CMD_IFCS | CMD_RS
abbrev pub transmit_control : ℕ
transmit_control = 2 ^ 1 + 2 ^ 3

abbrev pub transmit_command : ℕ
transmit_command = 2 ^ 0 + 2 ^ 1 + 2 ^ 3

pub write_command : E1000 → ℕ → ℕ → Io Unit
write_command e address value = pci_write32 ((e.mem_base + address) % 2 ^ 32) value

pub read_command : E1000 → ℕ → Io ℕ
read_command e address = pci_read32 ((e.mem_base + address) % 2 ^ 32)

-- The loop of `detect_eeprom`, on the rounds left.
eeprom_loop : ℕ → E1000 → Io E1000
unfolding read_command
eeprom_loop zero e = pure e
eeprom_loop (suc n) e =
    if e.eeprom_exists
    then pure e
    else read_command e reg_eeprom >>= λ val.
        eeprom_loop n (record e { eeprom_exists = not (bit_and val 0x10 == 0) })

pub detect_eeprom : E1000 → Io E1000
unfolding write_command eeprom_loop
detect_eeprom e = do write_command e reg_eeprom 0x1; eeprom_loop 1000 e

-- The processor is little-endian where it copies the six bytes.
pub read_e1000_hardware_address : E1000 → Io E1000
read_e1000_hardware_address e = pci_read64 ((e.mem_base + 0x5400) % 2 ^ 32) >>= λ mac_data.
    if mac_data * 2 ^ 16 % 2 ^ 64 == 0
    then pure e
    else pure (record e { mac = ntoh_mac false (le_bytes 6 mac_data) })

-- The loop over the receive descriptors, on the rounds left. `malloc` gets fuel for its search; `none` says
-- that this was not enough.
descriptor_loop : ℕ → ℕ → ℕ → E1000 → Heap → Io (Option Heap)
descriptor_loop fuel zero i e heap = pure (some heap)
descriptor_loop fuel (suc n) i e heap = elim (malloc fuel (max_packet_size + 16) heap) [
  | none ↦ pure none
  | some (buffer, heap') ↦
      (write64 (rx_desc e i + addr_field) buffer >> write8 (rx_desc e i + status_field) 0)
      >> descriptor_loop fuel n (i + 1) e heap'
]

-- Behind the loop.
pub start_receiving : E1000 → Io Unit
unfolding write_command
start_receiving e = do
  write_command e reg_rxdesclo e.base
  write_command e reg_rxdeschi 0
  write_command e reg_rxdesclen (e1000_num_rx_desc * 16)
  write_command e reg_rxdeschead 0
  write_command e reg_rxdesctail (e1000_num_rx_desc - 1)
  write_command e reg_rctrl receive_control

pub init_receive_descriptors : ℕ → E1000 → Heap → Io (Option (E1000 × Heap))
unfolding descriptor_loop start_receiving
init_receive_descriptors fuel e heap = descriptor_loop fuel 32 0 e heap >>? λ heap'.
    (start_receiving e >> pure (some (record e { rx_cur = 0 }, heap')))

pub init_transmit_descriptors : E1000 → Io E1000
unfolding write_command read_command
init_transmit_descriptors e = do
  write_command e reg_txdesclo (e.base + e1000_num_rx_desc * 16)
  write_command e reg_txdeschi 0
  write_command e reg_txdesclen (e1000_num_tx_desc * 16)
  write_command e reg_txdeschead 0
  write_command e reg_txdesctail 0
  control ← read_command e reg_tctrl
  write_command e reg_tctrl (bit_or control transmit_control)
  write_command e reg_tipg 0x0060200A
  pure (record e { tx_cur = 0 })

pub enable_interrupt : E1000 → Io Unit
unfolding write_command
enable_interrupt e = write_command e reg_imask 0x1F2D4

pub start_link : E1000 → Io Unit
unfolding write_command read_command
start_link e = do flags ← read_command e reg_ctrl; write_command e reg_ctrl (bit_or flags ectrl_slu)

pub start_e1000 : ℕ → E1000 → Heap → Io (Option (E1000 × Heap))
unfolding detect_eeprom read_e1000_hardware_address start_link enable_interrupt
    init_receive_descriptors init_transmit_descriptors
start_e1000 fuel e₀ heap = do
  e₁ ← detect_eeprom e₀
  e ← read_e1000_hardware_address e₁
  start_link e
  enable_interrupt e
  init_receive_descriptors fuel e heap >>? λ (e', heap').
      (init_transmit_descriptors e' >>= λ e''. pure (some (e'', heap')))

pub e1000_is_available : E1000 → Bool
e1000_is_available e = elim e.pci_device [ none ↦ false | some d ↦ true ]

-- `while (!(curr->status));`, with the reads it may take.
poll_status : ℕ → ℕ → Io (Option Unit)
poll_status zero address = pure none
poll_status (suc n) address =
    let rest = poll_status n address in
    read8 address >>= λ status. if status == 0 then rest else pure (some tt)

-- `e1000_send_packet` with its result; -1 is 2^32 - 1.
pub e1000_send_packet : ℕ → ℕ → ℕ → E1000 → Io (Option (ℕ × E1000))
unfolding e1000_is_available poll_status write_command
e1000_send_packet rounds p_data p_len e =
    if not (e1000_is_available e)
    then pure (some (2 ^ 32 - 1, e))
    else let curr = tx_desc e e.tx_cur in
      let e' = record e { tx_cur = (e.tx_cur + 1) % e1000_num_tx_desc } in
      (write64 (curr + addr_field) p_data
        >> write16 (curr + length_field) p_len
        >> write8 (curr + cmd_field) transmit_command
        >> write8 (curr + status_field) 0
        >> write_command e' reg_txdesctail e'.tx_cur
        >> poll_status rounds (curr + status_field))
      >>? λ _. pure (some (0, e'))
