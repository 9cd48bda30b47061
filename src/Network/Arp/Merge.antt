-- ===== src/Network/Arp/Merge.antt =====
-- What `arp_receive` learns from a frame.
use ninjastorms.Prelude.{
  ℕ, ◌+◌, ◌<◌, ◌≤◌, ◌≡◌, ◌≢◌, ◌∙◌, Bool, true, false, Option, some, arith, length, ◌^◌,
}
use ninjastorms.Network.ByteOrder.{ntohl}
use ninjastorms.Network.Mac.{Mac, ntoh_mac}
use ninjastorms.Network.Routing.{
  Table, Readings, arp_table_update, arp_table_add_entry, arp_table_lookup, max_arp_table_entries,
  max_arp_table_age,
}
use ninjastorms.Network.Routing.Find.{entry_at}
use ninjastorms.Network.Routing.Table.{
  lookup-add_entry, lookup-update, update-some, update_none_left,
}
use ninjastorms.Network.Arp.{ArpFrame, Host, is_supported, merge, arp_receive, own_ipv4_addr}

abbrev sender_mac : Host → ArpFrame → Mac
sender_mac host frame = ntoh_mac host.big_endian frame.src_hardware_addr

abbrev sender_ip : Host → ArpFrame → ℕ
sender_ip host frame = ntohl host.big_endian frame.src_ip_address

receive_merges :
    (host : Host) (seconds : Readings) (now : ℕ) (frame : ArpFrame) (table : Option Table)
    → is_supported host frame ≡ true
    → (arp_receive host seconds now frame table).0 ≡ merge host seconds now frame table
unfolding arp_receive
receive_merges host seconds now frame table h = ground arith

-- The clock of a later lookup: at most 300 seconds behind each reading of the frame's handling.
pub record Soon (seconds : Readings) (now : ℕ) (later : Readings) : Type 0 where
  pub behind_update :
      (k l : ℕ)
      → (seconds k ≤ later l) × (later l ≤ seconds k + max_arp_table_age) × (later l < 2 ^ 64)
  pub behind_entry :
      (l : ℕ) → (now ≤ later l) × (later l ≤ now + max_arp_table_age) × (later l < 2 ^ 64)

-- The table behind a frame, by whether it is for this host and whether the update found the sender.
module _ (host : Host) (seconds : Readings) (now : ℕ) (frame : ArpFrame) (table t : Table) where
  abbrev Updated : Bool → Type 0
  Updated b =
      arp_table_update seconds (sender_mac host frame) (sender_ip host frame) (some table)
      ≡ (b, some t)

  merge_known : Updated true → merge host seconds now frame (some table) ≡ some t
  unfolding merge
  merge_known e = ground arith

  merge_new :
      Updated false
      → ntohl host.big_endian frame.dest_ip_address ≡ own_ipv4_addr
      → merge host seconds now frame (some table)
        ≡ arp_table_add_entry now (sender_mac host frame) (sender_ip host frame) (some t)
  unfolding merge
  merge_new e to_us = ground arith

  merge_other :
      Updated false
      → ntohl host.big_endian frame.dest_ip_address ≢ own_ipv4_addr
      → merge host seconds now frame (some table) ≡ some t
  unfolding merge
  merge_other e other = ground arith

-- With a table of ten entries, after a supported ARP frame to this host from an IP address other
-- than 0 the sender's IP address is looked up as the sender's MAC address, by the clock of the 300
-- seconds that follow, whether it was in the table or not.
pub arp_receive-lookup :
    (host : Host) (seconds later : Readings) (now : ℕ) (frame : ArpFrame) (table : Table)
    → length table ≡ max_arp_table_entries
    → ntohl host.big_endian frame.src_ip_address ≢ 0
    → is_supported host frame ≡ true
    → ntohl host.big_endian frame.dest_ip_address ≡ own_ipv4_addr
    → Soon seconds now later
    → (arp_table_lookup later
        (ntohl host.big_endian frame.src_ip_address)
        (arp_receive host seconds now frame (some table)).0).0
      ≡ ntoh_mac host.big_endian frame.src_hardware_addr
arp_receive-lookup host seconds later now frame table size n supported to_us soon =
    let (b, t, e) = update-some seconds (sender_mac host frame) (sender_ip host frame) table in
    rw (receive_merges host seconds now frame (some table) supported) (go b t e)
  where
    go :
        (b : Bool) (t : Table)
        → Updated host seconds now frame table t b
        → (arp_table_lookup later
            (sender_ip host frame)
            (merge host seconds now frame (some table))).0
          ≡ sender_mac host frame
    go true t e = rw (merge_known host seconds now frame table t e) (
        lookup-update seconds later (sender_ip host frame) (sender_mac host frame) table t size n e
          soon.behind_update)
    go false t e = rw (merge_new host seconds now frame table t e to_us) (
        lookup-add_entry seconds later now (sender_ip host frame) (sender_mac host frame)
          (sender_mac host frame) table t size n e soon.behind_entry)

-- With a table of ten entries, a supported frame from an IP address other than 0 to another host enters no sender that the table does not know: after an update
-- in vain no entry has the sender's IP address.
pub arp_receive-no_entry :
    (host : Host) (seconds : Readings) (now : ℕ) (frame : ArpFrame) (table t : Table)
    → length table ≡ max_arp_table_entries
    → ntohl host.big_endian frame.src_ip_address ≢ 0
    → is_supported host frame ≡ true
    → ntohl host.big_endian frame.dest_ip_address ≢ own_ipv4_addr
    → arp_table_update seconds
        (ntoh_mac host.big_endian frame.src_hardware_addr)
        (ntohl host.big_endian frame.src_ip_address)
        (some table)
      ≡ (false, some t)
    → ((arp_receive host seconds now frame (some table)).0 ≡ some t)
      × ((j : ℕ)
          → j < max_arp_table_entries
          → (entry_at t j).ip ≢ ntohl host.big_endian frame.src_ip_address)
arp_receive-no_entry host seconds now frame table t size n supported other e = (
  receive_merges host seconds now frame (some table) supported
      ∙ merge_other host seconds now frame table t e other,
  update_none_left seconds (sender_mac host frame) (sender_ip host frame) table t size n e,
)
