-- ===== src/Network/Ipv4.antt =====
-- `ipv4_send` of kernel/network/ipv4.c. While it waits, the receive task changes the ARP table and the
-- clock goes on: `world k` is what the k-th round of the loop finds. A call of `ethernet_send` is a
-- value: the destination.
pub mod Send
pub mod Print
use ninjastorms.Prelude.{
  ℕ, zero, suc, ◌+◌, ◌-◌, ◌%◌, ◌^◌, Bool, true, false, not, Option, none, some, List, [], ◌∷◌,
  if◌then◌else◌, ltb,
}
use ninjastorms.Network.Mac.{Mac, null_mac, mac_address_equal}
use ninjastorms.Network.Routing.{Table, Readings, arp_table_lookup}
use ninjastorms.Network.Arp.{Host, ArpSending, get_mac}

abbrev pub wait_on_arp_timeout : ℕ
wait_on_arp_timeout = 5

-- What one round finds: the table, the clock during its look-up, and the clock at its test.
pub record Round : Type 0 where
  pub table : Option Table
  pub seconds : Readings
  pub now : ℕ

-- How `ipv4_send` ends: with -1, or with 0 and the packet handed on to an address.
pub data Outcome : Type 0 where
  timed_out : Outcome
  sent : Mac → Outcome

-- The loop from its `k`-th round on; `none` means that the fuel ran out.
wait_loop : (ℕ → Round) → ℕ → ℕ → ℕ → ℕ → Mac → Option Outcome
wait_loop world ip start zero k dest_mac = none
wait_loop world ip start (suc fuel) k dest_mac =
    let found = (arp_table_lookup (world k).seconds ip (world k).table).0 in
    let rest = wait_loop world ip start fuel (k + 1) found in
    if mac_address_equal dest_mac null_mac
    then (if ltb wait_on_arp_timeout (((world k).now + 2 ^ 64 - start) % 2 ^ 64)
        then some timed_out
        else rest)
    else some (sent dest_mac)

-- `seconds` and `table` are for `arp_table_get_mac`, which may send a request; `start` is the clock
-- behind it.
pub ipv4_send :
    ℕ → Host → Readings → ℕ → (ℕ → Round) → ℕ → Option Table → List ArpSending × Option Outcome
unfolding wait_loop
ipv4_send fuel host seconds start world ip table =
    let (dest_mac, requests, _) = get_mac host seconds ip table in
    (requests, wait_loop world ip start fuel 0 dest_mac)
