-- ===== src/Network/Routing.antt =====
-- kernel/network/routing.c: the ARP table. The clock goes on while the table is searched, so its
-- readings are a function: `seconds k` is what the k-th reading of `clock_seconds` in a call gives.
pub mod Find
pub mod Slot
pub mod Table
pub mod Init
pub mod Print
mod Tests
use ninjastorms.Prelude.{
  ℕ, zero, suc, ◌+◌, ◌-◌, ◌*◌, ◌%◌, ◌^◌, Bool, true, false, not, ◌&&◌, Option, none, some, List, [],
  ◌∷◌, if◌then◌else◌, ◌==◌, ltb, get_or, set, replicate,
}
use ninjastorms.Device.{Io, pure, ◌>>◌}
use ninjastorms.Clock.{Clock}
use ninjastorms.Logger.{log}
use ninjastorms.Network.Mac.{Mac, null_mac, mac_address_equal}

-- `arp_table_entry_t`; `ip` has 32 bits, `entry_time` 64.
pub record Entry : Type 0 where
  pub ip : ℕ
  pub mac : Mac
  pub entry_time : ℕ

abbrev pub max_arp_table_entries : ℕ
max_arp_table_entries = 10

abbrev pub max_arp_table_age : ℕ
max_arp_table_age = 300

abbrev pub arp_null_entry : Entry
arp_null_entry = record { ip = 0; mac = null_mac; entry_time = 0 }

abbrev pub Table : Type 0
Table = List Entry

-- The readings of `clock_seconds` in one call, in order.
abbrev pub Readings : Type 0
Readings = ℕ → ℕ

-- The result -1 as an `uint32_t`.
abbrev pub not_found : ℕ
not_found = 2 ^ 32 - 1

-- `entry.entry_time && clock_seconds() - entry.entry_time > MAX_ARP_TABLE_AGE`, on 64 bits.
unfoldable pub is_expired : ℕ → Entry → Bool
is_expired now entry =
    not (entry.entry_time == 0)
    && ltb max_arp_table_age ((now + 2 ^ 64 - entry.entry_time) % 2 ^ 64)

-- One round of the loop of `arp_table_find`, which reads the clock at most twice.
unfoldable pub find_step : Readings → ℕ → ℕ → ℕ × Table → ℕ × Table
find_step seconds ip i (res, table) =
    let entry = get_or table i arp_null_entry in
    if is_expired (seconds (2 * i)) entry
    then (res, set table i arp_null_entry)
    else if entry.ip == ip
    then (i, set table i (record entry { entry_time = seconds (2 * i + 1) }))
    else (res, table)

unfoldable pub find_loop : Readings → ℕ → ℕ → ℕ → ℕ × Table → ℕ × Table
find_loop seconds ip zero i s = s
find_loop seconds ip (suc n) i s = find_loop seconds ip n (i + 1) (find_step seconds ip i s)

-- `arp_table` is null until `routing_init` has run: then it is `none`, and nothing changes.
unfoldable pub arp_table_find : Readings → ℕ → Table → ℕ × Table
unfolding find_loop
arp_table_find seconds ip table = find_loop seconds ip max_arp_table_entries 0 (not_found, table)

pub arp_table_lookup : Readings → ℕ → Option Table → Mac × Option Table
arp_table_lookup seconds ip none = (null_mac, none)
arp_table_lookup seconds ip (some table) =
    let (position, table') = arp_table_find seconds ip table in
    if not (position == not_found)
    then ((get_or table' position arp_null_entry).mac, some table')
    else (null_mac, some table')

-- The second component says whether an ARP request for the address is sent.
pub arp_table_get_mac : Readings → ℕ → Option Table → Mac × Bool × Option Table
arp_table_get_mac seconds ip none = (null_mac, false, none)
arp_table_get_mac seconds ip (some table) =
    let (mac, table') = arp_table_lookup seconds ip (some table) in
    if mac_address_equal null_mac mac then (null_mac, true, table') else (mac, false, table')

-- The loop of `arp_table_add_entry`; `break` returns.
slot_loop : Table → ℕ → ℕ → ℕ → ℕ
slot_loop table zero i slot = slot
slot_loop table (suc n) i slot =
    let time = (get_or table i arp_null_entry).entry_time in
    let rest =
      slot_loop table n (i + 1)
        (if ltb time (get_or table slot arp_null_entry).entry_time then i else slot) in
    if time == 0 then i else rest

pub arp_slot : Table → ℕ
unfolding slot_loop
arp_slot table = slot_loop table max_arp_table_entries 0 0

pub arp_table_add_entry : ℕ → Mac → ℕ → Option Table → Option Table
arp_table_add_entry now mac ip none = none
arp_table_add_entry now mac ip (some table) =
    some (set table (arp_slot table) (record { ip = ip; mac = mac; entry_time = now }))

unfoldable pub arp_table_update : Readings → Mac → ℕ → Option Table → Bool × Option Table
arp_table_update seconds mac ip none = (false, none)
arp_table_update seconds mac ip (some table) =
    let (position, table') = arp_table_find seconds ip table in
    if not (position == not_found)
    then (
      true,
      some (set table' position (record (get_or table' position arp_null_entry) { mac = mac })),
    )
    else (false, some table')

-- `for (i = 0; i < MAX_ARP_TABLE_ENTRIES; i++) arp_table[i] = ARP_NULL_ENTRY`
init_loop : ℕ → ℕ → Table → Table
init_loop zero i table = table
init_loop (suc n) i table = init_loop n (i + 1) (set table i arp_null_entry)

-- "Allocating memory for arp table failed!"
abbrev pub no_table : List ℕ
no_table =
    b'A' ∷ b'l' ∷ b'l' ∷ b'o' ∷ b'c' ∷ b'a' ∷ b't' ∷ b'i' ∷ b'n' ∷ b'g' ∷ b' ' ∷ b'm' ∷ b'e' ∷ b'm'
    ∷ b'o' ∷ b'r' ∷ b'y' ∷ b' ' ∷ b'f' ∷ b'o' ∷ b'r' ∷ b' ' ∷ b'a' ∷ b'r' ∷ b'p' ∷ b' ' ∷ b't'
    ∷ b'a' ∷ b'b' ∷ b'l' ∷ b'e' ∷ b' ' ∷ b'f' ∷ b'a' ∷ b'i' ∷ b'l' ∷ b'e' ∷ b'd' ∷ b'!' ∷ []

-- On the clock and the path of the source file for the log. `memory` is what the array from `malloc` holds, `none` if
-- there is no memory; the result is the pointer `arp_table`.
pub routing_init : Clock → List ℕ → Option Table → Option Table → Io (Option Table)
unfolding init_loop
routing_init clock file memory (some table) = pure (some table)
routing_init clock file none none = log clock 3 file no_table >> pure none
routing_init clock file (some memory) none = pure (some (init_loop max_arp_table_entries 0 memory))
