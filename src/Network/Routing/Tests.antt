-- ===== src/Network/Routing/Tests.antt =====
-- The ARP table's theorems at a table with one entry.
use ninjastorms.Prelude.{ℕ, ◌<◌, ◌≡◌, refl, true, false, some, [], ◌∷◌, arith, replicate}
use ninjastorms.Network.Mac.{Mac}
use ninjastorms.Network.Routing.{
  Table, Readings, arp_null_entry, arp_table_find, arp_table_lookup, arp_table_update,
  arp_table_add_entry, is_expired, find_step, find_loop, not_found, max_arp_table_entries,
}
use ninjastorms.Network.Routing.Find.{Searched, arp_table_find-Searched}
use ninjastorms.Network.Routing.Slot.{BestSlot, Written, arp_table_add_entry-BestSlot}
use ninjastorms.Network.Routing.Table.{lookup-add_entry}

abbrev gateway : Mac
gateway = 0x52 ∷ 0x55 ∷ 0x0a ∷ 0x00 ∷ 0x02 ∷ 0x02 ∷ []

abbrev own : Mac
own = 0x52 ∷ 0x54 ∷ 0x00 ∷ 0x12 ∷ 0x34 ∷ 0x56 ∷ []

-- 10.0.2.2, entered in second 50.
abbrev one_entry : Table
one_entry = record { ip = 0x0A000202; mac = gateway; entry_time = 50 } ∷ replicate 9 arp_null_entry

-- The clock stands.
abbrev at : ℕ → Readings
at now k = now

arp_table_find-Searched_example :
    Searched
      (at 60)
      0x0A000202
      0
      max_arp_table_entries
      (not_found, one_entry)
      (arp_table_find (at 60) 0x0A000202 one_entry)
arp_table_find-Searched_example = arp_table_find-Searched (at 60) 0x0A000202 one_entry refl

arp_table_add_entry-BestSlot_example :
    (k : ℕ) × (k < max_arp_table_entries)
    × BestSlot one_entry max_arp_table_entries k
    × Written one_entry k
        (record { ip = 0x0A000203; mac = own; entry_time = 61 })
        (arp_table_add_entry 61 own 0x0A000203 (some one_entry))
arp_table_add_entry-BestSlot_example = arp_table_add_entry-BestSlot 61 0x0A000203 own one_entry refl

-- An address that the table does not know.
misses : arp_table_update (at 60) own 0x0A000203 (some one_entry) ≡ (false, some one_entry)
unfolding arp_table_update arp_table_find find_loop find_step is_expired
misses = refl

lookup-add_entry_example :
    (arp_table_lookup (at 70) 0x0A000203 (arp_table_add_entry 61 own 0x0A000203 (some one_entry))).0
    ≡ own
lookup-add_entry_example =
    lookup-add_entry (at 60) (at 70) 61 0x0A000203 own own one_entry one_entry refl (omega arith)
      misses (λ l. omega arith)

-- One that it does.
hits : arp_table_update (at 60) own 0x0A000202 (some one_entry) ≡ (
  true,
  some (record { ip = 0x0A000202; mac = own; entry_time = 60 } ∷ replicate 9 arp_null_entry),
)
unfolding arp_table_update arp_table_find find_loop find_step is_expired
hits = refl
