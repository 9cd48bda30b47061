-- ===== src/Network/Routing/Slot.antt =====
-- The slot that `arp_table_add_entry` writes.
use native.Mathlib.Decide.{ℕ_discrete}
use ninjastorms.Prelude.{
  ℕ, Bool-cases, zero, suc, ◌+◌, ◌<◌, ◌≤◌, ◌≡◌, ◌≢◌, refl, inl, inr, if◌then◌else◌, ◌==◌, ltb,
  arith, true, false, Option, some, length, set, length-set, get_or-set_self, get_or-set_ne,
}
use ninjastorms.Network.Mac.{Mac}
use ninjastorms.Network.Routing.{
  Entry, Table, arp_null_entry, slot_loop, arp_slot, arp_table_add_entry, max_arp_table_entries,
}
use ninjastorms.Network.Routing.Find.{entry_at}

abbrev pub time_at : Table → ℕ → ℕ
time_at table i = (entry_at table i).entry_time

-- The first free slot before `end`; or, when no slot is free, one with the least time.
pub data BestSlot (table : Table) (end k : ℕ) : Type 0 where
  is_free : time_at table k ≡ 0 → ((j : ℕ) → j < k → time_at table j ≢ 0) → BestSlot table end k
  is_oldest :
      ((j : ℕ) → j < end → (time_at table j ≢ 0) × (time_at table k ≤ time_at table j))
      → BestSlot table end k

-- The older of two slots, as the loop chooses it.
older : Table → ℕ → ℕ → ℕ
older table i slot = if ltb (time_at table i) (time_at table slot) then i else slot

older_lem :
    (table : Table) (i slot end : ℕ)
    → i < end
    → slot < end
    → (older table i slot < end)
      × (time_at table (older table i slot) ≤ time_at table i)
      × (time_at table (older table i slot) ≤ time_at table slot)
unfolding older
older_lem table i slot end h k = elim (Bool-cases (ltb (time_at table i) (time_at table slot))) [
  | inl less ↦ rw less (h, ground arith, ground arith)
  | inr more ↦ rw more (k, ground arith, ground arith)
]

-- The loop from entry `i` on, when no entry before it is free and `slot` is the oldest so far.
slot_loop-BestSlot :
    (n i end : ℕ) (table : Table) (slot : ℕ)
    → i + n ≡ end
    → slot < end
    → ((j : ℕ) → j < i → (time_at table j ≢ 0) × (time_at table slot ≤ time_at table j))
    → (slot_loop table n i slot < end) × BestSlot table end (slot_loop table n i slot)
unfolding slot_loop older
slot_loop-BestSlot zero i end table slot e s before = (s, is_oldest (λ j h. before j (omega arith)))
slot_loop-BestSlot (suc n) i end table slot e s before = elim (ℕ_discrete (time_at table i) 0) [
  | yes free ↦
      let t : (time_at table i == 0) ≡ true = ground arith in
      rw t (omega arith, is_free free (λ j h. (before j h).0))
  | no used ↦
      let t : (time_at table i == 0) ≡ false = ground arith in
      let (inside, le_i, le_slot) = older_lem table i slot end (omega arith) s in
      rw t (
        slot_loop-BestSlot n (i + 1) end table (older table i slot) (omega arith) inside λ j h.
          elim (ℕ_discrete i j) [
            | yes p ↦ rw (← p) (used, le_i)
            | no ne ↦ let b = before j (omega arith) in (b.0, omega (arith, le_slot, b.1))
          ])
]

-- The slot lies inside the table: it is the first free one, or when none is free one whose time no other entry's
-- precedes.
pub arp_slot-BestSlot :
    (table : Table)
    → (arp_slot table < max_arp_table_entries)
      × BestSlot table max_arp_table_entries (arp_slot table)
unfolding arp_slot
arp_slot-BestSlot table =
    slot_loop-BestSlot max_arp_table_entries 0 max_arp_table_entries table 0 refl (omega arith)
      (λ j h. absurd (omega arith))

-- A table whose slot `k` has a new entry, and whose other slots are as before.
abbrev pub Written : Table → ℕ → Entry → Option Table → Type 0
Written table k new result =
    (t : Table) × (result ≡ some t)
    × (length t ≡ length table)
    × (entry_at t k ≡ new)
    × ((j : ℕ) → k ≢ j → entry_at t j ≡ entry_at table j)

-- On a table of ten entries, `arp_table_add_entry` writes the IP address, the MAC address and the time into one slot of
-- the table and leaves the other nine as they are: it is the first free slot, or when none is free one whose time no
-- other entry's precedes.
pub arp_table_add_entry-BestSlot :
    (now ip : ℕ) (mac : Mac) (table : Table)
    → length table ≡ max_arp_table_entries
    → (k : ℕ) × (k < max_arp_table_entries)
      × BestSlot table max_arp_table_entries k
      × Written table k
          (record { ip = ip; mac = mac; entry_time = now })
          (arp_table_add_entry now mac ip (some table))
unfolding arp_table_add_entry
arp_table_add_entry-BestSlot now ip mac table size =
    let new : Entry = record { ip = ip; mac = mac; entry_time = now } in
    let k = arp_slot table in
    let (inside, best) = arp_slot-BestSlot table in
    (
      k,
      inside,
      best,
      (
        set table k new,
        refl,
        length-set table k new,
        get_or-set_self table k new arp_null_entry (omega arith),
        λ j ne. get_or-set_ne table k j new arp_null_entry ne,
      ),
    )
