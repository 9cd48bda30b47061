-- ===== src/Network/Routing/Table.antt =====
-- The ARP table of kernel/network/routing.c as a map from IP addresses to MAC addresses.
use native.Mathlib.Decide.{dec_lt}
use ninjastorms.Prelude.{
  ℕ, ◌+◌, ◌*◌, ◌^◌, ◌<◌, ◌≤◌, ◌≡◌, ◌≢◌, refl, sym, ◌∙◌, ap, inl, inr, true, false, set, arith,
  length, length-set, get_or-set_self, get_or-set_ne, some, Bool, Bool-cases, ◌==◌,
}
use ninjastorms.Network.Mac.{Mac}
use ninjastorms.Network.Routing.{
  Entry, Table, Readings, arp_null_entry, is_expired, arp_table_find, arp_table_lookup,
  arp_table_update, arp_table_add_entry, arp_slot, not_found, max_arp_table_entries,
  max_arp_table_age,
}
use ninjastorms.Network.Routing.Find.{
  entry_at, swept, is_hit, Searched, ResultOf, arp_table_find-Searched,
}
use ninjastorms.Network.Routing.Slot.{arp_slot-BestSlot}

hit_ip : (seconds : Readings) (ip i : ℕ) (e : Entry) → is_hit seconds ip i e ≡ true → e.ip ≡ ip
unfolding is_hit
hit_ip seconds ip i e h = ground arith

-- Only a hit is left with the address.
swept_ip :
    (seconds : Readings) (ip i : ℕ) (e : Entry)
    → ip ≢ 0
    → is_hit seconds ip i e ≡ false
    → (swept seconds ip i e).ip ≢ ip
unfolding swept is_hit
swept_ip seconds ip i e n h = λ p. ground arith

swept_hit :
    (seconds : Readings) (ip i : ℕ) (e : Entry)
    → is_hit seconds ip i e ≡ true
    → swept seconds ip i e ≡ record e { entry_time = seconds (2 * i + 1) }
unfolding swept is_hit
swept_hit seconds ip i e h = ground arith

-- An entry no older than 300 seconds is a hit.
young_hit :
    (seconds : Readings) (ip i : ℕ) (e : Entry)
    → e.ip ≡ ip
    → e.entry_time ≤ seconds (2 * i)
    → seconds (2 * i) ≤ e.entry_time + max_arp_table_age
    → seconds (2 * i) < 2 ^ 64
    → is_hit seconds ip i e ≡ true
unfolding is_hit is_expired
young_hit seconds ip i e p lo hi w = ground arith

-- The entries behind the index do not have the address.
abbrev pub NoneBehind : ℕ → Table → ℕ → Type 0
NoneBehind ip table p = (j : ℕ) → p < j → j < max_arp_table_entries → (entry_at table j).ip ≢ ip

-- The last entry with the address, if it is not expired, is what the search returns.
find_last :
    (seconds : Readings) (ip p : ℕ) (table : Table)
    → length table ≡ max_arp_table_entries
    → p < max_arp_table_entries
    → is_hit seconds ip p (entry_at table p) ≡ true
    → NoneBehind ip table p
    → (arp_table_find seconds ip table).0 ≡ p
find_last seconds ip p table size p_in hit behind =
    go (arp_table_find seconds ip table).0 (arp_table_find-Searched seconds ip table size).result
  where
    go : (r : ℕ) → ResultOf seconds ip 0 max_arp_table_entries (not_found, table) r → r ≡ p
    go r (inl (_, none_hit)) = absurd (ground (arith, none_hit p (omega arith) p_in, hit))
    go r (inr (_, r_in, r_hit, after)) = elim (dec_lt r p) [
      | yes less ↦ absurd (ground (arith, after p less p_in, hit))
      | no h ↦ elim (dec_lt p r) [
        | yes more ↦ absurd (behind r more r_in (hit_ip seconds ip r (entry_at table r) r_hit))
        | no k ↦ omega arith
      ]
    ]

-- Then the lookup returns its MAC address.
lookup_last :
    (seconds : Readings) (ip p : ℕ) (table : Table)
    → length table ≡ max_arp_table_entries
    → p < max_arp_table_entries
    → is_hit seconds ip p (entry_at table p) ≡ true
    → NoneBehind ip table p
    → (arp_table_lookup seconds ip (some table)).0 ≡ (entry_at table p).mac
unfolding arp_table_lookup
lookup_last seconds ip p table size p_in hit behind =
    let r = find_last seconds ip p table size p_in hit behind in
    let s = arp_table_find-Searched seconds ip table size in
    let keeps : entry_at (arp_table_find seconds ip table).1 p
        ≡ record (entry_at table p) { entry_time = seconds (2 * p + 1) } =
      s.done p (omega arith) p_in ∙ swept_hit seconds ip p (entry_at table p) hit in
    ground (arith, r, keeps)

-- What `arp_table_update` returns, by the result of its search.
update_false :
    (seconds : Readings) (mac : Mac) (ip : ℕ) (table t : Table)
    → arp_table_update seconds mac ip (some table) ≡ (false, some t)
    → ((arp_table_find seconds ip table).0 ≡ not_found) × ((arp_table_find seconds ip table).1 ≡ t)
unfolding arp_table_update
update_false seconds mac ip table t h = ground arith

update_true :
    (seconds : Readings) (mac : Mac) (ip : ℕ) (table t : Table)
    → arp_table_update seconds mac ip (some table) ≡ (true, some t)
    → let (p, found) = arp_table_find seconds ip table in
      (p ≢ not_found) × (set found p (record (entry_at found p) { mac = mac }) ≡ t)
unfolding arp_table_update
update_true seconds mac ip table t h = ground arith

-- After a search in vain no entry has the address.
none_left :
    (seconds : Readings) (ip : ℕ) (table : Table)
    → length table ≡ max_arp_table_entries
    → ip ≢ 0
    → (arp_table_find seconds ip table).0 ≡ not_found
    → (j : ℕ) → j < max_arp_table_entries
    → (entry_at (arp_table_find seconds ip table).1 j).ip ≢ ip
none_left seconds ip table size n e j h =
    let s = arp_table_find-Searched seconds ip table size in
    rw (s.done j (omega arith) h) (swept_ip seconds ip j (entry_at table j) n (miss s.result))
  where
    miss :
        ResultOf seconds ip 0 max_arp_table_entries
          (not_found, table)
          (arp_table_find seconds ip table).0
        → is_hit seconds ip j (entry_at table j) ≡ false
    miss (inl (_, none_hit)) = none_hit j (omega arith) h
    miss (inr (_, r_in, _, _)) = absurd (omega (arith, e))

-- In a table of ten entries, an IP address other than 0 that an update did not find and that is then
-- entered with a MAC address is looked up as this address, in the 300 seconds that follow.
pub lookup-add_entry :
    (seconds later : Readings) (now ip : ℕ) (old mac : Mac) (table t : Table)
    → length table ≡ max_arp_table_entries
    → ip ≢ 0
    → arp_table_update seconds old ip (some table) ≡ (false, some t)
    → ((k : ℕ) → (now ≤ later k) × (later k ≤ now + max_arp_table_age) × (later k < 2 ^ 64))
    → (arp_table_lookup later ip (arp_table_add_entry now mac ip (some t))).0 ≡ mac
unfolding arp_table_add_entry
lookup-add_entry seconds later now ip old mac table t size n e time =
    let (missed, same) = update_false seconds old ip table t e in
    let s = arp_table_find-Searched seconds ip table size in
    let size' : length t ≡ max_arp_table_entries = ap length (sym same) ∙ s.size ∙ size in
    let new : Entry = record { ip = ip; mac = mac; entry_time = now } in
    let (k_in, _) = arp_slot-BestSlot t in
    let here : entry_at (set t (arp_slot t) new) (arp_slot t) ≡ new =
      get_or-set_self t (arp_slot t) new arp_null_entry (omega arith) in
    let (lo, hi, w) = time (2 * arp_slot t) in
    lookup_last later ip (arp_slot t) (set t (arp_slot t) new)
      (length-set t (arp_slot t) new ∙ size') k_in
      (rw here (young_hit later ip (arp_slot t) new refl lo hi w))
      (λ j above j_in.
        let other : entry_at (set t (arp_slot t) new) j ≡ entry_at t j =
          get_or-set_ne t (arp_slot t) j new arp_null_entry (omega arith) in
        rw (other, ← same) (none_left seconds ip table size n missed j j_in))
    ∙ ap (λ (x : Entry). x.mac) here

-- In a table of ten entries, an IP address other than 0 that an update found is looked up as the MAC
-- address that it was updated with, in the 300 seconds that follow.
pub lookup-update :
    (seconds later : Readings) (ip : ℕ) (mac : Mac) (table t : Table)
    → length table ≡ max_arp_table_entries
    → ip ≢ 0
    → arp_table_update seconds mac ip (some table) ≡ (true, some t)
    → ((k l : ℕ)
        → (seconds k ≤ later l) × (later l ≤ seconds k + max_arp_table_age) × (later l < 2 ^ 64))
    → (arp_table_lookup later ip (some t)).0 ≡ mac
lookup-update seconds later ip mac table t size n e time =
    let (found, same) = update_true seconds mac ip table t e in go found same s.result
  where
    p : ℕ
    p = (arp_table_find seconds ip table).0

    swept_table : Table
    swept_table = (arp_table_find seconds ip table).1

    s :
        Searched seconds ip 0 max_arp_table_entries
          (not_found, table)
          (arp_table_find seconds ip table)
    s = arp_table_find-Searched seconds ip table size

    new : Entry
    new = record (entry_at swept_table p) { mac = mac }

    go :
        p ≢ not_found
        → set swept_table p new ≡ t
        → ResultOf seconds ip 0 max_arp_table_entries (not_found, table) p
        → (arp_table_lookup later ip (some t)).0 ≡ mac
    go found same (inl (missed, _)) = absurd (found missed)
    go found same (inr (_, p_in, hit, after)) =
        let here : entry_at (set swept_table p new) p ≡ new =
          get_or-set_self swept_table p new arp_null_entry (omega (arith, s.size)) in
        let dated : entry_at swept_table p
            ≡ record (entry_at table p) { entry_time = seconds (2 * p + 1) } =
          s.done p (omega arith) p_in ∙ swept_hit seconds ip p (entry_at table p) hit in
        let known : new.ip ≡ ip =
          ap (λ (x : Entry). x.ip) dated ∙ hit_ip seconds ip p (entry_at table p) hit in
        let at_time : new.entry_time ≡ seconds (2 * p + 1) =
          ap (λ (x : Entry). x.entry_time) dated in
        let (lo, hi, w) = time (2 * p + 1) (2 * p) in
        rw (← same) (
          lookup_last later ip p (set swept_table p new)
            (length-set swept_table p new ∙ s.size ∙ size) p_in
            (rw here
              (young_hit later ip p new known (omega (arith, at_time)) (omega (arith, at_time)) w))
            (λ j above j_in.
              let other : entry_at (set swept_table p new) j ≡ entry_at swept_table j =
                get_or-set_ne swept_table p j new arp_null_entry (omega arith) in
              rw (other, s.done j (omega arith) j_in)
                (swept_ip seconds ip j (entry_at table j) n (after j above j_in)))
          ∙ ap (λ (x : Entry). x.mac) here)

-- `arp_table_update` keeps a table that is there.
pub update-some :
    (seconds : Readings) (mac : Mac) (ip : ℕ) (table : Table)
    → (b : Bool) × (t : Table) × (arp_table_update seconds mac ip (some table) ≡ (b, some t))
unfolding arp_table_update
update-some seconds mac ip table =
    elim (Bool-cases ((arp_table_find seconds ip table).0 == not_found)) [
      | inl missed ↦ (false, (arp_table_find seconds ip table).1, ground arith)
      | inr found ↦ (
        true,
        set (arp_table_find seconds ip table).1 (arp_table_find seconds ip table).0
            (record (entry_at (arp_table_find seconds ip table).1
              (arp_table_find seconds ip table).0) { mac = mac }),
        ground arith,
      )
    ]

-- An update in vain leaves no entry with the address.
pub update_none_left :
    (seconds : Readings) (mac : Mac) (ip : ℕ) (table t : Table)
    → length table ≡ max_arp_table_entries
    → ip ≢ 0
    → arp_table_update seconds mac ip (some table) ≡ (false, some t)
    → (j : ℕ) → j < max_arp_table_entries
    → (entry_at t j).ip ≢ ip
update_none_left seconds mac ip table t size n e j j_in =
    let (missed, same) = update_false seconds mac ip table t e in
    rw (← same) (none_left seconds ip table size n missed j j_in)
