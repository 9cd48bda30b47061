-- ===== src/Network/Routing/Init.antt =====
-- `routing_init` of kernel/network/routing.c.
use native.Mathlib.Decide.{ℕ_discrete}
use ninjastorms.Prelude.{
  ℕ, zero, suc, ◌+◌, ◌<◌, ◌≤◌, ◌≡◌, refl, ◌∙◌, set, arith, length, length-set, get_or-set_self,
  get_or-set_ne, Option, none, some, List, [], ◌∷◌,
}
use ninjastorms.Device.{History, Hardware, printed}
use ninjastorms.Clock.{Clock}
use ninjastorms.Logger.{general_log}
use ninjastorms.Network.Routing.{
  Table, arp_null_entry, init_loop, routing_init, no_table, max_arp_table_entries,
}
use ninjastorms.Network.Routing.Find.{entry_at}

init_loop-length : (k i : ℕ) (table : Table) → length (init_loop k i table) ≡ length table
unfolding init_loop
init_loop-length zero i table = refl
init_loop-length (suc k) i table =
    init_loop-length k (i + 1) (set table i arp_null_entry) ∙ length-set table i arp_null_entry

init_loop-null :
    (k i : ℕ) (table : Table) (j : ℕ)
    → i + k ≤ length table
    → ((m : ℕ) → m < i → entry_at table m ≡ arp_null_entry)
    → j < i + k
    → entry_at (init_loop k i table) j ≡ arp_null_entry
unfolding init_loop
init_loop-null zero i table j size before h = before j (omega arith)
init_loop-null (suc k) i table j size before h =
    init_loop-null k (i + 1) (set table i arp_null_entry) j
      (omega (arith, length-set table i arp_null_entry))
      (λ m lt. elim (ℕ_discrete i m) [
        | yes p ↦ rw (← p) (get_or-set_self table i arp_null_entry arp_null_entry (omega arith))
        | no ne ↦ get_or-set_ne table i m arp_null_entry arp_null_entry ne ∙ before m (omega arith)
      ])
      (omega arith)

-- Whatever the ten entries of new memory held, `routing_init` makes a table of ten empty entries of
-- them when there is none, and leaves this table when it is called again. Without memory there is still no table, and
-- one line of the log says so.
pub routing_init_lem :
    (clock : Clock) (file : List ℕ) (memory : Table) (again : Option Table) (hw : Hardware)
    (h : History)
    → length memory ≡ max_arp_table_entries
    → ((table : Table) × (routing_init clock file (some memory) none hw h ≡ (some table, h))
        × (length table ≡ max_arp_table_entries)
        × ((j : ℕ) → j < max_arp_table_entries → entry_at table j ≡ arp_null_entry)
        × (routing_init clock file again (some table) hw h ≡ (some table, h)))
      × (routing_init clock file none none hw h
          ≡ (none, printed (general_log clock 3 file no_table [] []) ∷ h))
unfolding routing_init
routing_init_lem clock file memory again hw h size = (
  (
    init_loop max_arp_table_entries 0 memory,
    refl,
    init_loop-length max_arp_table_entries 0 memory ∙ size,
    (λ j j_in.
        init_loop-null max_arp_table_entries 0 memory j (omega arith) (λ m lt. absurd (omega arith))
          (omega arith)),
    refl,
  ),
  refl,
)
