-- ===== src/Network/Routing/Find.antt =====
-- `arp_table_find`: what the search returns and what it leaves in the table.
use native.Mathlib.Decide.{ℕ_discrete}
use ninjastorms.Prelude.{
  ℕ, zero, suc, ◌+◌, ◌*◌, ◌<◌, ◌≤◌, ◌≡◌, ◌≢◌, refl, subst, sym, ◌∙◌, ap, ◌⊎◌, inl, inr, Bool, true,
  false, not, ◌&&◌, if◌then◌else◌, ◌==◌, get_or, arith, length, length-set, get_or-set_self,
  get_or-set_ne, Bool-cases,
}
use ninjastorms.Network.Routing.{
  Entry, Table, Readings, arp_null_entry, is_expired, find_step, find_loop, arp_table_find,
  not_found, max_arp_table_entries,
}

-- An entry that the search leaves in the table or not: an expired one is cleared, a match is dated
-- anew, any other stays.
unfoldable pub swept : Readings → ℕ → ℕ → Entry → Entry
swept seconds ip i entry =
    if is_expired (seconds (2 * i)) entry
    then arp_null_entry
    else if entry.ip == ip
    then record entry { entry_time = seconds (2 * i + 1) }
    else entry

-- The search looks for entries with the address that are not expired.
unfoldable pub is_hit : Readings → ℕ → ℕ → Entry → Bool
is_hit seconds ip i entry = not (is_expired (seconds (2 * i)) entry) && (entry.ip == ip)

abbrev pub entry_at : Table → ℕ → Entry
entry_at table i = get_or table i arp_null_entry

-- `find_step` writes the entry `i` only, and returns `i` exactly on a hit.
module _ (seconds : Readings) (ip i res : ℕ) (table : Table) where
  length-find_step : length (find_step seconds ip i (res, table)).1 ≡ length table
  unfolding find_step
  length-find_step = ground (
    arith,
    length-set table i arp_null_entry,
    length-set table i (record (entry_at table i) { entry_time = seconds (2 * i + 1) }),
  )

  find_step_self :
      i < length table
      → entry_at (find_step seconds ip i (res, table)).1 i ≡ swept seconds ip i (entry_at table i)
  unfolding find_step swept
  find_step_self h = ground (
    arith,
    get_or-set_self table i arp_null_entry arp_null_entry h,
    get_or-set_self table i (record (entry_at table i) { entry_time = seconds (2 * i + 1) })
        arp_null_entry h,
  )

  find_step_ne :
      (j : ℕ) → i ≢ j → entry_at (find_step seconds ip i (res, table)).1 j ≡ entry_at table j
  unfolding find_step
  find_step_ne j n = ground (
    arith,
    get_or-set_ne table i j arp_null_entry arp_null_entry n,
    get_or-set_ne table i j (record (entry_at table i) { entry_time = seconds (2 * i + 1) })
        arp_null_entry n,
  )

  find_step_result :
      (find_step seconds ip i (res, table)).0
      ≡ (if is_hit seconds ip i (entry_at table i) then i else res)
  unfolding find_step is_hit
  find_step_result = ground arith

-- What the entries from `i` to before `end` decide: the last hit, or the result so far.
abbrev pub ResultOf : Readings → ℕ → ℕ → ℕ → ℕ × Table → ℕ → Type 0
ResultOf seconds ip i end s r =
    ((r ≡ s.0) × ((j : ℕ) → i ≤ j → j < end → is_hit seconds ip j (entry_at s.1 j) ≡ false))
    ⊎ ((i ≤ r)
        × (r < end)
        × (is_hit seconds ip r (entry_at s.1 r) ≡ true)
        × ((j : ℕ) → r < j → j < end → is_hit seconds ip j (entry_at s.1 j) ≡ false))

-- What the loop has done from entry `i` to before entry `end`: it has swept these entries, and its
-- result is the last hit among them, if there is one.
pub record Searched (seconds : Readings) (ip i end : ℕ) (s s' : ℕ × Table) : Type 0 where
  pub size : length s'.1 ≡ length s.1
  pub done : (j : ℕ) → i ≤ j → j < end → entry_at s'.1 j ≡ swept seconds ip j (entry_at s.1 j)
  pub others : (j : ℕ) → (j < i) ⊎ (end ≤ j) → entry_at s'.1 j ≡ entry_at s.1 j
  pub result : ResultOf seconds ip i end s s'.0

module _ (seconds : Readings) (ip i end res : ℕ) (table : Table) (r : ℕ) (i_in : i < end) where
  abbrev stepped : ℕ × Table
  stepped = find_step seconds ip i (res, table)

  same_hit :
      (j : ℕ)
      → i ≢ j
      → is_hit seconds ip j (entry_at table j) ≡ is_hit seconds ip j (entry_at stepped.1 j)
  same_hit j n = ap (is_hit seconds ip j) (sym (find_step_ne seconds ip i res table j n))

  ResultOf-next :
      ResultOf seconds ip (i + 1) end stepped r → ResultOf seconds ip i end (res, table) r
  ResultOf-next (inr (lo, hi, hit, after)) = inr (
    omega arith,
    hi,
    same_hit r (omega arith) ∙ hit,
    λ j h k. same_hit j (omega arith) ∙ after j h k,
  )
  ResultOf-next (inl (same, none_after)) =
      elim (Bool-cases (is_hit seconds ip i (entry_at table i))) [
        | inl hit ↦
            let e : r ≡ i =
              same ∙ find_step_result seconds ip i res table ∙ ap (λ b. if b then i else res) hit in
            inr (
              omega arith,
              omega arith,
              rw e hit,
              λ j h k. same_hit j (omega arith) ∙ none_after j (omega arith) k,
            )
        | inr miss ↦ inl (
          same ∙ find_step_result seconds ip i res table ∙ ap (λ b. if b then i else res) miss,
          λ j h k. elim (ℕ_discrete i j) [
            | yes e ↦ rw (← e) miss
            | no n ↦ same_hit j n ∙ none_after j (omega arith) k
          ],
        )
      ]

Searched-next :
    (seconds : Readings) (ip i end : ℕ) (res : ℕ) (table : Table) (out : ℕ × Table)
    → i < end
    → end ≤ length table
    → Searched seconds ip (i + 1) end (find_step seconds ip i (res, table)) out
    → Searched seconds ip i end (res, table) out
Searched-next seconds ip i end res table out h k r = record {
  size = r.size ∙ length-find_step seconds ip i res table;
  done = λ j lo hi. elim (ℕ_discrete i j) [
    | yes e ↦
        subst (λ m. entry_at out.1 m ≡ swept seconds ip m (entry_at table m)) e
          (r.others i (inl (omega arith)) ∙ find_step_self seconds ip i res table (omega arith))
    | no n ↦
        r.done j (omega arith) hi
        ∙ ap (swept seconds ip j) (find_step_ne seconds ip i res table j n)
  ];
  others =
      λ j out_of. r.others j (omega arith) ∙ find_step_ne seconds ip i res table j (omega arith);
  result = ResultOf-next seconds ip i end res table out.0 h r.result;
}

find_loop-Searched :
    (n : ℕ) (seconds : Readings) (ip i end : ℕ) (s : ℕ × Table)
    → i + n ≡ end
    → end ≤ length s.1
    → Searched seconds ip i end s (find_loop seconds ip n i s)
unfolding find_loop
find_loop-Searched zero seconds ip i end s e k = record {
  size = refl;
  done = λ j lo hi. absurd (omega arith);
  others = λ j h. refl;
  result = inl (refl, λ j lo hi. absurd (omega arith));
}
find_loop-Searched (suc n) seconds ip i end (res, table) e k =
    Searched-next seconds ip i end res table _ (omega arith) k (
      find_loop-Searched n seconds ip (i + 1) end (find_step seconds ip i (res, table))
        (omega arith) (omega (arith, length-find_step seconds ip i res table)))

-- On a table of ten entries `arp_table_find` clears the expired entries, dates the matches anew and
-- leaves all others; it returns the index of the last match that is not expired, or -1 if there is
-- none.
pub arp_table_find-Searched :
    (seconds : Readings) (ip : ℕ) (table : Table)
    → length table ≡ max_arp_table_entries
    → Searched seconds ip 0 max_arp_table_entries
        (not_found, table)
        (arp_table_find seconds ip table)
unfolding arp_table_find
arp_table_find-Searched seconds ip table h =
    find_loop-Searched max_arp_table_entries seconds ip 0 max_arp_table_entries (not_found, table)
      refl (omega arith)
