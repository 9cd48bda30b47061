-- ===== src/Network/Routing/Print.antt =====
-- `arp_table_print` of kernel/network/routing.c, on the characters that the port was sent so far. `none` stands for
-- undefined behaviour of `vprintf`.
use ninjastorms.Prelude.{
  ℕ, zero, suc, ◌+◌, ◌%◌, ◌^◌, ◌≡◌, ◌≢◌, refl, ap, ◌∙◌, Bool, Option, none, some, List, [], ◌∷◌,
  arith, get_or,
}
use ninjastorms.Stdio.{Output, Arg, int, string, printf, vprintf, vprintf_loop, emit_all}
use ninjastorms.Stdio.Number.{append_text, signed}
use ninjastorms.Stdio.Conversion.{signed_int, vprintf_loop-Conversion}
use ninjastorms.Stdio.Format.{vprintf_loop-text, vprintf_loop-string, vprintf-text}
use ninjastorms.Logger.{general_log, and_then}
use ninjastorms.Logger.Line.{general_log_lem}
use ninjastorms.Network.Mac.{mac_to_str}
use ninjastorms.Network.Routing.{Entry, Table, arp_null_entry, max_arp_table_entries}
use ninjastorms.Network.Ipv4.Print.{ipv4_print, ipv4_print_lem}

-- "Arp Table:"
abbrev arp_table_text : List ℕ
arp_table_text = b'A' ∷ b'r' ∷ b'p' ∷ b' ' ∷ b'T' ∷ b'a' ∷ b'b' ∷ b'l' ∷ b'e' ∷ b':' ∷ []

-- " Time   |       MAC         |     IP\n"
abbrev columns : List ℕ
columns =
    b' ' ∷ b'T' ∷ b'i' ∷ b'm' ∷ b'e' ∷ b' ' ∷ b' ' ∷ b' ' ∷ b'|' ∷ b' ' ∷ b' ' ∷ b' ' ∷ b' ' ∷ b' '
    ∷ b' ' ∷ b' ' ∷ b'M' ∷ b'A' ∷ b'C' ∷ b' ' ∷ b' ' ∷ b' ' ∷ b' ' ∷ b' ' ∷ b' ' ∷ b' ' ∷ b' '
    ∷ b' ' ∷ b'|' ∷ b' ' ∷ b' ' ∷ b' ' ∷ b' ' ∷ b' ' ∷ b'I' ∷ b'P' ∷ b'\n' ∷ []

-- "--------+-------------------+------------------\n"
abbrev rule : List ℕ
rule =
    b'-' ∷ b'-' ∷ b'-' ∷ b'-' ∷ b'-' ∷ b'-' ∷ b'-' ∷ b'-' ∷ b'+' ∷ b'-' ∷ b'-' ∷ b'-' ∷ b'-' ∷ b'-'
    ∷ b'-' ∷ b'-' ∷ b'-' ∷ b'-' ∷ b'-' ∷ b'-' ∷ b'-' ∷ b'-' ∷ b'-' ∷ b'-' ∷ b'-' ∷ b'-' ∷ b'-'
    ∷ b'-' ∷ b'+' ∷ b'-' ∷ b'-' ∷ b'-' ∷ b'-' ∷ b'-' ∷ b'-' ∷ b'-' ∷ b'-' ∷ b'-' ∷ b'-' ∷ b'-'
    ∷ b'-' ∷ b'-' ∷ b'-' ∷ b'-' ∷ b'-' ∷ b'-' ∷ b'-' ∷ b'\n' ∷ []

-- " %i\t| %s | "
abbrev row_format : List ℕ
row_format = b' ' ∷ b'%' ∷ b'i' ∷ b'\t' ∷ b'|' ∷ b' ' ∷ b'%' ∷ b's' ∷ b' ' ∷ b'|' ∷ b' ' ∷ []

-- One round of the loop.
pub print_row : Bool → Entry → List ℕ → Option Output
print_row big_endian entry sent =
    and_then
      (printf row_format
        (int (entry.entry_time % 2 ^ 32) ∷ string (some (mac_to_str big_endian entry.mac)) ∷ [])
        sent)
      (λ s. and_then (ipv4_print entry.ip s) (λ s'. printf (b'\n' ∷ []) [] s'))

-- The loop with the rounds left.
pub print_rows : ℕ → ℕ → Bool → Table → List ℕ → Option (List ℕ)
unfolding print_row
print_rows zero i big_endian table sent = some sent
print_rows (suc n) i big_endian table sent =
    elim (print_row big_endian (get_or table i arp_null_entry) sent) [
      | none ↦ none
      | some out ↦ print_rows n (i + 1) big_endian table out.sent
    ]

abbrev rows_behind : Option Output → (List ℕ → Option (List ℕ)) → Option (List ℕ)
rows_behind none k = none
rows_behind (some out) k = k out.sent

-- The processor's order of bytes, the clock, the path of the source file for the log, the table and what was sent.
pub arp_table_print : Bool → ℕ → List ℕ → Table → List ℕ → Option (List ℕ)
unfolding print_rows
arp_table_print big_endian clock file table sent =
    rows_behind
      (and_then (general_log clock 0 file arp_table_text [] sent)
        (λ s. and_then (printf columns [] s) (λ s'. printf rule [] s')))
      (print_rows max_arp_table_entries 0 big_endian table)

print_row-some :
    (big_endian : Bool) (entry : Entry) (sent : List ℕ)
    → entry.entry_time % 2 ^ 32 ≢ 2 ^ 31
    → (out : Output) × (print_row big_endian entry sent ≡ some out)
unfolding print_row printf vprintf vprintf_loop
print_row-some big_endian entry sent n =
    let time = entry.entry_time % 2 ^ 32 in
    let mac = mac_to_str big_endian entry.mac in
    let start : Output = record { sent = sent; chars_written = 0 } in
    let args : List Arg = string (some mac) ∷ [] in
    let before_mac : List ℕ = b'\t' ∷ b'|' ∷ b' ' ∷ [] in
    let behind_mac : List ℕ = b' ' ∷ b'|' ∷ b' ' ∷ [] in
    let o₁ = emit_all (b' ' ∷ []) start in
    let (text, run, _) =
      vprintf_loop-Conversion b'i' (int time) 10 (signed 32 time)
        (b'\t' ∷ b'|' ∷ b' ' ∷ b'%' ∷ b's' ∷ behind_mac) args o₁ (signed_int time (omega arith) n)
        (omega arith) in
    let o₂ = append_text text o₁ in
    let o₃ = emit_all before_mac o₂ in
    let o₄ = emit_all mac o₃ in
    let o₅ = emit_all behind_mac o₄ in
    let row : vprintf_loop row_format (int time ∷ args) start ≡ some o₅ =
      vprintf_loop-text (b' ' ∷ []) (b'%' ∷ b'i' ∷ b'\t' ∷ b'|' ∷ b' ' ∷ b'%' ∷ b's' ∷ behind_mac)
        (int time ∷ args) start refl
      ∙ run
      ∙ vprintf_loop-text before_mac (b'%' ∷ b's' ∷ behind_mac) args o₂ refl
      ∙ vprintf_loop-string mac behind_mac [] o₃
      ∙ vprintf_loop-text behind_mac [] [] o₄ refl in
    let (_, _, _, _, out, ip, _, _, _, _, _) = ipv4_print_lem entry.ip o₅.sent in
    (
      emit_all (b'\n' ∷ []) (record { sent = out.sent; chars_written = 0 }),
      ap (λ r. and_then r (λ s. and_then (ipv4_print entry.ip s) (λ s'. printf (b'\n' ∷ []) [] s')))
            row
          ∙ ap (λ r. and_then r (λ s'. printf (b'\n' ∷ []) [] s')) ip
          ∙ vprintf-text (b'\n' ∷ []) out.sent refl,
    )

print_rows-some :
    (n i : ℕ) (big_endian : Bool) (table : Table) (sent : List ℕ)
    → ((j : ℕ) → (get_or table j arp_null_entry).entry_time % 2 ^ 32 ≢ 2 ^ 31)
    → (sent' : List ℕ) × (print_rows n i big_endian table sent ≡ some sent')
unfolding print_rows
print_rows-some zero i big_endian table sent h = (sent, refl)
print_rows-some (suc n) i big_endian table sent h =
    let (out, e) = print_row-some big_endian (get_or table i arp_null_entry) sent (h i) in
    let (sent', e') = print_rows-some n (i + 1) big_endian table out.sent h in
    (sent', rw (e, print_rows) e')

-- `arp_table_print` is defined unless the lower half of the time of an entry is the least signed number.
pub arp_table_print-some :
    (big_endian : Bool) (clock : ℕ) (file : List ℕ) (table : Table) (sent : List ℕ)
    → ((j : ℕ) → (get_or table j arp_null_entry).entry_time % 2 ^ 32 ≢ 2 ^ 31)
    → (sent' : List ℕ) × (arp_table_print big_endian clock file table sent ≡ some sent')
unfolding arp_table_print printf
arp_table_print-some big_endian clock file table sent h =
    let (out, e, _) = general_log_lem clock 0 file arp_table_text sent (omega arith) refl in
    let o₁ = emit_all columns (record { sent = out.sent; chars_written = 0 }) in
    let o₂ = emit_all rule (record { sent = o₁.sent; chars_written = 0 }) in
    let (sent', e') = print_rows-some 10 0 big_endian table o₂.sent h in
    let rest = print_rows max_arp_table_entries 0 big_endian table in
    (
      sent',
      ap
            (λ r.
              rows_behind
                (and_then r (λ s. and_then (printf columns [] s) (λ s'. printf rule [] s'))) rest)
            e
          ∙ ap (λ r. rows_behind (and_then r (λ s'. printf rule [] s')) rest)
              (vprintf-text columns out.sent refl)
          ∙ ap (λ r. rows_behind r rest) (vprintf-text rule o₁.sent refl)
          ∙ e',
    )
