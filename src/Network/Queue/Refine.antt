-- ===== src/Network/Queue/Refine.antt =====
-- The receive queue as a bounded first-in first-out queue of byte strings.
use mathlib.Core.List.{map-append}
use ninjastorms.Prelude.{
  ℕ, ◌+◌, ◌<◌, ◌≤◌, ◌≡◌, ap, sym, ◌∙◌, Option, none, some, List, [], ◌∷◌, ◌++◌, map, arith, length,
  length-set, length-map, set, ◌%◌, if◌then◌else◌, ltb, get_or,
}
use ninjastorms.Prelude.Circular.{
  items, items-set, items_of_ne, items_of_eq, items-full_iff, length-items-lt,
}
use native.Mathlib.Decide.{ℕ_discrete}
use ninjastorms.Memory.{Memory}
use ninjastorms.Memory.Bytes.{read_bytes, read_bytes-shift}
use ninjastorms.Network.Queue.{
  Packet, RecvQueue, max_packet_count, max_packet_size, zero_packet, insert_packet, remove_packet,
  new_packet_available, network_task_round, store_packet,
}

-- The bytes of a packet.
abbrev pub contents : Packet → List ℕ
contents p = read_bytes 0 p.length p.bytes

pub record IsValidQueue (q : RecvQueue) : Type 0 where
  pub start_in : q.recv_queue_start < max_packet_count
  pub end_in : q.recv_queue_end < max_packet_count
  pub size : length q.recv_packet_queue ≡ max_packet_count

abbrev packets : RecvQueue → List Packet
packets q =
    items max_packet_count zero_packet q.recv_packet_queue q.recv_queue_start q.recv_queue_end

-- What was received and not yet handed on, the oldest first.
abbrev pub received : RecvQueue → List (List ℕ)
received q = map contents (packets q)

-- The queue that the ring stands for: it has room for 127 packets.
unfoldable pub receive : List ℕ → List (List ℕ) → List (List ℕ)
receive bytes w = if ltb (length w + 1) max_packet_count then w ++ bytes ∷ [] else w

unfoldable pub hand_on : List (List ℕ) → Option (List ℕ) × List (List ℕ)
hand_on [] = (none, [])
hand_on (bytes ∷ w) = (some bytes, w)

-- The bytes in a slot that `remove_packet` returned.
abbrev pub bytes_in : RecvQueue → Option ℕ → Option (List ℕ)
bytes_in q none = none
bytes_in q (some i) = some (contents (get_or q.recv_packet_queue i zero_packet))

contents-store :
    (source len : ℕ) (m : Memory) (slot : Packet)
    → len ≤ max_packet_size
    → contents (store_packet source len m slot) ≡ read_bytes source len m
contents-store source len m slot h =
    ap (λ n. read_bytes 0 n (store_packet source len m slot).bytes) (omega arith)
    ∙ read_bytes-shift 0 source len (store_packet source len m slot).bytes m (λ k lt. ground arith)

-- `insert_packet` as `receive`.
insert-receive :
    (source len : ℕ) (m : Memory) (q : RecvQueue)
    → IsValidQueue q
    → len ≤ max_packet_size
    → (q' : RecvQueue) × (insert_packet source len m q ≡ some q')
      × (received q' ≡ receive (read_bytes source len m) (received q))
      × IsValidQueue q'
unfolding insert_packet receive
insert-receive source len m q v h =
    let full =
      items-full_iff max_packet_count zero_packet q.recv_packet_queue q.recv_queue_start
        q.recv_queue_end v.start_in v.end_in in
    let short =
      length-items-lt max_packet_count zero_packet q.recv_packet_queue q.recv_queue_start
        q.recv_queue_end v.start_in v.end_in in
    let count = length-map (packets q) contents in
    elim (ℕ_discrete ((q.recv_queue_end + 1) % max_packet_count) q.recv_queue_start) [
      | yes e ↦ (q, ground arith, ground (arith, full.0 e), v)
      | no ne ↦
          let slot = get_or q.recv_packet_queue q.recv_queue_end zero_packet in
          let new = store_packet source len m slot in
          let grown =
            items-set max_packet_count zero_packet q.recv_packet_queue new q.recv_queue_start
              q.recv_queue_end (omega (arith, v.size)) v.start_in v.end_in ne in
          (
            record q {
              recv_packet_queue = set q.recv_packet_queue q.recv_queue_end new;
              recv_queue_end = (q.recv_queue_end + 1) % max_packet_count;
            },
            ground arith,
            ap (map contents) grown
                ∙ map-append contents (packets q) (new ∷ [])
                ∙ ap (λ b. received q ++ b ∷ []) (contents-store source len m slot h)
                ∙ ground (arith, full.1),
            record {
              start_in = v.start_in;
              end_in = omega arith;
              size = length-set q.recv_packet_queue q.recv_queue_end new ∙ v.size;
            },
          )
    ]

-- A round of the task as `hand_on`.
round-hand_on :
    (q : RecvQueue)
    → IsValidQueue q
    → let (slot, q') = network_task_round q in
      ((bytes_in q slot, received q') ≡ hand_on (received q))
      × IsValidQueue q'
      × (bytes_in q' slot ≡ bytes_in q slot)
unfolding network_task_round new_packet_available remove_packet hand_on
round-hand_on q v = elim (ℕ_discrete q.recv_queue_start q.recv_queue_end) [
  | yes e ↦
      let empty : received q ≡ [] =
        ap
          (λ k.
            map contents
              (items max_packet_count zero_packet q.recv_packet_queue q.recv_queue_start k))
          (sym e)
        ∙ ap (map contents)
            (items_of_eq max_packet_count zero_packet q.recv_packet_queue q.recv_queue_start) in
      (ground (arith, empty), ground arith, ground arith)
  | no ne ↦
      let first = ap (map contents) (
        items_of_ne max_packet_count zero_packet q.recv_packet_queue q.recv_queue_start
          q.recv_queue_end v.start_in v.end_in ne) in
      (ground (arith, first), ground arith, ground arith)
]

-- On valid indices and for packets of at most 8192 bytes the receive queue is a queue of byte strings
-- with room for 127: `insert_packet` ends and appends the packet's bytes, or throws them away when
-- 127 packets wait; a round of the task hands on the oldest packet that waits, if there is one, whose
-- bytes its slot still holds. Both keep the indices valid.
pub recv_queue_refines :
    (source len : ℕ) (m : Memory) (q : RecvQueue)
    → IsValidQueue q
    → len ≤ max_packet_size
    → let (slot, rest) = network_task_round q in
      ((q' : RecvQueue) × (insert_packet source len m q ≡ some q')
        × (received q' ≡ receive (read_bytes source len m) (received q))
        × IsValidQueue q')
      × ((bytes_in rest slot, received rest) ≡ hand_on (received q))
      × IsValidQueue rest
recv_queue_refines source len m q v h =
    let (handed, valid, kept) = round-hand_on q v in
    (
      insert-receive source len m q v h,
      ap (λ b. (b, received (network_task_round q).1)) kept ∙ handed,
      valid,
    )
