-- ===== src/Network/Queue.antt =====
-- kernel/network/network_task.c: the queue of received packets, and the round of the task that hands
-- them on.
pub mod Refine
use ninjastorms.Prelude.{
  ℕ, ◌+◌, ◌%◌, ◌^◌, Bool, not, Option, none, some, List, [], ◌∷◌, if◌then◌else◌, ◌==◌, ltb, leb,
  set, get_or, replicate,
}
use ninjastorms.Memory.{Memory}
use ninjastorms.Device.{Io, pure}
use ninjastorms.Clock.{Clock}
use ninjastorms.Logger.{log}

abbrev pub max_packet_count : ℕ
max_packet_count = 128

abbrev pub max_packet_size : ℕ
max_packet_size = 8192

-- `raw_packet_t`; `bytes` maps each index of the array `data` to its byte.
pub record Packet : Type 0 where
  pub length : ℕ
  pub bytes : ℕ → ℕ

abbrev pub zero_packet : Packet
zero_packet = record { length = 0; bytes = λ i. 0 }

-- The static variables.
pub record RecvQueue : Type 0 where
  pub recv_queue_start : ℕ
  pub recv_queue_end : ℕ
  pub recv_packet_queue : List Packet

abbrev pub empty_queue : RecvQueue
empty_queue = record {
  recv_queue_start = 0;
  recv_queue_end = 0;
  recv_packet_queue = replicate 128 zero_packet;
}

-- `remove_packet`: the slot whose address is returned, or null.
pub remove_packet : RecvQueue → Option ℕ × RecvQueue
remove_packet q = if q.recv_queue_start == q.recv_queue_end then (none, q) else (
  some q.recv_queue_start,
  record q { recv_queue_start = (q.recv_queue_start + 1) % max_packet_count },
)

pub new_packet_available : RecvQueue → Bool
new_packet_available q = not (q.recv_queue_start == q.recv_queue_end)

-- A slot behind `length = len` and `memcpy (&slot.data, source, len)`.
abbrev pub store_packet : ℕ → ℕ → Memory → Packet → Packet
store_packet source len m slot = record {
  length = len % 2 ^ 16;
  bytes = λ i. if ltb i len then m (source + i) else slot.bytes i;
}

-- "Packet Queue full!"
abbrev queue_full : List ℕ
queue_full =
    b'P' ∷ b'a' ∷ b'c' ∷ b'k' ∷ b'e' ∷ b't' ∷ b' ' ∷ b'Q' ∷ b'u' ∷ b'e' ∷ b'u' ∷ b'e' ∷ b' ' ∷ b'f'
    ∷ b'u' ∷ b'l' ∷ b'l' ∷ b'!' ∷ []

-- What `insert_packet` logs, at a clock and with the path of the source file: a warning when the queue is full.
abbrev pub insert_packet_warning : Clock → List ℕ → RecvQueue → Io Unit
insert_packet_warning clock file q =
    if (q.recv_queue_end + 1) % max_packet_count == q.recv_queue_start
    then log clock 2 file queue_full
    else pure tt

-- `insert_packet` on the queue: a full one throws the packet away, with the warning of `insert_packet_warning`. `none`
-- stands for a copy that runs past the
-- slot's array into the slots behind it, which the code does not prevent.
unfoldable pub insert_packet : ℕ → ℕ → Memory → RecvQueue → Option RecvQueue
insert_packet source len m q =
    let new_end = (q.recv_queue_end + 1) % max_packet_count in
    let slot = get_or q.recv_packet_queue q.recv_queue_end zero_packet in
    if new_end == q.recv_queue_start
    then some q
    else if leb len max_packet_size
    then some (record q {
      recv_packet_queue = set q.recv_packet_queue q.recv_queue_end (store_packet source len m slot);
      recv_queue_end = new_end;
    })
    else none

-- One round of the loop of `network_task_recv`: the packet that `start_pdu_encapsulation` is called
-- with, if one is there.
pub network_task_round : RecvQueue → Option ℕ × RecvQueue
network_task_round q = if new_packet_available q then remove_packet q else (none, q)
