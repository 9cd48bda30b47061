-- ===== src/Network/E1000/Receive.antt =====
-- `receive_packet` and the interrupt handler of kernel/network/e1000.c. The bytes of a packet are what the
-- hardware gives when they are copied. The loop gets a number of rounds; `none` says that this was not
-- enough, or that a packet does not fit its slot in the receive queue.
use ninjastorms.Prelude.{
  ℕ, zero, suc, ◌+◌, ◌%◌, ◌^◌, not, List, Option, none, some, if◌then◌else◌, ◌==◌, bit_and,
}
use ninjastorms.Device.{Io, pure, ◌>>=◌, ◌>>◌, ◌>>?◌, read8, read16, read64, write8}
use ninjastorms.Memory.{Memory}
use ninjastorms.Network.Queue.{RecvQueue, insert_packet, insert_packet_warning}
use ninjastorms.Clock.{Clock}
use ninjastorms.Network.E1000.{
  E1000, rx_desc, addr_field, length_field, status_field, e1000_num_rx_desc, reg_rxdesctail,
  reg_imask, reg_int_cause, write_command, read_command, start_link, e1000_is_available,
}

-- The bytes of the memory, for a copy.
abbrev pub bytes : Io Memory
bytes hw h = ((λ a. hw h 1 a % 2 ^ 8), h)

-- What the loop changes.
pub record Receiving : Type 0 where
  pub card : E1000
  pub queue : RecvQueue

-- The loop's body behind `insert_packet`.
abbrev pub release : E1000 → Io E1000
release e = do
  write8 (rx_desc e e.rx_cur + status_field) 0
  write_command e reg_rxdesctail e.rx_cur
  pure (record e { rx_cur = (e.rx_cur + 1) % e1000_num_rx_desc })

-- Behind the copy into the receive queue.
abbrev pub inserted : E1000 → Option RecvQueue → Io (Option Receiving)
inserted e none = pure none
inserted e (some q) = release e >>= λ e'. pure (some (record { card = e'; queue = q }))

-- Like the loop and the handler, on the clock and the path of network_task.c for the log.
abbrev pub take_packet : Clock → List ℕ → Receiving → Io (Option Receiving)
take_packet clock file s = do
  buf ← read64 (rx_desc s.card s.card.rx_cur + addr_field)
  len ← read16 (rx_desc s.card s.card.rx_cur + length_field)
  m ← bytes
  insert_packet_warning clock file s.queue
  inserted s.card (insert_packet (buf % 2 ^ 32) len m s.queue)

-- `while (e1000->rx_descs[e1000->rx_cur].status & 0x1)`
unfoldable pub receive_loop : Clock → List ℕ → ℕ → Receiving → Io (Option Receiving)
receive_loop clock file zero s = pure none
receive_loop clock file (suc n) s =
    let rest = take_packet clock file s >>? receive_loop clock file n in
    read8 (rx_desc s.card s.card.rx_cur + status_field) >>= λ status.
    if bit_and status 0x1 == 0 then pure (some s) else rest

unfoldable pub receive_packet : Clock → List ℕ → ℕ → Receiving → Io (Option Receiving)
receive_packet clock file rounds s =
    if not (e1000_is_available s.card) then pure (some s) else receive_loop clock file rounds s

abbrev pub lsc : ℕ
lsc = 2 ^ 2

abbrev pub rxt0 : ℕ
rxt0 = 2 ^ 7

unfoldable pub e1000_irq_handler : Clock → List ℕ → ℕ → Receiving → Io (Option Receiving)
e1000_irq_handler clock file rounds s = do
  write_command s.card reg_imask 0x1
  cause ← read_command s.card reg_int_cause
  if bit_and cause lsc == 0 then pure tt else start_link s.card
  if bit_and cause rxt0 == 0 then pure (some s) else receive_packet clock file rounds s
