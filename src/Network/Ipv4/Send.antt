-- ===== src/Network/Ipv4/Send.antt =====
-- The loop of `ipv4_send` of kernel/network/ipv4.c: how it comes to an end.
use ninjastorms.Prelude.{ℕ, ◌+◌, ◌^◌, ◌<◌, ◌≤◌, ◌≡◌, false}
use ninjastorms.Network.Mac.{Mac, null_mac, mac_address_equal}
use ninjastorms.Network.Routing.{arp_table_lookup}
use ninjastorms.Network.Ipv4.{Round, Outcome, timed_out, sent, wait_on_arp_timeout}

-- The addresses that the rounds find.
abbrev pub found_in : (ℕ → Round) → ℕ → ℕ → Mac
found_in world ip k = (arp_table_lookup (world k).seconds ip (world k).table).0

-- A packet goes to an address other than the null address, that the first search or a round found; a
-- time-out comes when the clock is more than 5 seconds behind the start.
pub data EndsWell (world : ℕ → Round) (ip start : ℕ) (first : Mac) : Outcome → Type 0 where
  at_once : mac_address_equal first null_mac ≡ false → EndsWell world ip start first (sent first)
  later :
      (k : ℕ)
      → mac_address_equal (found_in world ip k) null_mac ≡ false
      → EndsWell world ip start first (sent (found_in world ip k))
  too_late :
      (k : ℕ)
      → start + wait_on_arp_timeout < (world k).now
      → EndsWell world ip start first timed_out

-- Behind the start, each clock reading is no earlier, and all have 64 bits.
pub record Ticks (world : ℕ → Round) (start last : ℕ) : Type 0 where
  pub behind : (k : ℕ) → (start ≤ (world k).now) × ((world k).now < 2 ^ 64)
  pub in_time : start + wait_on_arp_timeout < (world last).now
