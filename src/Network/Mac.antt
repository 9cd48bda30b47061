-- ===== src/Network/Mac.antt =====
-- MAC addresses: `mac_address_t`, its conversions in kernel/network/network_io.c, and the functions
-- on it in kernel/network/ethernet.c. An address is the list of its six bytes, in memory order.
pub mod Equal
pub mod Print
pub mod Wire
use Prim.Native.Nat.{bit_and}
use ninjastorms.Prelude.{
  ℕ, zero, suc, ◌+◌, ◌-◌, ◌*◌, ◌/◌, ◌%◌, ◌^◌, Bool, true, false, not, List, [], ◌∷◌, if◌then◌else◌,
  ◌==◌, ltb, get_or, set, replicate,
}

abbrev pub Mac : Type 0
Mac = List ℕ

abbrev pub eth_mac_address_length : ℕ
eth_mac_address_length = 6

abbrev pub null_mac : Mac
null_mac = 0 ∷ 0 ∷ 0 ∷ 0 ∷ 0 ∷ 0 ∷ []

abbrev pub broadcast_mac : Mac
broadcast_mac = 0xff ∷ 0xff ∷ 0xff ∷ 0xff ∷ 0xff ∷ 0xff ∷ []

-- `for (i = 0; i < 6; i++) new.address[5 - i] = mac.address[i]`; `new` was not initialised.
swap_loop : ℕ → ℕ → Mac → Mac → Mac
swap_loop zero i mac new = new
swap_loop (suc n) i mac new = swap_loop n (i + 1) mac (set new (5 - i) (get_or mac i 0))

pub hton_mac : Bool → Mac → Mac
unfolding swap_loop
hton_mac big_endian mac = if big_endian then mac else swap_loop 6 0 mac (replicate 6 0)

pub ntoh_mac : Bool → Mac → Mac
unfolding swap_loop
ntoh_mac big_endian mac = if big_endian then mac else swap_loop 6 0 mac (replicate 6 0)

-- The loop of `mac_address_equal`, from index `i` on.
equal_loop : ℕ → ℕ → Mac → Mac → Bool
equal_loop zero i mac1 mac2 = true
equal_loop (suc n) i mac1 mac2 =
    let rest = equal_loop n (i + 1) mac1 mac2 in
    if not (get_or mac1 i 0 == get_or mac2 i 0) then false else rest

pub mac_address_equal : Mac → Mac → Bool
unfolding equal_loop
mac_address_equal mac1 mac2 = equal_loop eth_mac_address_length 0 mac1 mac2

-- `INTTOHEXCHAR`
pub int_to_hex_char : ℕ → ℕ
int_to_hex_char val = if ltb 9 val then val + b'a' - 10 else val + b'0'

-- The loop of `mac_to_str`: two characters at `j` for each byte; the template keeps its colons.
str_loop : ℕ → ℕ → ℕ → Mac → List ℕ → List ℕ
unfolding int_to_hex_char
str_loop zero i j mac tmp = tmp
str_loop (suc n) i j mac tmp =
    let c = get_or mac i 0 in
    str_loop n (i + 1) (j + 3) mac
      (set (set tmp j (int_to_hex_char (c / 2 ^ 4))) (j + 1) (int_to_hex_char (bit_and c 0x0f)))

-- "00:11:22:33:44:55"
abbrev pub template : List ℕ
template =
    b'0' ∷ b'0' ∷ b':' ∷ b'1' ∷ b'1' ∷ b':' ∷ b'2' ∷ b'2' ∷ b':' ∷ b'3' ∷ b'3' ∷ b':' ∷ b'4' ∷ b'4'
    ∷ b':' ∷ b'5' ∷ b'5' ∷ []

pub mac_to_str : Bool → Mac → List ℕ
unfolding str_loop hton_mac
mac_to_str big_endian mac = str_loop 6 0 0 (hton_mac big_endian mac) template
