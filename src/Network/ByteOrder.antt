-- ===== src/Network/ByteOrder.antt =====
-- The 16- and 32-bit conversions of kernel/network/network_io.c. Whether the processor runs in
-- big-endian mode is read from a system register and is an argument of what depends on it.
pub mod Wire
use Prim.Native.Nat.{bit_and}
use ninjastorms.Prelude.{
  ℕ, ◌+◌, ◌*◌, ◌/◌, ◌%◌, ◌^◌, Bool, true, false, not, List, [], ◌∷◌, if◌then◌else◌, ◌==◌,
}

-- The compiler's byte swaps.
abbrev pub bswap32 : ℕ → ℕ
bswap32 x =
    x % 2 ^ 8 * 2 ^ 24
    + x / 2 ^ 8 % 2 ^ 8 * 2 ^ 16
    + x / 2 ^ 16 % 2 ^ 8 * 2 ^ 8
    + x / 2 ^ 24 % 2 ^ 8

abbrev pub bswap16 : ℕ → ℕ
bswap16 x = x % 2 ^ 8 * 2 ^ 8 + x / 2 ^ 8 % 2 ^ 8

-- `read32(SYS_CFGDATA2) & (1 << 1)`, as a `bool`, of the value that the register holds.
pub is_big_endian : ℕ → Bool
is_big_endian cfgdata2 = not (bit_and cfgdata2 2 == 0)

pub htonl : Bool → ℕ → ℕ
htonl big_endian hostlong = if big_endian then hostlong else bswap32 hostlong

pub htons : Bool → ℕ → ℕ
htons big_endian hostshort = if big_endian then hostshort else bswap16 hostshort

unfoldable pub ntohl : Bool → ℕ → ℕ
ntohl big_endian netlong = if big_endian then netlong else bswap32 netlong

unfoldable pub ntohs : Bool → ℕ → ℕ
ntohs big_endian netshort = if big_endian then netshort else bswap16 netshort
