-- ===== src/Gpio/Fields.antt =====
-- The fields of the table in kernel/drivers/pininfo.c.
use native.Mathlib.Decide.{dec_lt, ℕ_discrete}
use ninjastorms.Prelude.{
  ℕ, zero, suc, ◌*◌, ◌^◌, ◌<◌, ◌≡◌, ◌≢◌, refl, Bool, true, false, not, ◌&&◌, ◌||◌, List, [], ◌∷◌,
  ◌++◌, ◌==◌, get_or, length, bit_and, arith,
}
use ninjastorms.Device.{complement}
use ninjastorms.PinInfo.{
  PinInfo, pininfo, serial_pins, bank0, bank1, bank2, bank3, bank4, bank5, bank6, bank7, bank8,
}
use ninjastorms.Gpio.{Beyond, pin_info}
use ninjastorms.Gpio.Table.{all, all-get_or, and_left, and_right}

-- The four bits of the register that select a function.
abbrev pub field : PinInfo → ℕ
field p = complement p.muxreg_mask

-- Whether a number is one of the first `n` fields of a register.
abbrev one_of : ℕ → ℕ → Bool
one_of zero f = false
one_of (suc n) f = f == 0xF * 16 ^ n || one_of n f

abbrev fits : PinInfo → Bool
fits p =
    p.muxreg_mask == 0 || (one_of 8 (field p) && bit_and p.muxreg_mode (field p) == p.muxreg_mode)

abbrev apart : PinInfo → PinInfo → Bool
apart p q =
    p.muxreg_mask == 0
    || q.muxreg_mask == 0
    || not (p.muxreg == q.muxreg)
    || bit_and (field p) (field q) == 0

abbrev apart_both : PinInfo → PinInfo → Bool
apart_both p q = apart p q && apart q p

abbrev all_apart : List PinInfo → Bool
all_apart [] = true
all_apart (p ∷ ps) = all (apart_both p) ps && all_apart ps

-- The entries of the nine banks.
abbrev gpio_pins : List PinInfo
gpio_pins = bank0 ++ bank1 ++ bank2 ++ bank3 ++ bank4 ++ bank5 ++ bank6 ++ bank7 ++ bank8

abbrev pub gpio_pin_count : ℕ
gpio_pin_count = 144

all_apart-get_or :
    (ps : List PinInfo) (i j : ℕ) (d e : PinInfo)
    → all_apart ps ≡ true
    → i < j
    → j < length ps
    → apart_both (get_or ps i d) (get_or ps j e) ≡ true
all_apart-get_or [] i j d e a h k = absurd (omega (arith, k))
all_apart-get_or (p ∷ ps) i zero d e a h k = absurd (omega (arith, h))
all_apart-get_or (p ∷ ps) zero (suc j) d e a h k =
    all-get_or (apart_both p) ps j e (and_left (all (apart_both p) ps) (all_apart ps) a)
      (omega (arith, k))
all_apart-get_or (p ∷ ps) (suc i) (suc j) d e a h k =
    all_apart-get_or ps i j d e (and_right (all (apart_both p) ps) (all_apart ps) a)
      (omega (arith, h)) (omega (arith, k))

get_or-append :
    (ps qs : List PinInfo) (i : ℕ) (d : PinInfo)
    → i < length ps
    → get_or (ps ++ qs) i d ≡ get_or ps i d
get_or-append [] qs i d h = absurd (omega (arith, h))
get_or-append (p ∷ ps) qs zero d h = refl
get_or-append (p ∷ ps) qs (suc i) d h = get_or-append ps qs i d (omega (arith, h))

-- Two entries that have init information select in different registers or in fields apart.
abbrev pub Disjoint : PinInfo → PinInfo → Type 0
Disjoint p q =
    p.muxreg_mask ≢ 0 → q.muxreg_mask ≢ 0 → p.muxreg ≡ q.muxreg → bit_and (field p) (field q) ≡ 0

apart-Disjoint : (p q : PinInfo) → apart p q ≡ true → Disjoint p q
apart-Disjoint p q h a b c =
    let ta : (p.muxreg_mask == 0) ≡ false = ground arith in
    let tb : (q.muxreg_mask == 0) ≡ false = ground arith in
    let tc : (p.muxreg == q.muxreg) ≡ true = ground arith in
    let t : (bit_and (field p) (field q) == 0) ≡ true = rw (ta, tb, tc) at h in ground arith

gpio_pins-Disjoint :
    (i j : ℕ) (d e : PinInfo)
    → i < gpio_pin_count
    → j < gpio_pin_count
    → i ≢ j
    → Disjoint (get_or gpio_pins i d) (get_or gpio_pins j e)
gpio_pins-Disjoint i j d e hi hj n = elim (dec_lt i j) [
  | yes l ↦
      let p = get_or gpio_pins i d in
      let q = get_or gpio_pins j e in
      apart-Disjoint p q
        (and_left (apart p q) (apart q p) (all_apart-get_or gpio_pins i j d e refl l hj))
  | no g ↦
      let p = get_or gpio_pins i d in
      let q = get_or gpio_pins j e in
      apart-Disjoint p q (
        and_right (apart q p) (apart p q)
          (all_apart-get_or gpio_pins j i e d refl (omega (arith, hi, hj, n, g)) hi))
]

one_of-field : (n f : ℕ) → one_of n f ≡ true → (k : ℕ) × k < n × f ≡ 0xF * 16 ^ k
one_of-field zero f h = absurd (ground arith)
one_of-field (suc n) f h = elim (ℕ_discrete f (0xF * 16 ^ n)) [
  | yes e ↦ (n, omega arith, e)
  | no g ↦
      let t : (f == 0xF * 16 ^ n) ≡ false = ground arith in
      let (k, l, e) = one_of-field n f (rw t at h) in (k, omega (arith, l), e)
]

-- The mode of an entry that has init information lies in its field, which is one of the eight fields of four bits of a register.
abbrev pub Fits : PinInfo → Type 0
Fits p =
    p.muxreg_mask ≢ 0
    → ((k : ℕ) × k < 8 × field p ≡ 0xF * 16 ^ k) × bit_and p.muxreg_mode (field p) ≡ p.muxreg_mode

fits-Fits : (p : PinInfo) → fits p ≡ true → Fits p
fits-Fits p h n =
    let t : (p.muxreg_mask == 0) ≡ false = ground arith in
    let both : (one_of 8 (field p) && bit_and p.muxreg_mode (field p) == p.muxreg_mode) ≡ true =
      rw t at h in
    let inside : (bit_and p.muxreg_mode (field p) == p.muxreg_mode) ≡ true =
      and_right (one_of 8 (field p)) (bit_and p.muxreg_mode (field p) == p.muxreg_mode) both in
    (
      one_of-field 8 (field p)
          (and_left (one_of 8 (field p)) (bit_and p.muxreg_mode (field p) == p.muxreg_mode) both),
      same_number (bit_and p.muxreg_mode (field p)) p.muxreg_mode inside,
    )
  where
    same_number : (a b : ℕ) → (a == b) ≡ true → a ≡ b
    same_number a b e = ground arith

pin_info_of_gpio :
    (beyond : Beyond) (pin : ℕ)
    → pin < gpio_pin_count
    → pin_info beyond pin ≡ get_or gpio_pins pin (beyond pin)
pin_info_of_gpio beyond pin h = get_or-append gpio_pins serial_pins pin (beyond pin) h

-- For each of the 144 general-purpose pins that has init information, which is a mask other than 0: its mode lies
-- within one of the eight fields of four bits of its register, and its mask clears that field alone. Two different
-- pins that both have init information share no field: what selects the function of one leaves the other's as it is.
pub pin_info-Disjoint :
    (beyond : Beyond) (p q : ℕ)
    → p < gpio_pin_count
    → q < gpio_pin_count
    → p ≢ q
    → Fits (pin_info beyond p) × Disjoint (pin_info beyond p) (pin_info beyond q)
pin_info-Disjoint beyond p q hp hq n = (
  fits-Fits (pin_info beyond p) (all-get_or fits pininfo p (beyond p) refl (omega (arith, hp))),
  rw (pin_info_of_gpio beyond p hp, pin_info_of_gpio beyond q hq)
      (gpio_pins-Disjoint p q (beyond p) (beyond q) hp hq n),
)
