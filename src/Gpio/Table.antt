-- ===== src/Gpio/Table.antt =====
-- The table of kernel/drivers/pininfo.c.
use ninjastorms.Prelude.{
  ℕ, zero, suc, ◌<◌, ◌≡◌, refl, Bool, true, false, ◌&&◌, List, [], ◌∷◌, ltb, get_or, length, arith,
}
use ninjastorms.PinInfo.{PinInfo, pininfo, pininfo_size}
use ninjastorms.Gpio.{Beyond, pin_info}

abbrev pub all : (PinInfo → Bool) → List PinInfo → Bool
all test [] = true
all test (p ∷ ps) = test p && all test ps

pub and_left : (a b : Bool) → (a && b) ≡ true → a ≡ true
and_left true b h = refl
and_left false b h = h

pub and_right : (a b : Bool) → (a && b) ≡ true → b ≡ true
and_right true b h = h
and_right false b h = absurd (ground arith)

ltb-lt : (a b : ℕ) → ltb a b ≡ true → a < b
ltb-lt a b h = ground arith

-- A test that all entries pass is passed by each.
pub all-get_or :
    (test : PinInfo → Bool) (ps : List PinInfo) (i : ℕ) (d : PinInfo)
    → all test ps ≡ true
    → i < length ps
    → test (get_or ps i d) ≡ true
all-get_or test [] i d a h = absurd (omega (arith, h))
all-get_or test (p ∷ ps) zero d a h = and_left (test p) (all test ps) a
all-get_or test (p ∷ ps) (suc i) d a h =
    all-get_or test ps i d (and_right (test p) (all test ps) a) (omega (arith, h))

abbrev register_exists : PinInfo → Bool
register_exists p = ltb p.muxreg 20

pub muxreg-lt : (beyond : Beyond) (pin : ℕ) → pin < pininfo_size → (pin_info beyond pin).muxreg < 20
muxreg-lt beyond pin h =
    ltb-lt (pin_info beyond pin).muxreg 20
      (all-get_or register_exists pininfo pin (beyond pin) refl h)
