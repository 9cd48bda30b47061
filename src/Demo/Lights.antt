-- ===== src/Demo/Lights.antt =====
-- What the demonstration of the lights in kernel/demo/demo_led.c shows.
use ninjastorms.Prelude.{ℕ, zero, suc, ◌+◌, ◌≡◌, refl, ◌∙◌, true, List, [], ◌∷◌, ltb, take, arith}
use ninjastorms.Device.{History, Hardware, Io, pure, ◌>>◌}
use ninjastorms.Gpio.{Beyond}
use ninjastorms.Drivers.Led.{
  LedId, led_left, led_right, led_both, LedColor, led_black, led_red, led_green, led_orange,
  left_led, right_led, led_set,
}
use ninjastorms.Drivers.Levels.{Shows, led_set-Lit}
use ninjastorms.Demo.{spin_loop, blink, flash_lr, flash_rl, demo_led}

-- The colors of the two lights.
pub record Lights : Type 0 where
  pub left : LedColor
  pub right : LedColor

abbrev pub Call : Type 0
Call = LedId × LedColor

abbrev pub light : Call → Lights → Lights
light (led_left, color) s = record s { left = color }
light (led_right, color) s = record s { right = color }
light (led_both, color) s = record { left = color; right = color }

-- The lights behind each call of a list.
abbrev pub shown : List Call → Lights → Lights
shown [] s = s
shown (c ∷ cs) s = shown cs (light c s)

abbrev pub Showing : Lights → History → Type 0
Showing s h = Shows left_led s.left h × Shows right_led s.right h

abbrev six : LedId → LedColor → List Call → List Call
six led color cs =
    (led, color)
    ∷ (led, led_black)
    ∷ (led, color)
    ∷ (led, led_black)
    ∷ (led, color)
    ∷ (led, led_black)
    ∷ cs

abbrev sides : LedId → LedId → LedColor → List Call → List Call
sides a b color cs = (a, color) ∷ (led_both, led_black) ∷ (b, color) ∷ (led_both, led_black) ∷ cs

-- The show, as a list of calls of `led_set`.
abbrev pub show : List Call
show =
    (led_left, led_green)
    ∷ (led_both, led_black)
    ∷ (led_right, led_green)
    ∷ (led_both, led_black)
    ∷ six led_both led_green (
        sides led_right led_left led_red (
          sides led_left led_right led_red (
            sides led_right led_left led_green (
              sides led_right led_left led_red (
                sides led_right led_left led_orange (
                  six led_both led_red (
                    (led_left, led_green)
                    ∷ (led_right, led_red)
                    ∷ six led_left led_green (
                        six led_right led_red
                          ((led_both, led_orange) ∷ six led_both led_orange [])))))))))

module _ (beyond : Beyond) where
  abbrev pub run : List Call → Io Unit
  run [] = pure tt
  run ((led, color) ∷ cs) = led_set beyond led color >> run cs

  light-Showing :
      (hw : Hardware) (h : History) (c : Call) (s : Lights)
      → Showing s h
      → Showing (light c s) (led_set beyond c.0 c.1 hw h).1
  light-Showing hw h (led_left, color) s ((a, b), (c, d)) =
      let (shows, (e, f)) = led_set-Lit beyond hw h led_left color in (shows, (e ∙ c, f ∙ d))
  light-Showing hw h (led_right, color) s ((a, b), (c, d)) =
      let ((e, f), shows) = led_set-Lit beyond hw h led_right color in ((e ∙ a, f ∙ b), shows)
  light-Showing hw h (led_both, color) s showing = led_set-Lit beyond hw h led_both color

  pub run-Showing :
      (hw : Hardware) (cs : List Call) (h : History) (s : Lights)
      → Showing s h
      → Showing (shown cs s) (run cs hw h).1
  run-Showing hw [] h s showing = showing
  run-Showing hw (c ∷ cs) h s showing =
      run-Showing hw cs (led_set beyond c.0 c.1 hw h).1 (light c s) (light-Showing hw h c s showing)

-- The wait ends when the variable has reached the ticks.
pub spin_lem : (ticks timer n : ℕ) → timer + n ≡ ticks → spin_loop n ticks timer ≡ ticks
unfolding spin_loop
spin_lem ticks timer zero e = omega (arith, e)
spin_lem ticks timer (suc n) e =
    let t : ltb timer ticks ≡ true = ground arith in
    rw t (spin_lem ticks (timer + 1) n (omega arith))

-- `demo_led` sets the lights as the show says, in this order and nothing else: behind any number of its calls both
-- lights have the colors that the calls so far gave them, and at the end both are black, whatever they were before.
pub demo_led-Showing :
    (beyond : Beyond) (hw : Hardware) (h : History) (s : Lights)
    → Showing s h
    → ((demo_led beyond hw h).1 ≡ (run beyond show hw h).1)
      × ((n : ℕ) → Showing (shown (take n show) s) (run beyond (take n show) hw h).1)
      × Showing (record { left = led_black; right = led_black }) (demo_led beyond hw h).1
unfolding demo_led blink flash_lr flash_rl
demo_led-Showing beyond hw h s showing = (
  refl,
  (λ n. run-Showing beyond hw (take n show) h s showing),
  run-Showing beyond hw show h s showing,
)
