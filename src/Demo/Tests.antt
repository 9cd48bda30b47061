-- ===== src/Demo/Tests.antt =====
-- The show from two red lights.
use ninjastorms.Prelude.{ℕ, ◌≡◌, take, []}
use ninjastorms.Device.{Hardware, History}
use ninjastorms.Gpio.{Beyond}
use ninjastorms.Drivers.Led.{led_black, led_red, led_both, led_set}
use ninjastorms.Drivers.Levels.{led_set-Lit}
use ninjastorms.PinInfo.{unknown}
use ninjastorms.Demo.{demo_led}
use ninjastorms.Demo.Lights.{Lights, Showing, show, shown, run, demo_led-Showing}

abbrev zeros : Beyond
zeros n = unknown

abbrev quiet : Hardware
quiet h w a = 0

abbrev both_red : History
both_red = (led_set zeros led_both led_red quiet []).1

abbrev black : Lights
black = record { left = led_black; right = led_black }

abbrev red : Lights
red = record { left = led_red; right = led_red }

demo_led-Showing_example :
    ((demo_led zeros quiet both_red).1 ≡ (run zeros show quiet both_red).1)
    × ((n : ℕ) → Showing (shown (take n show) red) (run zeros (take n show) quiet both_red).1)
    × Showing black (demo_led zeros quiet both_red).1
demo_led-Showing_example =
    demo_led-Showing zeros quiet both_red red (led_set-Lit zeros quiet [] led_both led_red)
