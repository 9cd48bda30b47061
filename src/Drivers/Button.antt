-- ===== src/Drivers/Button.antt =====
-- kernel/drivers/button.c and button.h.
use ninjastorms.Prelude.{ℕ, ◌+◌}
use ninjastorms.Device.{Io, ◌>>◌, clear_bits}
use ninjastorms.Gpio.{Beyond, gpio_pin, gpio_init_inpin, gpio_get, syscfg1_base}

pub data ButtonId : Type 0 where
  button_left : ButtonId
  button_right : ButtonId
  button_top : ButtonId
  button_bottom : ButtonId
  button_center : ButtonId
  button_back : ButtonId

-- The pin of each button.
abbrev pub buttons : ButtonId → ℕ
buttons button_left = gpio_pin 6 6
buttons button_right = gpio_pin 7 12
buttons button_top = gpio_pin 7 15
buttons button_bottom = gpio_pin 7 14
buttons button_center = gpio_pin 1 13
buttons button_back = gpio_pin 6 10

module _ (beyond : Beyond) where
  unfoldable pub button_get_state : ButtonId → Io ℕ
  button_get_state button = gpio_get beyond (buttons button)

  -- The last access turns the pull-up of the left button's pin group off.
  unfoldable pub button_init : Io Unit
  button_init = do
    gpio_init_inpin beyond (buttons button_left)
    gpio_init_inpin beyond (buttons button_right)
    gpio_init_inpin beyond (buttons button_top)
    gpio_init_inpin beyond (buttons button_bottom)
    gpio_init_inpin beyond (buttons button_center)
    gpio_init_inpin beyond (buttons button_back)
    clear_bits (syscfg1_base + 0x10) 0xFDFFFFFF
