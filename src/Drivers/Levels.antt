-- ===== src/Drivers/Levels.antt =====
-- The levels that the drivers of the lights and the motors (kernel/drivers/led.c, motor.c) put on the pins.
use ninjastorms.Prelude.{
  ℕ, ◌≡◌, refl, Bool, true, false, not, ◌&&◌, [], ◌∷◌, Option, none, some, if◌then◌else◌, ◌==◌,
  bit_and,
}
use ninjastorms.Device.{History, Hardware, got, put, printed}
use ninjastorms.Gpio.{
  Beyond, gpio_mask, gpio_set_register, gpio_clr, gpio_set, gpio_init_outpin, gpio_init_pin,
}
use ninjastorms.Drivers.Led.{
  LedId, led_left, led_right, led_both, LedColor, led_black, led_red, led_green, led_orange,
  LedInfo, left_led, right_led, led_set,
}
use ninjastorms.Drivers.Motor.{
  MotorPortId, motor_port_a, motor_port_b, motor_port_c, motor_port_d, MotorState, motor_backward,
  motor_off, motor_forward, ports, motor_set_state,
}

-- The level of a pin: the last write of its bit into the register that sets or the one that clears.
abbrev pub level : ℕ → History → Option Bool
level pin [] = none
level pin (got w a v ∷ h) = level pin h
level pin (printed o ∷ h) = level pin h
level pin (put w a v ∷ h) =
    if (a == gpio_set_register pin) && not (bit_and v (gpio_mask pin) == 0)
    then some true
    else if (a == gpio_clr pin) && not (bit_and v (gpio_mask pin) == 0)
    then some false
    else level pin h

abbrev pub forward : MotorState → Bool
forward motor_forward = true
forward _ = false

abbrev pub backward : MotorState → Bool
backward motor_backward = true
backward _ = false

-- `motor_set_state` leaves the two inputs of the port's bridge at the levels of the state: the first is
-- high exactly for forward, and the second exactly for backward, on any hardware and whatever was before.
pub motor_set_state-level :
    (beyond : Beyond) (hw : Hardware) (h : History) (port : MotorPortId) (state : MotorState)
    → level (ports port).pin1 (motor_set_state beyond port state hw h).1 ≡ some (forward state)
      × level (ports port).pin2 (motor_set_state beyond port state hw h).1 ≡ some (backward state)
unfolding motor_set_state gpio_set gpio_init_outpin gpio_init_pin
motor_set_state-level beyond hw h motor_port_a motor_forward = (refl, refl)
motor_set_state-level beyond hw h motor_port_a motor_backward = (refl, refl)
motor_set_state-level beyond hw h motor_port_a motor_off = (refl, refl)
motor_set_state-level beyond hw h motor_port_b motor_forward = (refl, refl)
motor_set_state-level beyond hw h motor_port_b motor_backward = (refl, refl)
motor_set_state-level beyond hw h motor_port_b motor_off = (refl, refl)
motor_set_state-level beyond hw h motor_port_c motor_forward = (refl, refl)
motor_set_state-level beyond hw h motor_port_c motor_backward = (refl, refl)
motor_set_state-level beyond hw h motor_port_c motor_off = (refl, refl)
motor_set_state-level beyond hw h motor_port_d motor_forward = (refl, refl)
motor_set_state-level beyond hw h motor_port_d motor_backward = (refl, refl)
motor_set_state-level beyond hw h motor_port_d motor_off = (refl, refl)

abbrev pub red : LedColor → Bool
red led_red = true
red led_orange = true
red _ = false

abbrev pub green : LedColor → Bool
green led_green = true
green led_orange = true
green _ = false

-- A light shows a color.
abbrev pub Shows : LedInfo → LedColor → History → Type 0
Shows info color h = level info.pin1 h ≡ some (red color) × level info.pin2 h ≡ some (green color)

-- A light is as it was.
abbrev pub Same : LedInfo → History → History → Type 0
Same info before after =
    level info.pin1 after ≡ level info.pin1 before × level info.pin2 after ≡ level info.pin2 before

-- What `led_set` does to both lights.
abbrev pub Lit : LedId → LedColor → History → History → Type 0
Lit led_left color before after = Shows left_led color after × Same right_led before after
Lit led_right color before after = Same left_led before after × Shows right_led color after
Lit led_both color before after = Shows left_led color after × Shows right_led color after

-- `led_set` leaves the lights it is for in the color it is given, and the other light as it was, on any
-- hardware and whatever was before.
pub led_set-Lit :
    (beyond : Beyond) (hw : Hardware) (h : History) (led : LedId) (color : LedColor)
    → Lit led color h (led_set beyond led color hw h).1
unfolding led_set gpio_set gpio_init_outpin gpio_init_pin
led_set-Lit beyond hw h led_left led_black = ((refl, refl), (refl, refl))
led_set-Lit beyond hw h led_left led_red = ((refl, refl), (refl, refl))
led_set-Lit beyond hw h led_left led_green = ((refl, refl), (refl, refl))
led_set-Lit beyond hw h led_left led_orange = ((refl, refl), (refl, refl))
led_set-Lit beyond hw h led_right led_black = ((refl, refl), (refl, refl))
led_set-Lit beyond hw h led_right led_red = ((refl, refl), (refl, refl))
led_set-Lit beyond hw h led_right led_green = ((refl, refl), (refl, refl))
led_set-Lit beyond hw h led_right led_orange = ((refl, refl), (refl, refl))
led_set-Lit beyond hw h led_both led_black = ((refl, refl), (refl, refl))
led_set-Lit beyond hw h led_both led_red = ((refl, refl), (refl, refl))
led_set-Lit beyond hw h led_both led_green = ((refl, refl), (refl, refl))
led_set-Lit beyond hw h led_both led_orange = ((refl, refl), (refl, refl))
