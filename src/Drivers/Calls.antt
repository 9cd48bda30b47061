-- ===== src/Drivers/Calls.antt =====
-- The calls of the drivers in kernel/drivers: any sequence of them, on any hardware. The loops of
-- `spi_update` that do not end within their rounds end the call.
use ninjastorms.Prelude.{ℕ, ◌<◌, List, [], ◌∷◌}
use ninjastorms.Device.{Io, pure, ◌>>=◌, ◌>>◌, History, Hardware}
use ninjastorms.PinInfo.{pininfo_size}
use ninjastorms.Gpio.{Beyond, gpio_init_pin, gpio_init_outpin, gpio_init_inpin, gpio_set, gpio_get}
use ninjastorms.Gpio.Guarded.{
  Closed, Guarded, Locked, Closed-parts, Closed-reset, gpio_init_pin-Closed,
  gpio_init_outpin-Closed, gpio_init_inpin-Closed, gpio_set-Closed, gpio_get-Closed,
}
use ninjastorms.Drivers.Led.{LedId, LedColor, led_set, led_init}
use ninjastorms.Drivers.Button.{ButtonId, button_get_state, button_init}
use ninjastorms.Drivers.Motor.{MotorPortId, MotorState, motor_set_state, motor_init}
use ninjastorms.Drivers.Spi.{Saved, spi_init, spi_fini}
use ninjastorms.Drivers.Adc.{adc_init}
use ninjastorms.Drivers.Sensor.{SensorPortId, sensor_touch_get_state, sensor_light_get, sensor_init}
use ninjastorms.Drivers.Ports.{
  led_set-Closed, led_init-Closed, button_get_state-Closed, button_init-Closed,
  motor_set_state-Closed, motor_init-Closed,
}
use ninjastorms.Drivers.Serial.{
  sensor_touch_get_state-Closed, sensor_light_get-Closed, sensor_init-Closed, spi_init-Closed,
  spi_fini-Closed, adc_init-Closed,
}

-- A pin of the table.
abbrev pub Pin : Type 0
Pin = (pin : ℕ) × pin < pininfo_size

pub data Call : Type 0 where
  init_pin : Pin → Call
  init_outpin : Pin → Call
  init_inpin : Pin → Call
  set_pin : Pin → ℕ → Call
  get_pin : Pin → Call
  init_leds : Call
  set_led : LedId → LedColor → Call
  init_buttons : Call
  get_button : ButtonId → Call
  init_motors : Call
  set_motor : MotorPortId → MotorState → Call
  init_spi : Call
  end_spi : Saved → Call
  init_adc : ℕ → Call
  init_sensors : Call
  get_touch : ℕ → SensorPortId → Call
  get_light : ℕ → SensorPortId → Call

abbrev silent : {A : Type 0} → Io A → Io Unit
silent m = m >>= λ _. pure tt

module _ (beyond : Beyond) where
  pub run_call : Call → Io Unit
  run_call (init_pin (pin, k)) = gpio_init_pin beyond pin
  run_call (init_outpin (pin, k)) = gpio_init_outpin beyond pin
  run_call (init_inpin (pin, k)) = gpio_init_inpin beyond pin
  run_call (set_pin (pin, k) value) = gpio_set beyond pin value
  run_call (get_pin (pin, k)) = silent (gpio_get beyond pin)
  run_call init_leds = led_init beyond
  run_call (set_led led color) = led_set beyond led color
  run_call init_buttons = button_init beyond
  run_call (get_button button) = silent (button_get_state beyond button)
  run_call init_motors = motor_init beyond
  run_call (set_motor port state) = motor_set_state beyond port state
  run_call init_spi = silent (spi_init beyond)
  run_call (end_spi saved) = spi_fini saved
  run_call (init_adc rounds) = silent (adc_init beyond rounds)
  run_call init_sensors = sensor_init beyond
  run_call (get_touch rounds port) = silent (sensor_touch_get_state rounds port)
  run_call (get_light rounds port) = silent (sensor_light_get beyond rounds port)

  pub run_calls : List Call → Io Unit
  unfolding run_call
  run_calls [] = pure tt
  run_calls (c ∷ cs) = run_call c >> run_calls cs

  module _ (hw : Hardware) where
    run_call-Closed : (call : Call) (h : History) → Closed h → Closed (run_call call hw h).1
    unfolding run_call
    run_call-Closed (init_pin (pin, k)) h c = gpio_init_pin-Closed beyond pin k hw h c
    run_call-Closed (init_outpin (pin, k)) h c = gpio_init_outpin-Closed beyond pin k hw h c
    run_call-Closed (init_inpin (pin, k)) h c = gpio_init_inpin-Closed beyond pin k hw h c
    run_call-Closed (set_pin (pin, k) value) h c = gpio_set-Closed beyond pin k hw h value c
    run_call-Closed (get_pin (pin, k)) h c = gpio_get-Closed beyond pin k hw h c
    run_call-Closed init_leds h c = led_init-Closed beyond hw h c
    run_call-Closed (set_led led color) h c = led_set-Closed beyond hw led color h c
    run_call-Closed init_buttons h c = button_init-Closed beyond hw h c
    run_call-Closed (get_button button) h c = button_get_state-Closed beyond hw button h c
    run_call-Closed init_motors h c = motor_init-Closed beyond hw h c
    run_call-Closed (set_motor port state) h c = motor_set_state-Closed beyond hw port state h c
    run_call-Closed init_spi h c = spi_init-Closed beyond hw h c
    run_call-Closed (end_spi saved) h c = spi_fini-Closed beyond hw saved h c
    run_call-Closed (init_adc rounds) h c = adc_init-Closed beyond hw rounds h c
    run_call-Closed init_sensors h c = sensor_init-Closed beyond hw h c
    run_call-Closed (get_touch rounds port) h c =
        sensor_touch_get_state-Closed beyond hw rounds port h c
    run_call-Closed (get_light rounds port) h c = sensor_light_get-Closed beyond hw rounds port h c

    run_calls-Closed :
        (calls : List Call) (h : History) → Closed h → Closed (run_calls calls hw h).1
    unfolding run_calls
    run_calls-Closed [] h c = c
    run_calls-Closed (call ∷ calls) h c = run_calls-Closed calls _ (run_call-Closed call h c)

-- Whatever sequence of driver calls runs from the reset on, and whatever the hardware answers: a register
-- that selects the function of a pin is written only while both lock registers hold their keys, and behind
-- the calls they hold 0 again. The pins of the calls on single pins are those of the table.
pub run_calls-Guarded :
    (beyond : Beyond) (hw : Hardware) (calls : List Call)
    → Guarded (run_calls beyond calls hw []).1 × Locked (run_calls beyond calls hw []).1
run_calls-Guarded beyond hw calls =
    Closed-parts (run_calls beyond calls hw []).1 (run_calls-Closed beyond hw calls [] Closed-reset)
