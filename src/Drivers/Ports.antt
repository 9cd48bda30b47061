-- ===== src/Drivers/Ports.antt =====
-- The lights, the buttons and the motors (kernel/drivers/led.c, button.c, motor.c) under the lock of the pins.
use ninjastorms.Prelude.{ℕ, ◌+◌, ◌/◌, ◌<◌, arith, bit_and}
use ninjastorms.Device.{complement, History, Hardware}
use ninjastorms.PinInfo.{pininfo_size}
use ninjastorms.Gpio.{Beyond, gpio_init_inpin, gpio_set, syscfg1_base}
use ninjastorms.Gpio.Guarded.{
  Closed, clear_bits-Closed, gpio_init_outpin-Closed, gpio_init_inpin-Closed, gpio_set-Closed,
  gpio_get-Closed,
}
use ninjastorms.Drivers.Led.{
  LedId, led_left, led_right, led_both, LedColor, LedInfo, left_led, right_led, set_pins,
  color_bits, led_set, led_init,
}
use ninjastorms.Drivers.Motor.{
  MotorPortId, motor_port_a, motor_port_b, motor_port_c, motor_port_d, MotorState, motor_backward,
  motor_off, motor_forward, ports, motor_set_state, init_port, motor_init,
}
use ninjastorms.Drivers.Button.{
  ButtonId, button_left, button_right, button_top, button_bottom, button_center, button_back,
  buttons, button_get_state, button_init,
}

module _ (beyond : Beyond) (hw : Hardware) where
  set_pins-Closed :
      (info : LedInfo) (color : LedColor)
      → info.pin1 < pininfo_size
      → info.pin2 < pininfo_size
      → (h : History) → Closed h
      → Closed (set_pins beyond info color hw h).1
  set_pins-Closed info color a b h c =
      gpio_set-Closed beyond info.pin2 b hw _ (bit_and (color_bits color) 2 / 2)
        (gpio_set-Closed beyond info.pin1 a hw h (bit_and (color_bits color) 1) c)

  pub led_set-Closed :
      (led : LedId) (color : LedColor) (h : History)
      → Closed h
      → Closed (led_set beyond led color hw h).1
  unfolding led_set
  led_set-Closed led_left color h c = set_pins-Closed left_led color (omega arith) (omega arith) h c
  led_set-Closed led_right color h c =
      set_pins-Closed right_led color (omega arith) (omega arith) h c
  led_set-Closed led_both color h c =
      set_pins-Closed right_led color (omega arith) (omega arith) _
        (set_pins-Closed left_led color (omega arith) (omega arith) h c)

  pub led_init-Closed : (h : History) → Closed h → Closed (led_init beyond hw h).1
  unfolding led_init
  led_init-Closed h c = gpio_init_outpin-Closed beyond right_led.pin2 (omega arith) hw _ (
      gpio_init_outpin-Closed beyond right_led.pin1 (omega arith) hw _ (
        gpio_init_outpin-Closed beyond left_led.pin2 (omega arith) hw _
          (gpio_init_outpin-Closed beyond left_led.pin1 (omega arith) hw h c)))

  buttons-lt : (button : ButtonId) → buttons button < pininfo_size
  buttons-lt button_left = omega arith
  buttons-lt button_right = omega arith
  buttons-lt button_top = omega arith
  buttons-lt button_bottom = omega arith
  buttons-lt button_center = omega arith
  buttons-lt button_back = omega arith

  pub button_get_state-Closed :
      (button : ButtonId) (h : History) → Closed h → Closed (button_get_state beyond button hw h).1
  unfolding button_get_state
  button_get_state-Closed button h c =
      gpio_get-Closed beyond (buttons button) (buttons-lt button) hw h c

  init_button-Closed :
      (button : ButtonId) (h : History)
      → Closed h
      → Closed (gpio_init_inpin beyond (buttons button) hw h).1
  init_button-Closed button h c =
      gpio_init_inpin-Closed beyond (buttons button) (buttons-lt button) hw h c

  pub button_init-Closed : (h : History) → Closed h → Closed (button_init beyond hw h).1
  unfolding button_init
  button_init-Closed h c = clear_bits-Closed hw _ (syscfg1_base + 0x10) 0xFDFFFFFF (omega arith) (
      init_button-Closed button_back _ (
        init_button-Closed button_center _ (
          init_button-Closed button_bottom _ (
            init_button-Closed button_top _
              (init_button-Closed button_right _ (init_button-Closed button_left h c))))))

  Known : MotorPortId → Type 0
  Known port =
      (ports port).pin1 < pininfo_size
      × (ports port).pin2 < pininfo_size
      × (ports port).pin5w < pininfo_size
      × (ports port).pin5r < pininfo_size
      × (ports port).pin6 < pininfo_size

  ports-Known : (port : MotorPortId) → Known port
  unfolding Known
  ports-Known motor_port_a = (omega arith, omega arith, omega arith, omega arith, omega arith)
  ports-Known motor_port_b = (omega arith, omega arith, omega arith, omega arith, omega arith)
  ports-Known motor_port_c = (omega arith, omega arith, omega arith, omega arith, omega arith)
  ports-Known motor_port_d = (omega arith, omega arith, omega arith, omega arith, omega arith)

  set_motor-Closed :
      (port : MotorPortId) (a b : ℕ) (h : History)
      → Closed h
      → Closed
          (gpio_set beyond (ports port).pin2 b hw (gpio_set beyond (ports port).pin1 a hw h).1).1
  unfolding Known
  set_motor-Closed port a b h c =
      let (k1, k2, k5w, k5r, k6) = ports-Known port in
      gpio_set-Closed beyond (ports port).pin2 k2 hw _ b
        (gpio_set-Closed beyond (ports port).pin1 k1 hw h a c)

  pub motor_set_state-Closed :
      (port : MotorPortId) (state : MotorState) (h : History)
      → Closed h
      → Closed (motor_set_state beyond port state hw h).1
  unfolding motor_set_state
  motor_set_state-Closed port motor_forward h c = set_motor-Closed port 1 0 h c
  motor_set_state-Closed port motor_backward h c = set_motor-Closed port 0 1 h c
  motor_set_state-Closed port motor_off h c = set_motor-Closed port 0 0 h c

  init_port-Closed :
      (port : MotorPortId) (h : History) → Closed h → Closed (init_port beyond port hw h).1
  unfolding Known
  init_port-Closed port h c =
      let (k1, k2, k5w, k5r, k6) = ports-Known port in
      gpio_init_outpin-Closed beyond (ports port).pin6 k6 hw _ (
        gpio_init_outpin-Closed beyond (ports port).pin5r k5r hw _ (
          gpio_init_outpin-Closed beyond (ports port).pin5w k5w hw _ (
            gpio_init_outpin-Closed beyond (ports port).pin2 k2 hw _
              (gpio_init_outpin-Closed beyond (ports port).pin1 k1 hw h c))))

  pub motor_init-Closed : (h : History) → Closed h → Closed (motor_init beyond hw h).1
  unfolding motor_init
  motor_init-Closed h c =
      clear_bits-Closed hw _ (syscfg1_base + 0x0C) (complement 0xFFFFFFFF) (omega arith) (
        init_port-Closed motor_port_d _ (
          init_port-Closed motor_port_c _
            (init_port-Closed motor_port_b _ (init_port-Closed motor_port_a h c))))
