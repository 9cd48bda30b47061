-- ===== src/Demo.antt =====
-- kernel/demo: the demonstrations of the lights and of a motor, as programs of register accesses. The reads of the
-- touch sensor get a number of rounds; `none` says that this was not enough.
pub mod Lights
mod Tests
use ninjastorms.Prelude.{
  ℕ, zero, suc, ◌+◌, ◌*◌, ◌%◌, Bool, Option, some, if◌then◌else◌, ◌==◌, ltb, bit_and,
}
use ninjastorms.Device.{Io, pure, ◌>>=◌, ◌>>◌, ◌>>?◌, after_some}
use ninjastorms.Gpio.{Beyond}
use ninjastorms.Drivers.Led.{
  LedId, led_left, led_right, led_both, LedColor, led_black, led_red, led_green, led_orange,
  led_set,
}
use ninjastorms.Drivers.Motor.{motor_port_a, motor_forward, motor_off, motor_set_state}
use ninjastorms.Drivers.Sensor.{
  SensorTouchState, sensor_touch_down, sensor_port_2, sensor_touch_get_state,
}

-- `while (timer < ticks) ++timer;`, with the rounds left: the value of the variable.
pub spin_loop : ℕ → ℕ → ℕ → ℕ
spin_loop zero ticks timer = timer
spin_loop (suc n) ticks timer =
    let rest = spin_loop n ticks (timer + 1) in if ltb timer ticks then rest else timer

-- There are as many rounds as ticks.
abbrev pub spin : ℕ → Io ℕ
spin ticks = pure (spin_loop ticks ticks 0)

module _ (beyond : Beyond) where
  -- `i & 1 ? LED_BLACK : color`
  abbrev pub blink_color : ℕ → LedColor → LedColor
  blink_color i color = if bit_and i 1 == 0 then color else led_black

  -- The loop of `blink`, with the rounds left.
  abbrev pub blink_loop : ℕ → ℕ → LedId → LedColor → Io Unit
  blink_loop zero i led color = pure tt
  blink_loop (suc n) i led color = do
    led_set beyond led (blink_color i color)
    spin (512 * 1024)
    blink_loop n (i + 1) led color

  pub blink : LedId → LedColor → Io Unit
  blink led color = blink_loop 6 0 led color

  pub flash_lr : LedColor → Io Unit
  flash_lr color = do
    led_set beyond led_left color
    spin (64 * 1024)
    led_set beyond led_both led_black
    led_set beyond led_right color
    spin (64 * 1024)
    led_set beyond led_both led_black
    spin (512 * 1024)
    pure tt

  pub flash_rl : LedColor → Io Unit
  flash_rl color = do
    led_set beyond led_right color
    spin (64 * 1024)
    led_set beyond led_both led_black
    led_set beyond led_left color
    spin (64 * 1024)
    led_set beyond led_both led_black
    spin (512 * 1024)
    pure tt

  pub demo_led : Io Unit
  unfolding blink flash_lr flash_rl
  demo_led = do
    led_set beyond led_left led_green
    spin (512 * 1024)
    led_set beyond led_both led_black
    spin (512 * 1024)
    led_set beyond led_right led_green
    spin (512 * 1024)
    led_set beyond led_both led_black
    spin (512 * 1024)
    blink led_both led_green
    spin (1024 * 1024)
    flash_rl led_red
    flash_lr led_red
    spin (512 * 1024)
    flash_rl led_green
    flash_rl led_red
    flash_rl led_orange
    blink led_both led_red
    led_set beyond led_left led_green
    spin (1024 * 1024)
    led_set beyond led_right led_red
    spin (1024 * 1024)
    blink led_left led_green
    blink led_right led_red
    led_set beyond led_both led_orange
    spin (1024 * 1024)
    blink led_both led_orange
    spin (2 * 1024 * 1024)
    pure tt

  abbrev pub turn : SensorTouchState → Io Unit
  turn sensor_touch_down = motor_set_state beyond motor_port_a motor_forward
  turn _ = motor_set_state beyond motor_port_a motor_off

  pub demo_motor : ℕ → Io (Option Unit)
  demo_motor rounds =
      sensor_touch_get_state rounds sensor_port_2 >>? λ state. (turn state >> pure (some tt))
