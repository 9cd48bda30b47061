-- ===== src/Drivers/Led.antt =====
-- kernel/drivers/led.c and led.h.
use ninjastorms.Prelude.{ℕ, ◌/◌, if◌then◌else◌, ◌==◌, bit_and}
use ninjastorms.Device.{Io, pure, ◌>>◌}
use ninjastorms.Gpio.{Beyond, gpio_pin, gpio_init_outpin, gpio_set}

pub data LedId : Type 0 where
  led_left : LedId
  led_right : LedId
  led_both : LedId

pub data LedColor : Type 0 where
  led_black : LedColor
  led_red : LedColor
  led_green : LedColor
  led_orange : LedColor

abbrev pub led_bits : LedId → ℕ
led_bits led_left = 0x01
led_bits led_right = 0x02
led_bits led_both = 0x03

abbrev pub color_bits : LedColor → ℕ
color_bits led_black = 0x00
color_bits led_red = 0x01
color_bits led_green = 0x02
color_bits led_orange = 0x03

pub record LedInfo : Type 0 where
  pub pin1 : ℕ
  pub pin2 : ℕ

abbrev pub left_led : LedInfo
left_led = record { pin1 = gpio_pin 6 13; pin2 = gpio_pin 6 7 }

abbrev pub right_led : LedInfo
right_led = record { pin1 = gpio_pin 6 12; pin2 = gpio_pin 6 14 }

module _ (beyond : Beyond) where
  abbrev pub set_pins : LedInfo → LedColor → Io Unit
  set_pins info color = do
    gpio_set beyond info.pin1 (bit_and (color_bits color) 1)
    gpio_set beyond info.pin2 (bit_and (color_bits color) 2 / 2)

  unfoldable pub led_set : LedId → LedColor → Io Unit
  led_set led color = do
    if bit_and (led_bits led) 0x01 == 0 then pure tt else set_pins left_led color
    if bit_and (led_bits led) 0x02 == 0 then pure tt else set_pins right_led color

  unfoldable pub led_init : Io Unit
  led_init = do
    gpio_init_outpin beyond left_led.pin1
    gpio_init_outpin beyond left_led.pin2
    gpio_init_outpin beyond right_led.pin1
    gpio_init_outpin beyond right_led.pin2
