-- ===== src/Drivers/Sensor.antt =====
-- kernel/drivers/sensor.c and sensor.h.
use ninjastorms.Prelude.{ℕ, ◌+◌, ◌&&◌, ◌||◌, Option, some, ltb, if◌then◌else◌}
use ninjastorms.Device.{Io, pure, ◌>>◌, ◌>>?◌, clear_bits, complement}
use ninjastorms.Gpio.{
  Beyond, gpio_pin, gpio_init_pin, gpio_init_outpin, gpio_init_inpin, gpio_set, syscfg1_base,
}
use ninjastorms.Drivers.Adc.{adc_get}

pub data SensorPortId : Type 0 where
  sensor_port_1 : SensorPortId
  sensor_port_2 : SensorPortId
  sensor_port_3 : SensorPortId
  sensor_port_4 : SensorPortId

pub data SensorTouchState : Type 0 where
  sensor_touch_down : SensorTouchState
  sensor_touch_up : SensorTouchState

pub record SensorPortInfo : Type 0 where
  pub pin1 : ℕ
  pub pin2 : ℕ
  pub pin5 : ℕ
  pub pin6 : ℕ
  pub buffer : ℕ
  pub adc1 : ℕ
  pub adc2 : ℕ

abbrev pub sensor_port : ℕ → ℕ → ℕ → ℕ → ℕ → ℕ → ℕ → SensorPortInfo
sensor_port onb legdet digi0 digi1 disable a b = record {
  pin1 = onb;
  pin2 = legdet;
  pin5 = digi0;
  pin6 = digi1;
  buffer = disable;
  adc1 = a;
  adc2 = b;
}

abbrev pub ports : SensorPortId → SensorPortInfo
ports sensor_port_1 =
    sensor_port (gpio_pin 8 10) (gpio_pin 2 2) (gpio_pin 0 2) (gpio_pin 0 15) (gpio_pin 8 11) 0x6
      0x5
ports sensor_port_2 =
    sensor_port (gpio_pin 8 12) (gpio_pin 8 15) (gpio_pin 0 14) (gpio_pin 0 13) (gpio_pin 8 14) 0x8
      0x7
ports sensor_port_3 =
    sensor_port (gpio_pin 8 9) (gpio_pin 7 11) (gpio_pin 0 12) (gpio_pin 1 14) (gpio_pin 7 9) 0xA
      0x9
ports sensor_port_4 =
    sensor_port (gpio_pin 6 4) (gpio_pin 7 8) (gpio_pin 0 1) (gpio_pin 1 15) (gpio_pin 7 10) 0xC 0xB

-- The thresholds of the two values of a touch sensor.
abbrev pub touch_state : ℕ → ℕ → SensorTouchState
touch_state data1 data2 =
    if ltb 3000 data2 || (ltb 500 data1 && ltb data1 1000)
    then sensor_touch_down
    else sensor_touch_up

unfoldable pub sensor_touch_get_state : ℕ → SensorPortId → Io (Option SensorTouchState)
sensor_touch_get_state rounds port = adc_get rounds (ports port).adc1 >>? λ data1.
    adc_get rounds (ports port).adc2 >>? λ data2. pure (some (touch_state data1 data2))

module _ (beyond : Beyond) where
  unfoldable pub sensor_light_get : ℕ → SensorPortId → Io (Option ℕ)
  sensor_light_get rounds port =
      gpio_set beyond (ports port).pin5 1 >> adc_get rounds (ports port).adc1

  -- The body of the loop over the ports.
  abbrev pub init_port : SensorPortId → Io Unit
  init_port port = do
    gpio_init_inpin beyond (ports port).pin1
    gpio_init_inpin beyond (ports port).pin2
    gpio_init_outpin beyond (ports port).pin5
    gpio_init_pin beyond (ports port).pin6
    gpio_init_pin beyond (ports port).buffer

  -- The last access disables the pull-down.
  unfoldable pub sensor_init : Io Unit
  sensor_init = do
    init_port sensor_port_1
    init_port sensor_port_2
    init_port sensor_port_3
    init_port sensor_port_4
    clear_bits (syscfg1_base + 0x0C) (complement 0xFFFFFFFF)
