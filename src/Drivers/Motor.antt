-- ===== src/Drivers/Motor.antt =====
-- kernel/drivers/motor.c and motor.h.
use ninjastorms.Prelude.{ℕ, ◌+◌}
use ninjastorms.Device.{Io, ◌>>◌, clear_bits, complement}
use ninjastorms.Gpio.{Beyond, gpio_pin, gpio_init_outpin, gpio_set, syscfg1_base}

pub data MotorPortId : Type 0 where
  motor_port_a : MotorPortId
  motor_port_b : MotorPortId
  motor_port_c : MotorPortId
  motor_port_d : MotorPortId

pub data MotorState : Type 0 where
  motor_backward : MotorState
  motor_off : MotorState
  motor_forward : MotorState

pub record MotorPortInfo : Type 0 where
  pub pin1 : ℕ
  pub pin2 : ℕ
  pub pin5w : ℕ
  pub pin5r : ℕ
  pub pin6 : ℕ
  pub adc1 : ℕ
  pub adc2 : ℕ

abbrev pub motor_port : ℕ → ℕ → ℕ → ℕ → ℕ → ℕ → ℕ → MotorPortInfo
motor_port in0 in1 det int dir a b = record {
  pin1 = in0;
  pin2 = in1;
  pin5w = det;
  pin5r = int;
  pin6 = dir;
  adc1 = a;
  adc2 = b;
}

abbrev pub ports : MotorPortId → MotorPortInfo
ports motor_port_a =
    motor_port (gpio_pin 3 15) (gpio_pin 3 6) (gpio_pin 5 4) (gpio_pin 5 11) (gpio_pin 0 4) 0x6 0x5
ports motor_port_b =
    motor_port (gpio_pin 0 3) (gpio_pin 2 1) (gpio_pin 2 5) (gpio_pin 5 8) (gpio_pin 2 9) 0x8 0x7
ports motor_port_c =
    motor_port (gpio_pin 6 8) (gpio_pin 5 9) (gpio_pin 3 8) (gpio_pin 5 13) (gpio_pin 3 14) 0xA 0x9
ports motor_port_d =
    motor_port (gpio_pin 5 10) (gpio_pin 5 3) (gpio_pin 5 15) (gpio_pin 6 9) (gpio_pin 2 8) 0xC 0xB

module _ (beyond : Beyond) where
  unfoldable pub motor_set_state : MotorPortId → MotorState → Io Unit
  motor_set_state port motor_forward = do
    gpio_set beyond (ports port).pin1 1
    gpio_set beyond (ports port).pin2 0
  motor_set_state port motor_backward = do
    gpio_set beyond (ports port).pin1 0
    gpio_set beyond (ports port).pin2 1
  motor_set_state port motor_off = do
    gpio_set beyond (ports port).pin1 0
    gpio_set beyond (ports port).pin2 0

  -- The body of the loop over the ports.
  abbrev pub init_port : MotorPortId → Io Unit
  init_port port = do
    gpio_init_outpin beyond (ports port).pin1
    gpio_init_outpin beyond (ports port).pin2
    gpio_init_outpin beyond (ports port).pin5w
    gpio_init_outpin beyond (ports port).pin5r
    gpio_init_outpin beyond (ports port).pin6

  -- The last access disables the pull-down.
  unfoldable pub motor_init : Io Unit
  motor_init = do
    init_port motor_port_a
    init_port motor_port_b
    init_port motor_port_c
    init_port motor_port_d
    clear_bits (syscfg1_base + 0x0C) (complement 0xFFFFFFFF)
