-- ===== src/Drivers/Tests.antt =====
-- The drivers from the reset on, and in the middle of a run.
use ninjastorms.Prelude.{◌≡◌, [], ◌∷◌, some, arith}
use ninjastorms.PinInfo.{unknown}
use ninjastorms.Gpio.Guarded.{Guarded, Locked}
use ninjastorms.Drivers.Motor.{motor_port_c, motor_backward, ports, motor_set_state}
use ninjastorms.Drivers.Sensor.{sensor_port_2}
use ninjastorms.Drivers.Calls.{
  init_spi, init_adc, get_touch, set_pin, init_leds, run_calls, run_calls-Guarded,
}
use ninjastorms.Drivers.Levels.{level, forward, backward, motor_set_state-level}

run_calls-Guarded_example :
    Guarded
      (run_calls
        (λ n. unknown)
        (init_leds
          ∷ set_pin (17, omega arith) 1
          ∷ init_spi
          ∷ init_adc 2
          ∷ get_touch 2 sensor_port_2
          ∷ [])
        (λ h w a. 0)
        []).1
    × Locked
        (run_calls
          (λ n. unknown)
          (init_leds
            ∷ set_pin (17, omega arith) 1
            ∷ init_spi
            ∷ init_adc 2
            ∷ get_touch 2 sensor_port_2
            ∷ [])
          (λ h w a. 0)
          []).1
run_calls-Guarded_example =
    run_calls-Guarded (λ n. unknown) (λ h w a. 0)
      (init_leds
        ∷ set_pin (17, omega arith) 1
        ∷ init_spi
        ∷ init_adc 2
        ∷ get_touch 2 sensor_port_2
        ∷ [])

motor_set_state-level_example :
    level
        (ports motor_port_c).pin1
        (motor_set_state (λ n. unknown) motor_port_c motor_backward (λ h w a. 7) []).1
      ≡ some (forward motor_backward)
    × level
        (ports motor_port_c).pin2
        (motor_set_state (λ n. unknown) motor_port_c motor_backward (λ h w a. 7) []).1
      ≡ some (backward motor_backward)
motor_set_state-level_example =
    motor_set_state-level (λ n. unknown) (λ h w a. 7) [] motor_port_c motor_backward
