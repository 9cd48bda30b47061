-- ===== src/Gpio/Tests.antt =====
-- Two pins of the first bank that the same register selects.
use ninjastorms.Prelude.{arith}
use ninjastorms.PinInfo.{unknown}
use ninjastorms.Gpio.{pin_info}
use ninjastorms.Gpio.Fields.{Fits, Disjoint, pin_info-Disjoint}

pin_info-Disjoint_example :
    Fits (pin_info (λ n. unknown) 3)
    × Disjoint (pin_info (λ n. unknown) 3) (pin_info (λ n. unknown) 4)
pin_info-Disjoint_example =
    pin_info-Disjoint (λ n. unknown) 3 4 (omega arith) (omega arith) (omega arith)
