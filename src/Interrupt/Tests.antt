-- ===== src/Interrupt/Tests.antt =====
-- The interrupt vector of the board EV3.
use ninjastorms.Prelude.{◌≡◌, []}
use ninjastorms.Scheduler.{ev3, versatilepb}
use ninjastorms.Prelude.{some}
use ninjastorms.Interrupt.{init_interrupt_handling, setup_ivt}
use ninjastorms.Interrupt.Vectors.{
  handler, expected, interrupt_request, init_interrupt_handling-vectors,
}

init_interrupt_handling-vectors_example :
    handler ev3 interrupt_request (setup_ivt ev3 0x8000 0x9000 (λ h w a. 0) []).1
      ≡ some (expected 0x8000 0x9000 interrupt_request)
    × handler versatilepb interrupt_request
        (init_interrupt_handling 0x8000 0x9000 (λ h w a. 0) []).1
      ≡ some (expected 0x8000 0x9000 interrupt_request)
init_interrupt_handling-vectors_example =
    init_interrupt_handling-vectors ev3 0x8000 0x9000 (λ h w a. 0) [] interrupt_request
