-- ===== src/Interrupt/Handle/Tests.antt =====
-- Both timers are causes while the first of two tasks runs.
use ninjastorms.Prelude.{ℕ, ◌+◌, ◌≡◌, refl, some, true, [], ◌∷◌, arith, update, if◌then◌else◌, ◌==◌}
use ninjastorms.Device.{put, History, Hardware}
use ninjastorms.Scheduler.Two.{started, started_lem}
use ninjastorms.Network.Queue.{empty_queue}
use ninjastorms.Network.Mac.{null_mac}
use ninjastorms.Network.E1000.{E1000}
use ninjastorms.Network.E1000.Ring.{Serves}
use ninjastorms.Interrupt.{timer1_intbit, timer3_intbit}
use ninjastorms.Interrupt.Context.{switch}
use ninjastorms.Interrupt.Context.Saved.{context, saved}
use ninjastorms.Interrupt.Context.Two.{working, interrupted, interrupted-Runs}
use ninjastorms.Interrupt.Handle.{Kernel, is_set, handle_interrupt, irq_handler}
use ninjastorms.Interrupt.Handle.Causes.{Handled, handle_interrupt-Handled}
use ninjastorms.Interrupt.Handle.Whole.{Resumed, irq_handler-resumes}

abbrev card : E1000
card = record {
  base = 0x5000010;
  io_base = 0x43000000;
  mem_base = 0x50000000;
  eeprom_exists = true;
  mac = null_mac;
  rx_cur = 0;
  tx_cur = 0;
  pci_device = some 0x42006000;
}

abbrev kernel : Kernel
kernel = record {
  scheduler = started;
  clock = 41;
  receiving = record { card = card; queue = empty_queue };
}

abbrev before : History
before = put 4 0x50002818 31 ∷ []

abbrev both_timers : Hardware
both_timers h w a = if w == 4 then timer1_intbit + timer3_intbit else 0

both_timers-Serves : Serves both_timers card 0
both_timers-Serves = (λ h i l. omega arith, λ h i l c. refl)

handle_interrupt-Handled_example :
    Handled 48 kernel
      (handle_interrupt [] 1 kernel both_timers before).0
      (handle_interrupt [] 1 kernel both_timers before).1
handle_interrupt-Handled_example =
    handle_interrupt-Handled both_timers [] 0 0 kernel before
      (omega arith, omega arith, omega arith, omega arith) both_timers-Serves (omega arith)
      (omega arith, omega arith)

irq_handler-resumes_example :
    let next = saved 0 working started in
    let stopped = update (context started) 0 working in
    (j : ℕ) × ((switch (is_set 48 timer1_intbit) next).current_task ≡ some j)
    × Resumed 48
        (stopped j)
        (record kernel { scheduler = next })
        (irq_handler [] 1 working kernel both_timers before).0
        (irq_handler [] 1 working kernel both_timers before).1
irq_handler-resumes_example =
    irq_handler-resumes both_timers [] 0 0 interrupted kernel before 0 interrupted-Runs
      (omega (arith, started_lem.3)) started_lem.2 refl
      (omega arith, omega arith, omega arith, omega arith) both_timers-Serves (omega arith)
      (omega arith, omega arith)
