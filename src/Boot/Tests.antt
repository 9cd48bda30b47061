-- ===== src/Boot/Tests.antt =====
-- A start on a fresh heap, with hardware that answers zeros: no card is found.
use ninjastorms.Prelude.{ℕ, refl, false, none, [], arith}
use ninjastorms.Device.{Hardware}
use ninjastorms.Malloc.{Heap, fresh}
use ninjastorms.Malloc.Valid.{IsValid}
use ninjastorms.Scheduler.{is_privileged}
use ninjastorms.Network.Mac.{null_mac}
use ninjastorms.Network.E1000.{E1000}
use ninjastorms.Boot.{Build, kernel_main}
use ninjastorms.Boot.Launch.{Booted, kernel_main-Booted}

abbrev build : Build
build = record {
  syscall_handler = 0x10100;
  irq_handler = 0x10200;
  network_task_recv = 0x10300;
  pci_file = [];
  e1000_file = [];
}

abbrev blank : E1000
blank = record {
  base = 0;
  io_base = 0;
  mem_base = 0;
  eeprom_exists = false;
  mac = null_mac;
  rx_cur = 0;
  tx_cur = 0;
  pci_device = none;
}

abbrev heap : Heap
heap = fresh (λ a. 0) (λ a. 0)

heap-IsValid : IsValid heap [] []
unfolding fresh
heap-IsValid = record {
  tiles = refl;
  in_heap = omega arith;
  chain = refl;
  distinct = tt;
  known = λ b i. cc;
}

abbrev quiet : Hardware
quiet h w a = 0

-- Supervisor mode.
abbrev svc : ℕ
svc = 0x13

kernel_main-Booted_example :
    Booted build
      (kernel_main 1 build svc blank heap quiet []).0
      (kernel_main 1 build svc blank heap quiet []).1
unfolding is_privileged
kernel_main-Booted_example =
    kernel_main-Booted 1 build svc blank heap [] [] quiet [] refl (omega arith) heap-IsValid
      (omega arith)
