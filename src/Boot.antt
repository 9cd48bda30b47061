-- ===== src/Boot.antt =====
-- `kernel_main` of kernel/main.c on the board VersatilePB, up to the registers that the first task starts with. The
-- addresses of the two handlers and of `network_task_recv`, the processor's mode, and the paths of the source files
-- for the log are arguments. `start_scheduler` does not return when it loads a task, so that the last `puts` is not
-- reached.
pub mod Launch
pub mod Tasks
mod Tests
use ninjastorms.Prelude.{ℕ, Option, none, some, List, [], ◌∷◌}
use ninjastorms.Device.{Io, pure, ◌>>=◌, ◌>>◌, ◌>>?◌, after_some, say}
use ninjastorms.Malloc.{Heap}
use ninjastorms.Scheduler.{Task, Scheduler, Action, versatilepb, add_task, start_scheduler, boot}
use ninjastorms.Drivers.Timer as Timer
use ninjastorms.Interrupt as Interrupt
use ninjastorms.Interrupt.Context as Context
use ninjastorms.Clock.Registers.{time_init}
use ninjastorms.Pci.{Devices, pci_devices}
use ninjastorms.Pci.Setup.{pci_init}
use ninjastorms.Network.E1000.{E1000}
use ninjastorms.Network.E1000.Init.{e1000_init}

-- What the program is built with: two handlers, the entry of the task, and the paths of pci.c and e1000.c.
pub record Build : Type 0 where
  pub syscall_handler : ℕ
  pub irq_handler : ℕ
  pub network_task_recv : ℕ
  pub pci_file : List ℕ
  pub e1000_file : List ℕ

-- The parts of the kernel behind the start; the pointer `e1000` may be null.
pub record Machine : Type 0 where
  pub devices : Devices
  pub card : Option E1000
  pub heap : Heap
  pub scheduler : Scheduler

-- The calls of `start_scheduler`. The load of the first task is the result of `launch`.
abbrev pub perform : Build → Action → Io Unit
perform build Action.timer_stop = Timer.timer_stop versatilepb
perform build Action.init_interrupt_handling =
    Interrupt.init_interrupt_handling build.syscall_handler build.irq_handler
perform build (Action.timer_start period) = Timer.timer_start versatilepb period
perform build (Action.load_current_task_state task) = pure tt

abbrev pub perform_all : Build → List Action → Io Unit
perform_all build [] = pure tt
perform_all build (action ∷ actions) = perform build action >> perform_all build actions

-- "This is ninjastorms OS"
abbrev this_is : List ℕ
this_is =
    b'T' ∷ b'h' ∷ b'i' ∷ b's' ∷ b' ' ∷ b'i' ∷ b's' ∷ b' ' ∷ b'n' ∷ b'i' ∷ b'n' ∷ b'j' ∷ b'a' ∷ b's'
    ∷ b't' ∷ b'o' ∷ b'r' ∷ b'm' ∷ b's' ∷ b' ' ∷ b'O' ∷ b'S' ∷ []

-- "  shuriken ready"
abbrev shuriken_ready : List ℕ
shuriken_ready =
    b' ' ∷ b' ' ∷ b's' ∷ b'h' ∷ b'u' ∷ b'r' ∷ b'i' ∷ b'k' ∷ b'e' ∷ b'n' ∷ b' ' ∷ b'r' ∷ b'e' ∷ b'a'
    ∷ b'd' ∷ b'y' ∷ []

abbrev shuriken : List ℕ
shuriken =
    b' ' ∷ b' ' ∷ b' ' ∷ b' ' ∷ b' ' ∷ b' ' ∷ b' ' ∷ b' ' ∷ b' ' ∷ b' ' ∷ b' ' ∷ b' ' ∷ b' ' ∷ b' '
    ∷ b' ' ∷ b' ' ∷ b' ' ∷ b'/' ∷ b'\\' ∷ b'\n' ∷ b' ' ∷ b' ' ∷ b' ' ∷ b' ' ∷ b' ' ∷ b' ' ∷ b' '
    ∷ b' ' ∷ b' ' ∷ b' ' ∷ b' ' ∷ b' ' ∷ b' ' ∷ b' ' ∷ b' ' ∷ b' ' ∷ b'/' ∷ b' ' ∷ b' ' ∷ b'\\'
    ∷ b'\n' ∷ b' ' ∷ b' ' ∷ b' ' ∷ b' ' ∷ b' ' ∷ b' ' ∷ b' ' ∷ b' ' ∷ b' ' ∷ b' ' ∷ b' ' ∷ b' '
    ∷ b' ' ∷ b' ' ∷ b' ' ∷ b' ' ∷ b'|' ∷ b' ' ∷ b' ' ∷ b'|' ∷ b'\n' ∷ b' ' ∷ b' ' ∷ b' ' ∷ b' '
    ∷ b' ' ∷ b' ' ∷ b' ' ∷ b' ' ∷ b' ' ∷ b' ' ∷ b' ' ∷ b' ' ∷ b' ' ∷ b' ' ∷ b'_' ∷ b'_' ∷ b'/'
    ∷ b'(' ∷ b')' ∷ b'\\' ∷ b'_' ∷ b'_' ∷ b'\n' ∷ b' ' ∷ b' ' ∷ b' ' ∷ b' ' ∷ b' ' ∷ b' ' ∷ b' '
    ∷ b' ' ∷ b' ' ∷ b' ' ∷ b' ' ∷ b' ' ∷ b' ' ∷ b'/' ∷ b' ' ∷ b' ' ∷ b' ' ∷ b'/' ∷ b'\\' ∷ b' '
    ∷ b' ' ∷ b' ' ∷ b'\\' ∷ b'\n' ∷ b' ' ∷ b' ' ∷ b' ' ∷ b' ' ∷ b' ' ∷ b' ' ∷ b' ' ∷ b' ' ∷ b' '
    ∷ b' ' ∷ b' ' ∷ b' ' ∷ b'/' ∷ b'_' ∷ b'_' ∷ b'_' ∷ b'/' ∷ b' ' ∷ b' ' ∷ b'\\' ∷ b'_' ∷ b'_'
    ∷ b'_' ∷ b'\\' ∷ b'\n' ∷ []

abbrev pub loaded : Machine → Option Task → Option (Task × Machine)
loaded m none = none
loaded m (some cpu) = some (cpu, m)

-- The last two calls of `kernel_main`.
pub launch : Build → Machine → Io (Option (Task × Machine))
launch build m = do
  time_init
  perform_all build (start_scheduler versatilepb m.scheduler).1
  pure (
      loaded (record m { scheduler = (start_scheduler versatilepb m.scheduler).0 })
        (Context.load_current_task_state (start_scheduler versatilepb m.scheduler).0))

abbrev pub greet : Io Unit
greet = do say this_is; say shuriken_ready; say shuriken

-- Behind `e1000_init`.
abbrev pub start_all : Build → ℕ → Devices → Option E1000 × Heap → Io (Option (Task × Machine))
start_all build cpsr devices (card, heap) = launch build (record {
  devices = devices;
  card = card;
  heap = heap;
  scheduler = (add_task versatilepb cpsr build.network_task_recv boot).1;
})

-- The fuel is for `malloc`, and what the memory of the driver's struct holds is an argument of `e1000_init`. `none` says
-- that the fuel was not enough, or that there is no task to load.
pub kernel_main : ℕ → Build → ℕ → E1000 → Heap → Io (Option (Task × Machine))
unfolding launch
kernel_main fuel build cpsr blank heap = do
  greet
  devices ← pci_init 0 build.pci_file pci_devices
  e1000_init fuel 0 build.e1000_file devices blank heap >>? start_all build cpsr devices
