-- ===== src/Lib.antt =====
-- ninjastorms: a small operating system for the ARM boards VersatilePB and EV3, with a round-robin
-- scheduler, a C library and a network stack. This library models its core.
--
-- Parts and files. All numbers are natural numbers; a machine word's wrap-around is written out, and
-- so is what the code does on a null pointer.
-- - Scheduler (kernel/scheduler.c, kernel/scheduler.h, kernel/utilities.c, the stack addresses of
--   kernel/memory.h). The record Scheduler holds the static variables; a task pointer is null or an
--   index of the task table. `add_task`, `schedule` and `start_scheduler` have the names of the C
--   functions and pass the state. The processor's mode register is an argument of `add_task`; the
--   calls to the timer that `start_scheduler` makes are a list of actions. Scheduler.Queue is the
--   bounded queue that the ring buffer implements, Scheduler.Rotation the round of the tasks,
--   Scheduler.Reach the histories of calls, and Scheduler.Pending the tasks that such a history keeps.
-- - Malloc (libc/stdlib/malloc.c, libc/unistd/sbrk.c). The record Heap holds the two fields of each
--   block header as stores, the head of the free list and the heap's end. The search loop recurs on
--   fuel, one round for each free block, so that more fuel than there are free blocks is enough. Malloc.Valid
--   has the invariant: blocks tile the heap, and the free list leads through some of them; Malloc.Held
--   and Malloc.Reach have the histories of calls of a program.
-- - Memory (libc/string/memcpy.c, memset.c, memcmp.c): loops over a memory of bytes, on the rounds
--   left.
-- - Network (kernel/network). ByteOrder and Mac are network_io.c and the address functions of
--   ethernet.c; Routing is the ARP table of routing.c; Ethernet is `ethernet_send`, which uses Memory;
--   Arp is arp.c and pdu_handler.c, which use Routing. Whether the processor is big-endian, the card's
--   address, and the readings of the clock are arguments. The address of a new frame is an argument of
--   `ethernet_send`: the code does not test what `malloc` gave it.
--   Queue is the receive queue of network_task.c; the warning of a full queue is a definition beside
--   `insert_packet`. Ipv4 is `ipv4_send` of ipv4.c: its wait for an ARP reply recurs on fuel, one round
--   for each look-up, so that as many rounds as the clock needs to pass the time-out are enough.
-- - Clock (kernel/time.c): the millisecond counter, its units and its text.
-- - Syscall (kernel/syscall_handler.c, kernel/syscall.c): the dispatch of system calls, on the state of
--   Scheduler, and in Syscall.Calls the calls of a task.
-- - Boot (kernel/main.c): `kernel_main` up to the first task, which puts together Pci, Network.E1000,
--   Scheduler, Interrupt and the timers, and in Boot.Tasks the tasks. Demo (kernel/demo) has the
--   demonstrations; a wait in a loop has as many rounds as it counts.
-- - Pci (kernel/pci/pci.c): the enumeration of the PCI devices and their look-up, for any contents of
--   the configuration space. Pci.Setup has the programs that set up the bus and `pci_init`.
-- - Logger (kernel/logger): a line of the log, on the characters of Stdio and the time of Clock.
-- - Device (kernel/mmio.c): a program that accesses registers maps a history of accesses to a longer
--   one; what a read gives is an argument that knows the history. PciMemory (kernel/pci/pci_mmio.c),
--   Gpio and Drivers (kernel/drivers) are such programs. PciMemory.Ram is the hardware that is a
--   memory; Gpio.Guarded has the lock of the registers that select the functions of the pins;
--   PinInfo is the table of pininfo.c. What stands behind that table in memory is an argument of the
--   operations on pins. The loops of `spi_update` get the number of reads they may take, and `none` is
--   the result when that was not enough: the hardware alone decides how many are.
-- - Network.E1000 (kernel/network/e1000.c) is the driver of the network card, a program of register
--   accesses too. Its receive loop gets a number of rounds, and the clock and
--   the path of network_task.c for the warning of a full queue; Network.E1000.Ring says which are enough.
--   Network.E1000.Init is `e1000_init`, which uses Pci, Malloc and Logger.
-- - Interrupt (kernel/interrupt.c, kernel/interrupt_handler.S): the vector table and the interrupt
--   controllers. Interrupt.Context is what `irq_handler` does with the registers of the tasks, with the
--   histories of tasks that run, are interrupted and go on in Interrupt.Context.History; Interrupt.Handle is
--   the whole handler, on the states of Scheduler, Clock and Network.E1000. Clock.Registers and
--   Drivers.Timer are the timers.
-- - Stdio (libc/stdio): `vprintf` with its conversions, on the list of characters sent to the serial
--   port. The loop that stores a number's digits has 64 rounds, as many as a word has bits; Stdio.Digits
--   shows that they are enough.
-- - Prelude: Boolean tests, lists indexed by numbers, the contents of a circular buffer
--   (Prelude.Circular), and lemmas on bitwise operations (Prelude.Bits).
--
-- Interrupts: the timer interrupt that calls `schedule` is a step between calls. The code does not
-- disable interrupts inside `ring_buffer_insert`, and the model has no step inside a call.
--
-- Histories of tasks start behind the first load of a task: an interrupt between the moment when
-- `start_scheduler` allows them and that load is not one of their steps.
--
-- Not modelled: debug output, the boot assembly, the set-up of stacks and processor modes, and the trap
-- of a system call, which runs the dispatcher in the supervisor mode.
-- On the board EV3 `putchar` waits for the serial port, which is left out.
pub mod Boot
pub mod Clock
pub mod Demo
pub mod Device
pub mod Drivers
pub mod Gpio
pub mod Interrupt
pub mod Logger
pub mod Malloc
pub mod Memory
pub mod Network
pub mod Pci
pub mod PciMemory
pub mod PinInfo
pub mod Prelude
pub mod Scheduler
pub mod Stdio
pub mod Syscall
