-- ===== src/Boot/Launch.antt =====
-- What `kernel_main` of kernel/main.c leaves.
use ninjastorms.Prelude.{
  ℕ, zero, suc, ◌^◌, ◌<◌, ◌≤◌, ◌≡◌, refl, sym, ap, ◌∙◌, subst, Bool, true, false, ◌&&◌, ltb, Option,
  none, some, List, [], ◌∷◌, ◌==◌, get_or, drop, length, arith, ◌⊎◌, inl, inr,
}
use ninjastorms.Device.{got, put, printed, History, Hardware, Io, pure, ◌>>◌, after_some, last_put}
use ninjastorms.Malloc.{Heap}
use ninjastorms.Malloc.Valid.{IsValid}
use ninjastorms.Scheduler.{
  Task, Scheduler, Action, versatilepb, zero_task, boot, add_task, is_privileged, timer_load_value,
}
use ninjastorms.Scheduler.Reach.{boot-IsValid}
use ninjastorms.Scheduler.Boot.{one_task}
use ninjastorms.Drivers.Timer.{timer_start, timer_stop}
use ninjastorms.Clock.Registers.{time_init, clock_stop, clock_start}
use ninjastorms.Interrupt.{
  setup_ivt, init_interrupt_handling, init_interrupt_controller, init_timer_interrupt,
  init_pci_interrupt,
}
use ninjastorms.Interrupt.Vectors.{handler, interrupt_request, software_interrupt}
use ninjastorms.Interrupt.Context.{load_current_task_state}
use ninjastorms.Interrupt.Context.Saved.{IsContext, context, entered, load_lem}
use ninjastorms.Interrupt.Context.History.{Runs, launched}
use ninjastorms.Interrupt.Context.Two.{boot-IsContext}
use ninjastorms.Pci.{Devices, pci_devices}
use ninjastorms.Pci.Setup.{pci_init}
use ninjastorms.Network.E1000.{E1000}
use ninjastorms.Network.E1000.Ring.{Placed, Ring, tail}
use ninjastorms.Network.E1000.Init.{e1000_init}
use ninjastorms.Network.E1000.Init.Ready.{Initialised, e1000_init-Initialised}
use ninjastorms.Boot.{Build, Machine, perform_all, loaded, launch, kernel_main, greet, start_all}

-- Whether the last `n` accesses wrote only below the memory and the ports of the bus.
is_low : ℕ → History → Bool
is_low zero h = true
is_low (suc n) [] = true
is_low (suc n) (got w a v ∷ h) = is_low n h
is_low (suc n) (printed o ∷ h) = is_low n h
is_low (suc n) (put w a v ∷ h) = ltb a 0x43000000 && is_low n h

is_low-last_put :
    (n a : ℕ) (h : History)
    → 0x43000000 ≤ a
    → is_low n h ≡ true
    → last_put a h ≡ last_put a (drop n h)
unfolding is_low
is_low-last_put zero a h l low = refl
is_low-last_put (suc n) a [] l low = refl
is_low-last_put (suc n) a (got w b v ∷ h) l low = is_low-last_put n a h l low
is_low-last_put (suc n) a (printed o ∷ h) l low = is_low-last_put n a h l low
is_low-last_put (suc n) a (put w b v ∷ h) l low =
    let (x, y) = both (ltb b 0x43000000) (is_low n h) low in
    let d : (b == a) ≡ false = ground arith in rw d (is_low-last_put n a h l y)
  where
    both : (x y : Bool) → (x && y) ≡ true → (x ≡ true) × (y ≡ true)
    both x y e = (ground arith, ground arith)

-- The card of a machine: there is no driver, or it has no card, or its ring of receive descriptors holds.
abbrev pub CardReady : Option E1000 → History → Type 0
CardReady none h = Unit
CardReady (some e) h = (e.pci_device ≡ none) ⊎ (Placed e × Ring e h)

-- A machine whose first task starts.
abbrev pub Booted : Build → Option (Task × Machine) → History → Type 0
Booted build none h = ¬ Unit
Booted build (some (cpu, m)) h =
    Runs versatilepb (record { scheduler = m.scheduler; cpu = cpu; stopped = context m.scheduler })
    × (m.scheduler.current_task ≡ some 0)
    × (m.scheduler.task_count ≡ 1)
    × (cpu.pc ≡ build.network_task_recv)
    × (handler versatilepb software_interrupt h ≡ some build.syscall_handler)
    × (handler versatilepb interrupt_request h ≡ some build.irq_handler)
    × CardReady m.card h

-- `launch` with what `start_scheduler` gives.
abbrev launch_with : Build → Machine → Scheduler × List Action → Io (Option (Task × Machine))
launch_with build m q = do
  time_init
  perform_all build q.1
  pure (loaded (record m { scheduler = q.0 }) (load_current_task_state q.0))

abbrev calls : Scheduler → List Action
calls t =
    Action.timer_stop
    ∷ Action.init_interrupt_handling
    ∷ Action.timer_start (timer_load_value versatilepb)
    ∷ Action.load_current_task_state t.current_task
    ∷ []

module _ (build : Build) (hw : Hardware) (h : History) where
  -- The history behind the start of the clock and of the scheduler.
  abbrev started : Scheduler → History
  started t = (perform_all build (calls t) hw (time_init hw h).1).1

  started-is_low : (t : Scheduler) → is_low 61 (started t) ≡ true
  unfolding is_low time_init clock_stop clock_start timer_stop timer_start init_interrupt_handling
      setup_ivt init_interrupt_controller init_timer_interrupt init_pci_interrupt
  started-is_low t = refl

  drop-started : (t : Scheduler) → drop 61 (started t) ≡ h
  unfolding time_init clock_stop clock_start timer_stop timer_start init_interrupt_handling
      setup_ivt init_interrupt_controller init_timer_interrupt init_pci_interrupt
  drop-started t = refl

  started-vectors :
      (t : Scheduler)
      → (handler versatilepb software_interrupt (started t) ≡ some build.syscall_handler)
        × (handler versatilepb interrupt_request (started t) ≡ some build.irq_handler)
  unfolding time_init clock_stop clock_start timer_stop timer_start init_interrupt_handling
      setup_ivt init_interrupt_controller init_timer_interrupt init_pci_interrupt
  started-vectors t = (refl, refl)

  started-Ring : (t : Scheduler) (e : E1000) → Placed e → Ring e h → Ring e (started t)
  started-Ring t e (b, o, m, l) (cur, ring) =
      let same =
        is_low-last_put 61 (tail e) (started t) (omega arith) (started-is_low t)
        ∙ ap (last_put (tail e)) (drop-started t) in
      (cur, rw same ring)

  card_lem :
      (fuel : ℕ) (devices : Devices) (heap heap' : Heap) (card : Option E1000) (t : Scheduler)
      → Initialised fuel devices heap (some (card, heap')) h
      → CardReady card (started t)
  card_lem fuel devices heap heap' none t i = tt
  card_lem fuel devices heap heap' (some e) t (inl (no_card, e'), enough) = inl e'
  card_lem fuel devices heap heap' (some e) t (inr (i, found, (dev, p, cur, last, ring)), enough) =
      inr (p, started-Ring t e p ring)

  launch_lem :
      (fuel cpsr : ℕ) (devices : Devices) (heap heap' : Heap) (card : Option E1000)
      → is_privileged cpsr ≡ true
      → build.network_task_recv < 2 ^ 32
      → Initialised fuel devices heap (some (card, heap')) h
      → let m : Machine = record {
        devices = devices;
        card = card;
        heap = heap';
        scheduler = (add_task versatilepb cpsr build.network_task_recv boot).1;
      } in
        Booted build (launch build m hw h).0 (launch build m hw h).1
  unfolding launch
  launch_lem fuel cpsr devices heap heap' card p entry init =
      let s = (add_task versatilepb cpsr build.network_task_recv boot).1 in
      let m : Machine = record { devices = devices; card = card; heap = heap'; scheduler = s } in
      let (t, start, on, current, count, tasks, reach, pc) =
        one_task versatilepb cpsr build.network_task_recv p in
      let load = load_lem t 0 current in
      let (_, _, _, contexts, _) =
        entered versatilepb cpsr build.network_task_recv boot boot-IsValid entry boot-IsContext in
      let at_tasks : (i : ℕ) → IsContext (context t i) =
        λ i. subst (λ ts. IsContext (get_or ts i zero_task)) (sym tasks) (contexts i) in
      let (swi, irq) = started-vectors t in
      let booted : Booted build (loaded (record m { scheduler = t }) (some (context t 0)))
          (started t) =
        (
          launched t (context t 0) reach on load at_tasks,
          current,
          count,
          ap (λ ts. (get_or ts 0 zero_task).pc) tasks ∙ pc,
          swi,
          irq,
          card_lem fuel devices heap heap' card t init,
        ) in
      let at_start : Booted build (launch_with build m (t, calls t) hw h).0
          (launch_with build m (t, calls t) hw h).1 =
        subst (λ r. Booted build (loaded (record m { scheduler = t }) r) (started t)) (sym load)
          booted in
      subst
        (λ (q : Scheduler × List Action).
          Booted build (launch_with build m q hw h).0 (launch_with build m q hw h).1)
        (sym start) at_start

behind_init :
    (build : Build) (hw : Hardware) (fuel cpsr : ℕ) (devices : Devices) (heap : Heap)
    (r : Option (Option E1000 × Heap)) (h : History)
    → is_privileged cpsr ≡ true
    → build.network_task_recv < 2 ^ 32
    → Initialised fuel devices heap r h
    → let (r', h') = after_some (start_all build cpsr devices) r hw h in Booted build r' h'
behind_init build hw fuel cpsr devices heap none h p entry init = absurd (init tt)
behind_init build hw fuel cpsr devices heap (some (card, heap')) h p entry init =
    launch_lem build hw h fuel cpsr devices heap heap' card p entry init

-- `kernel_main`, in a privileged mode and on a valid heap, with more fuel than there are free blocks, gets to its first
-- task, whatever the hardware says: the machine is at the beginning of a history of tasks that run, are interrupted and
-- go on; its only task is the running one, and starts at the entry of `network_task_recv`; software interrupts and
-- interrupt requests lead to their handlers; and if there is a driver with a network card, the ring of receive
-- descriptors holds.
pub kernel_main-Booted :
    (fuel : ℕ) (build : Build) (cpsr : ℕ) (blank : E1000) (heap : Heap) (bs fs : List ℕ)
    (hw : Hardware) (h : History)
    → is_privileged cpsr ≡ true
    → build.network_task_recv < 2 ^ 32
    → IsValid heap bs fs
    → length fs < fuel
    → Booted build
        (kernel_main fuel build cpsr blank heap hw h).0
        (kernel_main fuel build cpsr blank heap hw h).1
unfolding kernel_main
kernel_main-Booted fuel build cpsr blank heap bs fs hw h p entry v l =
    let h₁ = (greet hw h).1 in
    let (devices, h₂) = pci_init 0 build.pci_file pci_devices hw h₁ in
    let (r, h₃) = e1000_init fuel 0 build.e1000_file devices blank heap hw h₂ in
    behind_init build hw fuel cpsr devices heap r h₃ p entry
      (e1000_init-Initialised fuel 0 build.e1000_file devices blank heap bs fs hw h₂ v l)
