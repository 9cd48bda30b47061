-- ===== src/Interrupt/Handle/Whole.antt =====
-- The whole handler of interrupts, in a history of tasks.
use ninjastorms.Prelude.{
  ℕ, suc, ◌+◌, ◌%◌, ◌^◌, ◌<◌, ◌≤◌, ◌≡◌, sym, ap, ◌∙◌, List, Option, none, some, update,
}
use ninjastorms.Device.{History, Hardware, pure, after_some}
use ninjastorms.Scheduler.{Task, versatilepb, max_task_number}
use ninjastorms.Network.E1000.Ring.{Placed, Ring, Serves, count, tail}
use ninjastorms.Interrupt.{timer1_intbit}
use ninjastorms.Interrupt.Context.{pushed, save_current_task_state, load_current_task_state, switch}
use ninjastorms.Interrupt.Context.Saved.{saved, save_lem, change_task_lem, on_return-loaded}
use ninjastorms.Interrupt.Context.History.{System, Runs}
use ninjastorms.Interrupt.Context.Resume.{Runs-IsContext, tasks_resume}
use ninjastorms.Interrupt.Handle.{
  Kernel, pic_irq_status, is_set, handle_interrupt, load, irq_handler,
}
use ninjastorms.Interrupt.Handle.Causes.{Handled, handle_interrupt-Handled}

-- What the handler gives back for the task `j`: its registers, and a kernel in which it runs.
abbrev pub Resumed : ℕ → Task → Kernel → Option (Task × Kernel) → History → Type 0
Resumed status cpu k r h = (k' : Kernel) × (r ≡ some (cpu, k')) × Handled status k (some k') h

loaded_lem :
    (status : ℕ) (cpu : Task) (k : Kernel) (r : Option Kernel) (hw : Hardware) (h : History)
    → Handled status k r h
    → load_current_task_state (switch (is_set status timer1_intbit) k.scheduler) ≡ some cpu
    → let (r', h') =
        after_some
          (λ (k' : Kernel). pure (load k' (load_current_task_state k'.scheduler)))
          r
          hw
          h in
      Resumed status cpu k r' h'
loaded_lem status cpu k none hw h d e = absurd (d tt)
loaded_lem status cpu k (some k') hw h d e =
    let same = ap load_current_task_state d.0 ∙ e in (k', ap (load k') same, d)

-- On the board VersatilePB, in every history of its tasks in which the task table has not been filled, an interrupt that
-- stops the running task `i` is handled to the end: a task `j` goes on, with exactly the registers it had when it was
-- stopped last (or those of its entry), where `i` keeps the ones it has now; the next task of the scheduler runs if
-- its timer is a cause, and `i` itself otherwise; the clock counts up if its timer is a cause; and the ring of receive
-- descriptors of the network card is kept. The card marks none of its 32 receive descriptors as filled once the tail register was
-- written `n` times, the rounds are one more than the writes that are left, and no length in a descriptor is above the
-- size of a packet; the driver's struct lies below the windows of the bus, and the card's registers aligned in one of
-- them. The hardware is arbitrary otherwise.
pub irq_handler-resumes :
    (hw : Hardware) (file : List ℕ) (n rounds : ℕ) (s : System) (k : Kernel) (h : History) (i : ℕ)
    → Runs versatilepb s
    → s.scheduler.task_count < max_task_number
    → s.scheduler.current_task ≡ some i
    → k.scheduler ≡ s.scheduler
    → Placed k.receiving.card
    → Serves hw k.receiving.card n
    → n ≤ count (tail k.receiving.card) h + rounds
    → Ring k.receiving.card h
    → let status = hw h 4 pic_irq_status % 2 ^ 32 in
      let next = saved i s.cpu s.scheduler in
      let stopped = update s.stopped i s.cpu in
      (j : ℕ) × ((switch (is_set status timer1_intbit) next).current_task ≡ some j)
      × Resumed status
          (stopped j)
          (record k { scheduler = next })
          (irq_handler file (suc rounds) s.cpu k hw h).0
          (irq_handler file (suc rounds) s.cpu k hw h).1
unfolding irq_handler
irq_handler-resumes hw file n rounds s k h i so_far free e same p v l r =
    let status = hw h 4 pic_irq_status % 2 ^ 32 in
    let timer = is_set status timer1_intbit in
    let next = saved i s.cpu s.scheduler in
    let stopped = update s.stopped i s.cpu in
    let c = Runs-IsContext versatilepb s so_far free in
    let (j, run, ej, _, _) = tasks_resume versatilepb s timer i so_far free e in
    let save =
      ap (save_current_task_state (pushed s.cpu) s.cpu) same ∙ save_lem s.cpu s.scheduler i c e in
    let t = switch timer next in
    let loads =
      on_return-loaded t (load_current_task_state t) (stopped j)
        (sym (change_task_lem timer s.cpu s.scheduler i c e) ∙ run) in
    let k₁ : Kernel = record k { scheduler = next } in
    let d = handle_interrupt-Handled hw file n rounds k₁ h p v l r in
    (
      j,
      ej,
      rw save (
          loaded_lem status (stopped j) k₁ (handle_interrupt file (suc rounds) k₁ hw h).0 hw
            (handle_interrupt file (suc rounds) k₁ hw h).1 d loads),
    )
