-- ===== src/Interrupt/Context/Two.antt =====
-- Two tasks on the board VersatilePB: the first runs, and has changed its registers.
use ninjastorms.Prelude.{get_or-replicate, ℕ, refl, sym, subst, ◌∷◌, arith, replicate, get_or}
use ninjastorms.Scheduler.{Task, versatilepb, boot, zero_task}
use ninjastorms.Scheduler.Two.{
  svc, first_added, both_added, started, first_added-Reach, started_lem, started-Reach,
}
use ninjastorms.Scheduler.Reach.{booted, Reach-IsValid}
use ninjastorms.Interrupt.Context.Saved.{IsContext, context, entered, load_lem}
use ninjastorms.Interrupt.Context.History.{System, Runs, launched, continues, Event}

pub boot-IsContext : (i : ℕ) → IsContext (context boot i)
boot-IsContext i = rw (get_or-replicate 16 i zero_task) (refl, omega arith)

first_added-IsContext : (i : ℕ) → IsContext (context first_added i)
first_added-IsContext =
    let (_, _, _, contexts, _) =
      entered versatilepb svc 0x100 boot (Reach-IsValid versatilepb boot booted) (omega arith)
        boot-IsContext in
    contexts

both_added-IsContext : (i : ℕ) → IsContext (context both_added i)
both_added-IsContext =
    let (_, _, _, contexts, _) =
      entered versatilepb svc 0x200 first_added
        (Reach-IsValid versatilepb first_added first_added-Reach) (omega arith)
        first_added-IsContext in
    contexts

started-IsContext : (i : ℕ) → IsContext (context started i)
started-IsContext i =
    subst (λ ts. IsContext (get_or ts i zero_task)) (sym started_lem.0) (both_added-IsContext i)

-- What the first task has made of its registers.
abbrev pub working : Task
working = record {
  reg = 1 ∷ 2 ∷ 3 ∷ replicate 10 7;
  sp = 0x7ff0;
  lr = 0x120;
  pc = 0x140;
  cpsr = 0x60000010;
}

abbrev pub interrupted : System
interrupted = record { scheduler = started; cpu = working; stopped = context started }

pub interrupted-Runs : Runs versatilepb interrupted
interrupted-Runs =
    continues
      (launched started (context started 0) started-Reach started_lem.1
        (load_lem started 0 started_lem.2) started-IsContext)
      (Event.runs _ working (refl, omega arith))
