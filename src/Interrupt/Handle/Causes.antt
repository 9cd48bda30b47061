-- ===== src/Interrupt/Handle/Causes.antt =====
-- What each cause of an interrupt request changes.
use ninjastorms.Prelude.{
  ℕ, suc, ◌+◌, ◌%◌, ◌^◌, ◌≤◌, ◌≡◌, refl, sym, ap, ◌∙◌, subst, Bool, true, false, List, Option, none,
  some, ◌∷◌, if◌then◌else◌, ◌==◌, arith,
}
use ninjastorms.Device.{got, History, Hardware, Io, pure, ◌>>=◌, after_some, last_put}
use ninjastorms.Clock.{Clock, irq_handler_clock as count_up}
use ninjastorms.Clock.Registers.{timer3_intclr}
use ninjastorms.Network.E1000.Receive.{Receiving}
use ninjastorms.Network.E1000.Ring.{
  Placed, Ring, Kept, Serves, count, seen, tail, Ring-same, e1000_irq_handler-Kept,
}
use ninjastorms.Interrupt.{timer1_intbit, timer3_intbit}
use ninjastorms.Interrupt.Context.{switch}
use ninjastorms.Interrupt.Handle.{
  Kernel, pic_irq_status, pci3_intbit, timer1_intclr_asm, is_set, irq_handler_timer, handle_clock,
  when, receive, handle_timers, handle_interrupt,
}

-- How often the interrupt of the clock counts.
abbrev pub tick : Bool → Clock → Clock
tick b clock = if b then count_up clock else clock

-- What the causes in the status make of the kernel: the scheduler goes on to the next task when its timer is set, the
-- clock counts up when its timer is, and the rest is up to the card.
abbrev pub Handled : ℕ → Kernel → Option Kernel → History → Type 0
Handled status k none h = ¬ Unit
Handled status k (some k') h =
    (k'.scheduler ≡ switch (is_set status timer1_intbit) k.scheduler)
    × (k'.clock ≡ tick (is_set status timer3_intbit) k.clock)
    × (is_set status pci3_intbit ≡ false → k'.receiving ≡ k.receiving)
    × Placed k'.receiving.card
    × Ring k'.receiving.card h
    × (is_set status timer1_intbit ≡ true → last_put timer1_intclr_asm h ≡ 1)
    × (is_set status timer3_intbit ≡ true → last_put timer3_intclr h ≡ 1)

receiving_or : Receiving → Option Receiving → Receiving
receiving_or d none = d
receiving_or d (some r) = r

same_receiving : (x y : Receiving) → some x ≡ some y → x ≡ y
unfolding receiving_or
same_receiving x y e = ap (receiving_or x) e

-- The same of two bits, with what was written last into the tail register.
abbrev Timed : Bool → Bool → Kernel → History → Kernel → History → Type 0
Timed b₁ b₃ k h k' h' =
    (k'.scheduler ≡ switch b₁ k.scheduler)
    × (k'.clock ≡ tick b₃ k.clock)
    × (k'.receiving ≡ k.receiving)
    × (seen k.receiving.card h' ≡ seen k.receiving.card h)
    × (b₁ ≡ true → last_put timer1_intclr_asm h' ≡ 1)
    × (b₃ ≡ true → last_put timer3_intclr h' ≡ 1)

abbrev by_bits : Bool → Bool → Kernel → Io Kernel
by_bits b₁ b₃ k = do k' ← when b₁ irq_handler_timer k; when b₃ handle_clock k'

module _ (hw : Hardware) where
  by_bits_lem :
      (b₁ b₃ : Bool) (k : Kernel) (h : History)
      → Placed k.receiving.card
      → Timed b₁ b₃ k h (by_bits b₁ b₃ k hw h).0 (by_bits b₁ b₃ k hw h).1
  unfolding irq_handler_timer handle_clock
  by_bits_lem true true k h (b, o, m, t) =
      let d₁ : (timer1_intclr_asm == tail k.receiving.card) ≡ false = ground arith in
      let d₃ : (timer3_intclr == tail k.receiving.card) ≡ false = ground arith in
      (refl, refl, refl, rw (d₁, d₃) refl, (λ e. refl), λ e. refl)
  by_bits_lem true false k h (b, o, m, t) =
      let d₁ : (timer1_intclr_asm == tail k.receiving.card) ≡ false = ground arith in
      (refl, refl, refl, rw d₁ refl, (λ e. refl), λ e. cc)
  by_bits_lem false true k h (b, o, m, t) =
      let d₃ : (timer3_intclr == tail k.receiving.card) ≡ false = ground arith in
      (refl, refl, refl, rw d₃ refl, (λ e. cc), λ e. refl)
  by_bits_lem false false k h p = (refl, refl, refl, refl, (λ e. cc), λ e. cc)

  timers_lem :
      (status : ℕ) (k : Kernel) (h : History)
      → Placed k.receiving.card
      → Timed
          (is_set status timer1_intbit)
          (is_set status timer3_intbit)
          k
          h
          (handle_timers status k hw h).0
          (handle_timers status k hw h).1
  unfolding handle_timers
  timers_lem status k h p =
      by_bits_lem (is_set status timer1_intbit) (is_set status timer3_intbit) k h p

  -- Behind the handler of the card.
  received_lem :
      (status : ℕ) (k : Kernel) (r : Option Receiving) (h : History)
      → Kept r h
      → (is_set status pci3_intbit ≡ false → r ≡ some k.receiving)
      → let (r', h') =
          after_some
            (λ x. handle_timers status (record k { receiving = x }) >>= λ k'. pure (some k'))
            r
            hw
            h in
        Handled status k r' h'
  received_lem status k none h kept same = absurd (kept tt)
  received_lem status k (some r) h (p, ring) same =
      let (s, c, q, e, t₁, t₃) = timers_lem status (record k { receiving = r }) h p in
      let k' = (handle_timers status (record k { receiving = r }) hw h).0 in
      let h' = (handle_timers status (record k { receiving = r }) hw h).1 in
      let kept : Placed k'.receiving.card × Ring k'.receiving.card h' =
        subst (λ (x : Receiving). Placed x.card × Ring x.card h') (sym q)
          (p, Ring-same r.card h h' e ring) in
      (s, c, (λ n. q ∙ same_receiving r k.receiving (same n)), kept.0, kept.1, t₁, t₃)

  receive_lem :
      (file : List ℕ) (n rounds : ℕ) (b : Bool) (k : Kernel) (h : History)
      → Placed k.receiving.card
      → Serves hw k.receiving.card n
      → n ≤ count (tail k.receiving.card) h + rounds
      → Ring k.receiving.card h
      → Kept (receive file (suc rounds) b k hw h).0 (receive file (suc rounds) b k hw h).1
        × (b ≡ false → (receive file (suc rounds) b k hw h).0 ≡ some k.receiving)
  receive_lem file n rounds true k h p v l r =
      (e1000_irq_handler-Kept hw k.clock file n rounds k.receiving h p v l r, λ e. cc)
  receive_lem file n rounds false k h p v l r = ((p, r), λ e. refl)

-- The handler of interrupts ends. The scheduler goes on to the next task exactly when its timer is a cause, and the clock
-- counts up by one exactly when its timer is; each of them is told that its interrupt was handled. The driver of the
-- network card and the receive queue change only when the card is a cause, and its ring of receive descriptors is kept.
-- The card marks none of its 32 receive descriptors as filled once the tail register was written `n` times, the rounds
-- are one more than the writes that are left, and no length in a descriptor is above the size of a packet; the hardware
-- is arbitrary otherwise.
pub handle_interrupt-Handled :
    (hw : Hardware) (file : List ℕ) (n rounds : ℕ) (k : Kernel) (h : History)
    → Placed k.receiving.card
    → Serves hw k.receiving.card n
    → n ≤ count (tail k.receiving.card) h + rounds
    → Ring k.receiving.card h
    → let status = hw h 4 pic_irq_status % 2 ^ 32 in
      Handled status k
        (handle_interrupt file (suc rounds) k hw h).0
        (handle_interrupt file (suc rounds) k hw h).1
unfolding handle_interrupt
handle_interrupt-Handled hw file n rounds k h p v l r =
    let status = hw h 4 pic_irq_status % 2 ^ 32 in
    let h₁ = got 4 pic_irq_status status ∷ h in
    let (kept, same) = receive_lem hw file n rounds (is_set status pci3_intbit) k h₁ p v l r in
    received_lem hw status k (receive file (suc rounds) (is_set status pci3_intbit) k hw h₁).0
      (receive file (suc rounds) (is_set status pci3_intbit) k hw h₁).1 kept same
