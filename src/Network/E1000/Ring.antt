-- ===== src/Network/E1000/Ring.antt =====
-- The ring of receive descriptors of kernel/network/e1000.c: the card may fill the descriptors from the one
-- the driver looks at next up to the one that the tail register names.
use ninjastorms.Prelude.{
  ℕ, zero, suc, ◌+◌, ◌%◌, ◌^◌, ◌<◌, ◌≤◌, ◌≡◌, ◌≢◌, refl, ap, ◌∙◌, Bool, true, false, not, Option,
  none, some, List, Bool-cases, inl, inr, if◌then◌else◌, ◌==◌, bit_and, bit_or, arith, ◌∷◌, [], leb,
}
use ninjastorms.Device.{
  got, put, printed, History, Hardware, Io, pure, ◌>>?◌, read8, read16, read64, last_put,
}
use ninjastorms.PciMemory.Aligned.{pci_write32-aligned, pci_read32-got}
use ninjastorms.Memory.{Memory}
use ninjastorms.Clock.{Clock}
use ninjastorms.Network.Queue.{
  RecvQueue, insert_packet, insert_packet_warning, max_packet_size, max_packet_count,
}
use ninjastorms.Network.E1000.{
  E1000, rx_desc, status_field, addr_field, length_field, e1000_num_rx_desc, reg_rxdesctail,
  reg_imask, reg_ctrl, reg_int_cause, ectrl_slu, write_command, read_command, start_link,
  e1000_is_available,
}
use ninjastorms.Network.E1000.Receive.{
  Receiving, release, inserted, take_packet, receive_loop, receive_packet, e1000_irq_handler, bytes,
  lsc, rxt0,
}

-- The struct of the driver lies below the memory and the ports of the bus, and the card's registers in one of them,
-- aligned and ending before 2^32.
abbrev pub Placed : E1000 → Type 0
Placed e =
    e.base + 0x400 ≤ 0x43000000
    × 0x43000000 ≤ e.mem_base
    × e.mem_base % 4 ≡ 0
    × e.mem_base + 0x20000 ≤ 2 ^ 32

abbrev pub tail : E1000 → ℕ
tail e = (e.mem_base + reg_rxdesctail) % 2 ^ 32

-- How often an address was written.
abbrev pub count : ℕ → History → ℕ
count a [] = 0
count a (got w b v ∷ h) = count a h
count a (printed o ∷ h) = count a h
count a (put w b v ∷ h) = if b == a then count a h + 1 else count a h

-- The tail register names the descriptor before the one that the driver looks at next.
abbrev pub Ring : E1000 → History → Type 0
Ring e h = e.rx_cur < e1000_num_rx_desc × (last_put (tail e) h + 1) % e1000_num_rx_desc ≡ e.rx_cur

-- There is a result, and with it the ring holds.
abbrev pub Kept : Option Receiving → History → Type 0
Kept none h = ¬ Unit
Kept (some s) h = Placed s.card × Ring s.card h

-- What was written last into the tail register, and how often.
abbrev pub seen : E1000 → History → ℕ × ℕ
seen e h = (last_put (tail e) h, count (tail e) h)

pub Ring-same : (e : E1000) (h h' : History) → seen e h' ≡ seen e h → Ring e h → Ring e h'
Ring-same e h h' s (l, r) = (l, rw (ap (λ q. q.0) s) r)

module _ (e : E1000) (p : Placed e) (hw : Hardware) (h : History) where
  pub write_other :
      (a v : ℕ)
      → a % 4 ≡ 0
      → a < 0x20000
      → a ≢ reg_rxdesctail
      → seen e (write_command e a v hw h).1 ≡ seen e h
  unfolding write_command
  write_other a v al l n =
      let (b, o, m, t) = p in
      let d : ((e.mem_base + a) % 2 ^ 32 == tail e) ≡ false = ground arith in
      ap (seen e) (pci_write32-aligned ((e.mem_base + a) % 2 ^ 32) v hw h (omega arith)) ∙ rw d refl

  pub write_tail :
      (v : ℕ) → seen e (write_command e reg_rxdesctail v hw h).1 ≡ (v, count (tail e) h + 1)
  unfolding write_command
  write_tail v =
      let (b, o, m, t) = p in
      let d : (tail e == tail e) ≡ true = ground arith in
      ap (seen e) (pci_write32-aligned (tail e) v hw h (omega arith)) ∙ rw d refl

  pub read_same : (a : ℕ) → seen e (read_command e a hw h).1 ≡ seen e h
  unfolding read_command
  read_same a = ap (seen e) (pci_read32-got ((e.mem_base + a) % 2 ^ 32) hw h)

  below_other : (w a v : ℕ) → a < e.mem_base → seen e (put w a v ∷ h) ≡ seen e h
  below_other w a v l =
      let (b, o, m, t) = p in let d : (a == tail e) ≡ false = ground arith in rw d refl

-- The card puts no length above the size of a packet into a receive descriptor, and once the tail register was
-- written `n` times it marks no further descriptor as filled. Nothing else that is read is restricted.
abbrev pub Serves : Hardware → E1000 → ℕ → Type 0
Serves hw e n =
    ((h : History) (i : ℕ)
      → i < e1000_num_rx_desc
      → hw h 2 (rx_desc e i + length_field) % 2 ^ 16 ≤ max_packet_size)
    × ((h : History) (i : ℕ)
        → i < e1000_num_rx_desc
        → n ≤ count (tail e) h
        → bit_and (hw h 1 (rx_desc e i + status_field) % 2 ^ 8) 0x1 ≡ 0)

either_some : {A : Type 0} (b : Bool) (x y : A) → (z : A) × (if b then some x else some y) ≡ some z
either_some true x y = (x, refl)
either_some false x y = (y, refl)

-- A packet that fits is put into the queue or thrown away.
insert_packet-some :
    (source len : ℕ) (m : Memory) (q : RecvQueue)
    → len ≤ max_packet_size
    → (q' : RecvQueue) × insert_packet source len m q ≡ some q'
unfolding insert_packet
insert_packet-some source len m q l =
    let t : leb len max_packet_size ≡ true = ground arith in
    rw t (either_some ((q.recv_queue_end + 1) % max_packet_count == q.recv_queue_start) q _)

-- The driver looks at the next descriptor.
abbrev next_card : E1000 → E1000
next_card e = record e { rx_cur = (e.rx_cur + 1) % e1000_num_rx_desc }

is_zero : (x : ℕ) → x ≡ 0 → ¬ ((x == 0) ≡ false)
is_zero x e f = ground arith

module _ (hw : Hardware) (clock : Clock) (file : List ℕ) where
  seen-release :
      (e : E1000) (h : History)
      → Placed e
      → e.rx_cur < e1000_num_rx_desc
      → seen e (release e hw h).1 ≡ (e.rx_cur, count (tail e) h + 1)
  seen-release e h p l =
      let a = rx_desc e e.rx_cur + status_field in
      let b = below_other e p hw h 1 a 0 (omega (arith, p, l)) in
      write_tail e p hw (put 1 a 0 ∷ h) e.rx_cur ∙ ap (λ q. (e.rx_cur, q.1 + 1)) b

  branch-Kept :
      (b : Bool) (m n : Io (Option Receiving)) (h : History)
      → (b ≡ true → Kept (m hw h).0 (m hw h).1)
      → (b ≡ false → Kept (n hw h).0 (n hw h).1)
      → Kept ((if b then m else n) hw h).0 ((if b then m else n) hw h).1
  branch-Kept true m n h x y = x refl
  branch-Kept false m n h x y = y refl

  inserted_then :
      (e : E1000) (r : Option RecvQueue) (q : RecvQueue) (k : Receiving → Io (Option Receiving))
      (h : History)
      → r ≡ some q
      → Kept
          (k (record { card = (release e hw h).0; queue = q }) hw (release e hw h).1).0
          (k (record { card = (release e hw h).0; queue = q }) hw (release e hw h).1).1
      → Kept ((inserted e r >>? k) hw h).0 ((inserted e r >>? k) hw h).1
  inserted_then e r q k h eq kept = rw eq kept

  -- A line of the log writes no register.
  seen-warning :
      (e : E1000) (q : RecvQueue) (h : History)
      → seen e (insert_packet_warning clock file q hw h).1 ≡ seen e h
  seen-warning e q h =
      elim (Bool-cases ((q.recv_queue_end + 1) % max_packet_count == q.recv_queue_start)) [
        | inl full ↦ rw full refl
        | inr room ↦ rw room refl
      ]

  -- One packet: the driver goes on with the next descriptor.
  take_packet_then :
      (s : Receiving) (k : Receiving → Io (Option Receiving)) (h : History)
      → Placed s.card
      → s.card.rx_cur < e1000_num_rx_desc
      → ((h : History) (i : ℕ)
          → i < e1000_num_rx_desc
          → hw h 2 (rx_desc s.card i + length_field) % 2 ^ 16 ≤ max_packet_size)
      → ((q : RecvQueue) (h' : History)
          → seen s.card h' ≡ (s.card.rx_cur, count (tail s.card) h + 1)
          → Kept
              (k (record { card = next_card s.card; queue = q }) hw h').0
              (k (record { card = next_card s.card; queue = q }) hw h').1)
      → Kept ((take_packet clock file s >>? k) hw h).0 ((take_packet clock file s >>? k) hw h).1
  take_packet_then s k h p l fits go =
      let d = rx_desc s.card s.card.rx_cur in
      let h₂ = (read64 (d + addr_field) hw h).1 in
      let h₃ = (read16 (d + length_field) hw h₂).1 in
      let buf = (read64 (d + addr_field) hw h).0 % 2 ^ 32 in
      let len = (read16 (d + length_field) hw h₂).0 in
      let (q, eq) = insert_packet-some buf len (bytes hw h₃).0 s.queue (fits h₂ s.card.rx_cur l) in
      let h₄ = (insert_packet_warning clock file s.queue hw h₃).1 in
      inserted_then s.card (insert_packet buf len (bytes hw h₃).0 s.queue) q k h₄ eq (
        go q (release s.card hw h₄).1 (
          seen-release s.card h₄ p l
          ∙ ap (λ x. (s.card.rx_cur, x.1 + 1)) (seen-warning s.card s.queue h₃)))

  -- The loop with the number of further writes that the card waits for.
  receive_loop-Kept :
      (n k : ℕ) (s : Receiving) (h : History)
      → Placed s.card
      → Serves hw s.card n
      → n ≤ count (tail s.card) h + k
      → Ring s.card h
      → Kept (receive_loop clock file (suc k) s hw h).0 (receive_loop clock file (suc k) s hw h).1
  unfolding receive_loop
  receive_loop-Kept n zero s h p (fits, quiet) l r =
      let a = rx_desc s.card s.card.rx_cur + status_field in
      let clear : bit_and (read8 a hw h).0 0x1 ≡ 0 = quiet h s.card.rx_cur r.0 (omega (arith, l)) in
      branch-Kept (bit_and (read8 a hw h).0 0x1 == 0) (pure (some s))
        (take_packet clock file s >>? receive_loop clock file zero) (read8 a hw h).1 (λ e. (p, r))
        (λ e. absurd (is_zero (bit_and (read8 a hw h).0 0x1) clear e))
  receive_loop-Kept n (suc k) s h p (fits, quiet) l r =
      let a = rx_desc s.card s.card.rx_cur + status_field in
      let h₁ = (read8 a hw h).1 in
      branch-Kept (bit_and (read8 a hw h).0 0x1 == 0) (pure (some s))
        (take_packet clock file s >>? receive_loop clock file (suc k)) h₁ (λ e. (p, r))
        (λ e. take_packet_then s (receive_loop clock file (suc k)) h₁ p r.0 fits λ q h' after.
          receive_loop-Kept n k (record { card = next_card s.card; queue = q }) h' p (fits, quiet)
            (omega (arith, l, ap (λ x. x.1) after))
            (omega arith, ap (λ x. (x.0 + 1) % e1000_num_rx_desc) after))

  receive_packet-Kept :
      (n k : ℕ) (s : Receiving) (h : History)
      → Placed s.card
      → Serves hw s.card n
      → n ≤ count (tail s.card) h + k
      → Ring s.card h
      → Kept
          (receive_packet clock file (suc k) s hw h).0
          (receive_packet clock file (suc k) s hw h).1
  unfolding receive_packet
  receive_packet-Kept n k s h p v l r =
      branch-Kept (not (e1000_is_available s.card)) (pure (some s))
        (receive_loop clock file (suc k) s) h (λ e. (p, r)) (λ e. receive_loop-Kept n k s h p v l r)

  pub seen-start_link :
      (e : E1000) (h : History) → Placed e → seen e (start_link e hw h).1 ≡ seen e h
  unfolding start_link
  seen-start_link e h p =
      write_other e p hw _ reg_ctrl (bit_or (read_command e reg_ctrl hw h).0 ectrl_slu)
        (omega arith) (omega arith) (omega arith)
      ∙ read_same e p hw h reg_ctrl

  -- Whether the link is started or not.
  link_seen :
      (b : Bool) (e : E1000) (h : History)
      → Placed e
      → seen e ((if b then pure tt else start_link e) hw h).1 ≡ seen e h
  link_seen true e h p = refl
  link_seen false e h p = seen-start_link e h p

-- The interrupt handler of the card ends, and keeps the ring: behind it, the tail register again names the
-- descriptor before the one that the driver looks at next. The card marks none of its 32 receive
-- descriptors as filled once the register was written `n` times, the rounds are one more than the writes that are
-- left, and no length in a descriptor is above the size of a packet; the driver's struct lies below the windows of the
-- bus, and the card's registers aligned in one of them. The hardware is arbitrary otherwise, and so is the queue.
pub e1000_irq_handler-Kept :
    (hw : Hardware) (clock : Clock) (file : List ℕ) (n k : ℕ) (s : Receiving) (h : History)
    → Placed s.card
    → Serves hw s.card n
    → n ≤ count (tail s.card) h + k
    → Ring s.card h
    → Kept
        (e1000_irq_handler clock file (suc k) s hw h).0
        (e1000_irq_handler clock file (suc k) s hw h).1
unfolding e1000_irq_handler
e1000_irq_handler-Kept hw clock file n k s h p v l r =
    let h₁ = (write_command s.card reg_imask 0x1 hw h).1 in
    let cause = (read_command s.card reg_int_cause hw h₁).0 in
    let h₂ = (read_command s.card reg_int_cause hw h₁).1 in
    let h₃ = ((if bit_and cause lsc == 0 then pure tt else start_link s.card) hw h₂).1 in
    let same : seen s.card h₃ ≡ seen s.card h =
      link_seen hw clock file (bit_and cause lsc == 0) s.card h₂ p
      ∙ read_same s.card p hw h₁ reg_int_cause
      ∙ write_other s.card p hw h reg_imask 0x1 (omega arith) (omega arith) (omega arith) in
    let r₃ = Ring-same s.card h h₃ same r in
    branch-Kept hw clock file (bit_and cause rxt0 == 0) (pure (some s))
      (receive_packet clock file (suc k) s) h₃ (λ e. (p, r₃))
      (λ e. receive_packet-Kept hw clock file n k s h₃ p v (rw (ap (λ x. x.1) same) l) r₃)
