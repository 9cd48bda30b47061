-- ===== src/Gpio/Guarded.antt =====
-- The lock of the registers that select the functions of the pins (kernel/drivers/gpio.c).
use ninjastorms.Prelude.{
  ℕ, ◌+◌, ◌*◌, ◌<◌, ◌≤◌, ◌≡◌, refl, Bool, true, false, ◌||◌, List, [], ◌∷◌, if◌then◌else◌, ◌==◌,
  leb, bit_and, bit_or, arith,
}
use ninjastorms.Device.{
  last_put, got, put, printed, History, Hardware, pure, read32, write32, set_bits, clear_bits,
  complement, print,
}
use ninjastorms.Stdio.{Arg, int}
use ninjastorms.PinInfo.{pininfo_size}
use ninjastorms.Gpio.{
  Beyond, syscfg_kick, syscfg_pinmux, syscfg_unlock, syscfg_lock, kick0_unlock, kick1_unlock,
  gpio_bank, gpio_mask, gpio_dir, gpio_clr, pin_info, no_init_information, gpio_init_pin,
  gpio_init_outpin, gpio_init_inpin, gpio_set, gpio_get,
}
use ninjastorms.Gpio.Table.{muxreg-lt}

abbrev pub Unlocked : History → Type 0
Unlocked h = last_put (syscfg_kick 0) h ≡ kick0_unlock × last_put (syscfg_kick 1) h ≡ kick1_unlock

abbrev pub Locked : History → Type 0
Locked h = last_put (syscfg_kick 0) h ≡ 0 × last_put (syscfg_kick 1) h ≡ 0

-- The registers that select the functions of the pins, 20 of them.
abbrev pub IsPinmux : ℕ → Type 0
IsPinmux a = syscfg_pinmux 0 ≤ a × a < syscfg_pinmux 20

-- No such register was written while it was locked.
abbrev pub Guarded : History → Type 0
Guarded [] = Unit
Guarded (got w a v ∷ h) = Guarded h
Guarded (printed o ∷ h) = Guarded h
Guarded (put w a v ∷ h) = (IsPinmux a → Unlocked h) × Guarded h

-- The registers are open, or locked again.
pub Open : History → Type 0
Open h = Guarded h × Unlocked h

pub Closed : History → Type 0
Closed h = Guarded h × Locked h

-- In the order of the addresses, the other registers of the drivers stand behind.
abbrev pub Behind : ℕ → Type 0
Behind a = syscfg_pinmux 20 ≤ a

pub Closed-parts : (h : History) → Closed h → Guarded h × Locked h
unfolding Closed
Closed-parts h c = c

pub Closed-reset : Closed []
unfolding Closed
Closed-reset = (tt, (refl, refl))

no_kick : (a : ℕ) → syscfg_kick 1 < a → (a == syscfg_kick 0) ≡ false × (a == syscfg_kick 1) ≡ false
no_kick a l = (ground arith, ground arith)

module _ (hw : Hardware) (h : History) where
  Closed-Guarded : Closed h → Guarded h
  unfolding Closed
  Closed-Guarded (g, l) = g

  Open-Guarded : Open h → Guarded h
  unfolding Open
  Open-Guarded (g, u) = g

  syscfg_unlock-Open : Guarded h → Open (syscfg_unlock hw h).1
  unfolding Open
  syscfg_unlock-Open g =
      ((λ p. absurd (omega (arith, p)), (λ p. absurd (omega (arith, p)), g)), (refl, refl))

  syscfg_lock-Closed : Open h → Closed (syscfg_lock hw h).1
  unfolding Open Closed
  syscfg_lock-Closed (g, u) =
      ((λ p. absurd (omega (arith, p)), (λ p. absurd (omega (arith, p)), g)), (refl, refl))

  relock-Closed : Closed h → Closed (syscfg_lock hw h).1
  unfolding Closed
  relock-Closed (g, u) =
      ((λ p. absurd (omega (arith, p)), (λ p. absurd (omega (arith, p)), g)), (refl, refl))

  write32-Open : (a v : ℕ) → syscfg_kick 1 < a → Open h → Open (write32 a v hw h).1
  unfolding Open
  write32-Open a v l (g, (k0, k1)) =
      let (n0, n1) = no_kick a l in ((λ p. (k0, k1), g), (rw n0 k0, rw n1 k1))

  pub write32-Closed : (a v : ℕ) → Behind a → Closed h → Closed (write32 a v hw h).1
  unfolding Closed
  write32-Closed a v b (g, (k0, k1)) =
      let (n0, n1) = no_kick a (omega (arith, b)) in
      ((λ p. absurd (omega (arith, p, b)), g), (rw n0 k0, rw n1 k1))

  read32-Open : (a : ℕ) → Open h → Open (read32 a hw h).1
  unfolding Open
  read32-Open a o = o

  pub read32-Closed : (a : ℕ) → Closed h → Closed (read32 a hw h).1
  unfolding Closed
  read32-Closed a o = o

  message-Open :
      (b : Bool) (format : List ℕ) (args : List Arg)
      → Open h
      → Open ((if b then print format args else pure tt) hw h).1
  unfolding Open
  message-Open true format args o = o
  message-Open false format args o = o

module _ (hw : Hardware) (h : History) where
  set_bits-Open : (a v : ℕ) → syscfg_kick 1 < a → Open h → Open (set_bits a v hw h).1
  set_bits-Open a v l o = write32-Open hw _ a (bit_or (read32 a hw h).0 v) l (read32-Open hw h a o)

  clear_bits-Open : (a v : ℕ) → syscfg_kick 1 < a → Open h → Open (clear_bits a v hw h).1
  clear_bits-Open a v l o =
      write32-Open hw _ a (bit_and (read32 a hw h).0 v) l (read32-Open hw h a o)

  pub set_bits-Closed : (a v : ℕ) → Behind a → Closed h → Closed (set_bits a v hw h).1
  set_bits-Closed a v l o =
      write32-Closed hw _ a (bit_or (read32 a hw h).0 v) l (read32-Closed hw h a o)

  pub clear_bits-Closed : (a v : ℕ) → Behind a → Closed h → Closed (clear_bits a v hw h).1
  clear_bits-Closed a v l o =
      write32-Closed hw _ a (bit_and (read32 a hw h).0 v) l (read32-Closed hw h a o)

bank-Behind : (pin : ℕ) → pin < pininfo_size → Behind (gpio_bank pin) × gpio_bank pin < 0x01E26100
bank-Behind pin h = (omega (arith, h), omega (arith, h))

module _ (beyond : Beyond) (pin : ℕ) (known : pin < pininfo_size) (hw : Hardware)
    (h : History) where
  init_pin-Closed : Guarded h → Closed (gpio_init_pin beyond pin hw h).1
  unfolding gpio_init_pin
  init_pin-Closed g =
      let p = pin_info beyond pin in
      let r : p.muxreg < 20 = muxreg-lt beyond pin known in
      let a : syscfg_kick 1 < syscfg_pinmux p.muxreg = omega (arith, r) in
      syscfg_lock-Closed hw _ (
        set_bits-Open hw _ (syscfg_pinmux p.muxreg) p.muxreg_mode a (
          clear_bits-Open hw _ (syscfg_pinmux p.muxreg) p.muxreg_mask a (
            message-Open hw _ (leb pininfo_size pin || p.muxreg_mask == 0) no_init_information
              (int pin ∷ []) (syscfg_unlock-Open hw h g))))

module _ (beyond : Beyond) (pin : ℕ) (known : pin < pininfo_size) (hw : Hardware)
    (h : History) where
  unlocked_init_pin : Closed h → Closed (gpio_init_pin beyond pin hw (syscfg_unlock hw h).1).1
  unlocked_init_pin c =
      init_pin-Closed beyond pin known hw _
        (Open-Guarded hw _ (syscfg_unlock-Open hw h (Closed-Guarded hw h c)))

  pub gpio_init_pin-Closed : Closed h → Closed (gpio_init_pin beyond pin hw h).1
  gpio_init_pin-Closed c = init_pin-Closed beyond pin known hw h (Closed-Guarded hw h c)

  pub gpio_init_outpin-Closed : Closed h → Closed (gpio_init_outpin beyond pin hw h).1
  unfolding gpio_init_outpin
  gpio_init_outpin-Closed c = relock-Closed hw _ (
      clear_bits-Closed hw _ (gpio_dir pin) (complement (gpio_mask pin)) (omega (arith, known)) (
        write32-Closed hw _ (gpio_clr pin) (gpio_mask pin) (omega (arith, known))
          (unlocked_init_pin c)))

  pub gpio_init_inpin-Closed : Closed h → Closed (gpio_init_inpin beyond pin hw h).1
  unfolding gpio_init_inpin
  gpio_init_inpin-Closed c = relock-Closed hw _ (
      set_bits-Closed hw _ (gpio_dir pin) (gpio_mask pin) (omega (arith, known))
        (unlocked_init_pin c))

module _ (beyond : Beyond) (pin : ℕ) (known : pin < pininfo_size) (hw : Hardware)
    (h : History) where
  pub gpio_set-Closed : (value : ℕ) → Closed h → Closed (gpio_set beyond pin value hw h).1
  unfolding gpio_set
  gpio_set-Closed value c =
      write32-Closed hw _ (gpio_bank pin + 8 + (if value == 0 then 1 else 0) * 4) (gpio_mask pin)
        (level_address (if value == 0 then 1 else 0))
        (gpio_init_outpin-Closed beyond pin known hw h c)
    where
      level_address : (n : ℕ) → Behind (gpio_bank pin + 8 + n * 4)
      level_address n = omega (arith, known)

  pub gpio_get-Closed : Closed h → Closed (gpio_get beyond pin hw h).1
  unfolding gpio_get
  gpio_get-Closed c =
      read32-Closed hw _ (gpio_bank pin + 0x10) (gpio_init_inpin-Closed beyond pin known hw h c)
