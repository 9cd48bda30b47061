-- ===== src/Gpio.antt =====
-- kernel/drivers/gpio.c: the general-purpose pins of the board EV3. The table of the pins is read at the
-- number of the pin before that number is compared with the table's size: what stands behind the table is
-- an argument.
pub mod Guarded
pub mod Table
pub mod Fields
mod Tests
use ninjastorms.Prelude.{
  ℕ, zero, suc, ◌+◌, ◌-◌, ◌*◌, ◌/◌, ◌%◌, ◌^◌, Bool, not, ◌||◌, List, [], ◌∷◌, if◌then◌else◌, ◌==◌,
  ltb, leb, get_or, bit_and,
}
use ninjastorms.Device.{
  Io, pure, ◌>>=◌, ◌>>◌, read32, write32, set_bits, clear_bits, complement, print,
}
use ninjastorms.Stdio.{int}
use ninjastorms.PinInfo.{PinInfo, pininfo, pininfo_size}

-- What is read as an entry at or behind the end of the table.
abbrev pub Beyond : Type 0
Beyond = ℕ → PinInfo

abbrev pub syscfg0_base : ℕ
syscfg0_base = 0x01C14000

abbrev pub syscfg1_base : ℕ
syscfg1_base = 0x01E2C000

abbrev pub gpio_base : ℕ
gpio_base = 0x01E26000

abbrev pub gpio_pin : ℕ → ℕ → ℕ
gpio_pin bank offset = bank * 0x10 + offset

abbrev pub syscfg_kick : ℕ → ℕ
syscfg_kick n = syscfg0_base + 0x38 + n * 0x4

abbrev pub syscfg_pinmux : ℕ → ℕ
syscfg_pinmux n = (syscfg0_base + 0x120 + n * 0x4) % 2 ^ 32

abbrev pub kick0_unlock : ℕ
kick0_unlock = 0x83E70B13

abbrev pub kick1_unlock : ℕ
kick1_unlock = 0x95A4F1E0

abbrev pub syscfg_unlock : Io Unit
syscfg_unlock = do write32 (syscfg_kick 0) kick0_unlock; write32 (syscfg_kick 1) kick1_unlock

abbrev pub syscfg_lock : Io Unit
syscfg_lock = do write32 (syscfg_kick 0) 0; write32 (syscfg_kick 1) 0

abbrev pub gpio_bank : ℕ → ℕ
gpio_bank n = (gpio_base + 0x10 + n / 2 ^ 5 * 0x28) % 2 ^ 32

abbrev pub gpio_mask : ℕ → ℕ
gpio_mask n = 2 ^ (n % 2 ^ 5)

abbrev pub gpio_dir : ℕ → ℕ
gpio_dir n = gpio_bank n + 0x00

abbrev pub gpio_set_register : ℕ → ℕ
gpio_set_register n = gpio_bank n + 0x08

abbrev pub gpio_clr : ℕ → ℕ
gpio_clr n = gpio_bank n + 0x0C

-- "gpio: can not initialize pin %x - need init information in pin_info\n"
abbrev pub no_init_information : List ℕ
no_init_information =
    b'g' ∷ b'p' ∷ b'i' ∷ b'o' ∷ b':' ∷ b' ' ∷ b'c' ∷ b'a' ∷ b'n' ∷ b' ' ∷ b'n' ∷ b'o' ∷ b't' ∷ b' '
    ∷ b'i' ∷ b'n' ∷ b'i' ∷ b't' ∷ b'i' ∷ b'a' ∷ b'l' ∷ b'i' ∷ b'z' ∷ b'e' ∷ b' ' ∷ b'p' ∷ b'i'
    ∷ b'n' ∷ b' ' ∷ b'%' ∷ b'x' ∷ b' ' ∷ b'-' ∷ b' ' ∷ b'n' ∷ b'e' ∷ b'e' ∷ b'd' ∷ b' ' ∷ b'i'
    ∷ b'n' ∷ b'i' ∷ b't' ∷ b' ' ∷ b'i' ∷ b'n' ∷ b'f' ∷ b'o' ∷ b'r' ∷ b'm' ∷ b'a' ∷ b't' ∷ b'i'
    ∷ b'o' ∷ b'n' ∷ b' ' ∷ b'i' ∷ b'n' ∷ b' ' ∷ b'p' ∷ b'i' ∷ b'n' ∷ b'_' ∷ b'i' ∷ b'n' ∷ b'f'
    ∷ b'o' ∷ b'\n' ∷ []

module _ (beyond : Beyond) where
  -- `pininfo[pin]`
  abbrev pub pin_info : ℕ → PinInfo
  pin_info pin = get_or pininfo pin (beyond pin)

  -- The message is no return: the code goes on with the entry it read.
  unfoldable pub gpio_init_pin : ℕ → Io Unit
  gpio_init_pin pin = do
    syscfg_unlock
    if leb pininfo_size pin || (pin_info pin).muxreg_mask == 0
        then print no_init_information (int pin ∷ [])
        else pure tt
    clear_bits (syscfg_pinmux (pin_info pin).muxreg) (pin_info pin).muxreg_mask
    set_bits (syscfg_pinmux (pin_info pin).muxreg) (pin_info pin).muxreg_mode
    syscfg_lock

  unfoldable pub gpio_init_outpin : ℕ → Io Unit
  unfolding gpio_init_pin
  gpio_init_outpin pin = do
    syscfg_unlock
    gpio_init_pin pin
    write32 (gpio_clr pin) (gpio_mask pin)
    clear_bits (gpio_dir pin) (complement (gpio_mask pin))
    syscfg_lock

  unfoldable pub gpio_init_inpin : ℕ → Io Unit
  unfolding gpio_init_pin
  gpio_init_inpin pin = do
    syscfg_unlock
    gpio_init_pin pin
    set_bits (gpio_dir pin) (gpio_mask pin)
    syscfg_lock

  unfoldable pub gpio_set : ℕ → ℕ → Io Unit
  unfolding gpio_init_outpin
  gpio_set pin value = do
    gpio_init_outpin pin
    write32 (gpio_bank pin + 8 + (if value == 0 then 1 else 0) * 4) (gpio_mask pin)

  unfoldable pub gpio_get : ℕ → Io ℕ
  unfolding gpio_init_inpin
  gpio_get pin = do
    gpio_init_inpin pin
    value ← read32 (gpio_bank pin + 0x10)
    pure (if bit_and value (gpio_mask pin) == 0 then 0 else 1)
