-- ===== src/Drivers/Adc.antt =====
-- kernel/drivers/adc.c: the converter behind the serial peripheral interface, with the reads that the loops
-- of `spi_update` may take.
use ninjastorms.Prelude.{ℕ, zero, suc, ◌*◌, ◌^◌, Option, some, bit_and, bit_or}
use ninjastorms.Device.{Io, pure, ◌>>◌, ◌>>?◌, write32, clear_bits, complement}
use ninjastorms.Gpio.{Beyond, gpio_pin, gpio_init_pin, gpio_set_register, gpio_dir, gpio_mask}
use ninjastorms.Drivers.Spi.{spi_update}

unfoldable pub adc_get : ℕ → ℕ → Io (Option ℕ)
adc_get rounds channel =
    spi_update rounds (bit_or 0x1840 (bit_and channel 0x000F * 2 ^ 7)) >>? λ value.
    pure (some (bit_and value 0x0FFF))

-- ADCBATEN
abbrev pub battery_pin : ℕ
battery_pin = gpio_pin 0 6

-- `n` calls of `spi_update`.
unfoldable pub updates : ℕ → ℕ → Io (Option Unit)
updates rounds zero = pure (some tt)
updates rounds (suc n) = spi_update rounds 0x400F >>? λ _. updates rounds n

module _ (beyond : Beyond) where
  abbrev pub power_up : Io Unit
  power_up = do
    gpio_init_pin beyond (gpio_pin 6 14)
    gpio_init_pin beyond battery_pin
    write32 (gpio_set_register battery_pin) (gpio_mask battery_pin)
    clear_bits (gpio_dir battery_pin) (complement (gpio_mask battery_pin))

  unfoldable pub adc_init : ℕ → Io (Option Unit)
  adc_init rounds = power_up >> updates rounds 6
