-- ===== src/Drivers/Spi.antt =====
-- kernel/drivers/spi.c: the serial peripheral interface. Its two loops wait for the hardware; they are given
-- how often they may read the register, and `none` says that this was not enough.
use ninjastorms.Prelude.{
  ℕ, ◌+◌, ◌-◌, ◌*◌, ◌/◌, ◌^◌, true, false, Option, none, some, bit_and, bit_or,
}
use ninjastorms.Device.{Io, pure, ◌>>=◌, ◌>>◌, ◌>>?◌, poll, read32, write32}
use ninjastorms.Gpio.{Beyond, gpio_pin, gpio_init_pin}

abbrev pub adc_clock : ℕ
adc_clock = 1000000 * 16 / 8

abbrev pub cnvspd : ℕ
cnvspd = 150000000 / adc_clock - 1

abbrev pub spi0_offset : ℕ
spi0_offset = gpio_pin 9 0 + 5

abbrev pub spi_base : ℕ
spi_base = 0x01C41000

abbrev pub spigcr0 : ℕ
spigcr0 = spi_base + 0x00

abbrev pub spigcr1 : ℕ
spigcr1 = spi_base + 0x04

abbrev pub spiint0 : ℕ
spiint0 = spi_base + 0x08

abbrev pub spipc0 : ℕ
spipc0 = spi_base + 0x14

abbrev pub spidat0 : ℕ
spidat0 = spi_base + 0x38

abbrev pub spidat1 : ℕ
spidat1 = spi_base + 0x3C

abbrev pub spibuf : ℕ
spibuf = spi_base + 0x40

abbrev pub spidelay : ℕ
spidelay = spi_base + 0x48

abbrev pub spidef : ℕ
spidef = spi_base + 0x4C

abbrev pub spifmt0 : ℕ
spifmt0 = spi_base + 0x50

abbrev pub wait_for : ℕ → ℕ → Io (Option Unit)
wait_for rounds bits =
    poll rounds spibuf bits >>= λ ended. pure (elim ended [ true ↦ some tt | false ↦ none ])

-- `while (SPITxFULL);`, the write, `while (SPIRxEMPTY);` and the read.
unfoldable pub spi_update : ℕ → ℕ → Io (Option ℕ)
spi_update rounds data_ = wait_for rounds 0x20000000 >>? λ _.
    (write32 spidat0 data_ >> wait_for rounds 0x80000000) >>? λ _.
    (read32 spibuf >>= λ value. pure (some (bit_and value 0x0000FFFF)))

-- The registers that `spi_init` saves for `spi_fini`.
pub record Saved : Type 0 where
  pub save_gcr0 : ℕ
  pub save_gcr1 : ℕ
  pub save_pc0 : ℕ
  pub save_dat1 : ℕ
  pub save_fmt0 : ℕ
  pub save_delay : ℕ
  pub save_def : ℕ

abbrev pub save : Io Saved
save = do
  gcr0 ← read32 spigcr0
  gcr1 ← read32 spigcr1
  pc0 ← read32 spipc0
  dat1 ← read32 spidat1
  fmt0 ← read32 spifmt0
  delay ← read32 spidelay
  definition ← read32 spidef
  pure (record {
    save_gcr0 = gcr0;
    save_gcr1 = gcr1;
    save_pc0 = pc0;
    save_dat1 = dat1;
    save_fmt0 = fmt0;
    save_delay = delay;
    save_def = definition;
  })

abbrev pub set_up : Io Unit
set_up = do
  write32 spigcr0 0x00000001
  write32 spigcr1 0x00000003
  write32 spipc0 0x00000E08
  write32 spidat1 0x00000000
  write32 spifmt0 (bit_or 0x00010010 (bit_and (cnvspd * 2 ^ 8) 0xFF00))
  write32 spidelay 0x0A0A0A0A
  write32 spiint0 0x00000000
  write32 spidef 0x00000008
  write32 spigcr1 0x01000003

unfoldable pub spi_fini : Saved → Io Unit
spi_fini s = do
  write32 spigcr0 s.save_gcr0
  write32 spigcr1 s.save_gcr1
  write32 spipc0 s.save_pc0
  write32 spidat1 s.save_dat1
  write32 spifmt0 s.save_fmt0
  write32 spidelay s.save_delay
  write32 spidef s.save_def

module _ (beyond : Beyond) where
  unfoldable pub spi_init : Io Saved
  spi_init = do
    gpio_init_pin beyond (spi0_offset + 0)
    gpio_init_pin beyond (spi0_offset + 1)
    gpio_init_pin beyond (spi0_offset + 2)
    gpio_init_pin beyond (spi0_offset + 3)
    saved ← save
    set_up
    pure saved
