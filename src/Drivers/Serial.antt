-- ===== src/Drivers/Serial.antt =====
-- The serial peripheral interface and what stands behind it (kernel/drivers/spi.c, adc.c, sensor.c), under
-- the lock of the pins.
use ninjastorms.Prelude.{
  ℕ, zero, suc, ◌+◌, ◌*◌, ◌^◌, ◌<◌, Bool, true, false, arith, Option, none, some, if◌then◌else◌,
  ◌==◌, bit_and, bit_or,
}
use ninjastorms.Device.{
  Io, pure, ◌>>=◌, ◌>>◌, ◌>>?◌, after_some, poll, read32, write32, complement, History, Hardware,
}
use ninjastorms.PinInfo.{pininfo_size}
use ninjastorms.Gpio.{Beyond, gpio_pin, gpio_dir, gpio_mask, gpio_set_register, syscfg1_base}
use ninjastorms.Gpio.Guarded.{
  Closed, read32-Closed, write32-Closed, clear_bits-Closed, gpio_init_pin-Closed,
  gpio_init_outpin-Closed, gpio_init_inpin-Closed, gpio_set-Closed,
}
use ninjastorms.Drivers.Spi.{
  wait_for, spi_update, spi_init, spi_fini, save, set_up, Saved, spi0_offset, spi_base, spibuf,
  spidat0, spigcr0, spigcr1, spipc0, spidat1, spidelay, spidef, spifmt0,
}
use ninjastorms.Drivers.Adc.{adc_get, adc_init, power_up, updates, battery_pin}
use ninjastorms.Drivers.Sensor.{
  SensorPortId, sensor_port_1, sensor_port_2, sensor_port_3, sensor_port_4, ports, touch_state,
  sensor_touch_get_state, sensor_light_get, init_port, sensor_init,
}

module _ (beyond : Beyond) (hw : Hardware) where
  branch-Closed :
      {A : Type 0} (b : Bool) (m n : Io A) (h : History)
      → Closed (m hw h).1
      → Closed (n hw h).1
      → Closed ((if b then m else n) hw h).1
  branch-Closed true m n h c d = c
  branch-Closed false m n h c d = d

  poll-Closed : (n address bits : ℕ) (h : History) → Closed h → Closed (poll n address bits hw h).1
  unfolding poll
  poll-Closed zero address bits h c = c
  poll-Closed (suc n) address bits h c =
      let r = read32-Closed hw h address c in
      branch-Closed (bit_and (read32 address hw h).0 bits == 0) (pure true) (poll n address bits) _
        r (poll-Closed n address bits _ r)

  wait_for-Closed :
      (rounds bits : ℕ) (h : History) → Closed h → Closed (wait_for rounds bits hw h).1
  wait_for-Closed rounds bits h c = poll-Closed rounds spibuf bits h c

  -- A program that leaves the registers locked.
  record Keeps {A : Type 0} (m : Io A) : Type 0 where
    keeps : (h : History) → Closed h → Closed (m hw h).1

  after_some-Closed :
      {A B : Type 0} (k : A → Io (Option B)) (a : Option A) (h : History)
      → ((x : A) → Keeps (k x))
      → Closed h
      → Closed (after_some k a hw h).1
  after_some-Closed k none h f c = c
  after_some-Closed k (some a) h f c = (f a).keeps h c

  some_then :
      {A B : Type 0} {m : Io (Option A)} {k : A → Io (Option B)}
      → Keeps m
      → ((x : A) → Keeps (k x))
      → Keeps (m >>? k)
  some_then {m = m} {k = k} t u = record {
    keeps = λ h c. after_some-Closed k (m hw h).0 _ u (t.keeps h c);
  }

  wait_for-Keeps : (rounds bits : ℕ) → Keeps (wait_for rounds bits)
  wait_for-Keeps rounds bits = record { keeps = wait_for-Closed rounds bits }

  send-Keeps : (rounds value : ℕ) → Keeps (write32 spidat0 value >> wait_for rounds 0x80000000)
  send-Keeps rounds value = record {
    keeps = λ h c.
        wait_for-Closed rounds 0x80000000 _ (write32-Closed hw h spidat0 value (omega arith) c);
  }

  answer-Keeps : Keeps (read32 spibuf >>= λ value. pure (some (bit_and value 0x0000FFFF)))
  answer-Keeps = record { keeps = λ h c. read32-Closed hw h spibuf c }

  spi_update-Keeps : (rounds value : ℕ) → Keeps (spi_update rounds value)
  unfolding spi_update
  spi_update-Keeps rounds value =
      some_then {m = wait_for rounds 0x20000000} (wait_for-Keeps rounds 0x20000000) λ _.
        some_then {m = write32 spidat0 value >> wait_for rounds 0x80000000}
          {k = λ _. read32 spibuf >>= λ v. pure (some (bit_and v 0x0000FFFF))}
          (send-Keeps rounds value) λ _. answer-Keeps

  adc_get-Keeps : (rounds channel : ℕ) → Keeps (adc_get rounds channel)
  unfolding adc_get
  adc_get-Keeps rounds channel =
      some_then {m = spi_update rounds (bit_or 0x1840 (bit_and channel 0x000F * 2 ^ 7))}
        {k = λ value. pure (some (bit_and value 0x0FFF))}
        (spi_update-Keeps rounds (bit_or 0x1840 (bit_and channel 0x000F * 2 ^ 7)))
        λ _. record { keeps = λ h c. c }

  pub sensor_touch_get_state-Closed :
      (rounds : ℕ) (port : SensorPortId) (h : History)
      → Closed h
      → Closed (sensor_touch_get_state rounds port hw h).1
  unfolding sensor_touch_get_state
  sensor_touch_get_state-Closed rounds port =
      (some_then {m = adc_get rounds (ports port).adc1} (adc_get-Keeps rounds (ports port).adc1)
        λ data1.
          some_then {m = adc_get rounds (ports port).adc2}
            {k = λ data2. pure (some (touch_state data1 data2))}
            (adc_get-Keeps rounds (ports port).adc2) λ data2. record { keeps = λ h c. c }).keeps

  Known : SensorPortId → Type 0
  Known port =
      (ports port).pin1 < pininfo_size
      × (ports port).pin2 < pininfo_size
      × (ports port).pin5 < pininfo_size
      × (ports port).pin6 < pininfo_size
      × (ports port).buffer < pininfo_size

  ports-Known : (port : SensorPortId) → Known port
  unfolding Known
  ports-Known sensor_port_1 = (omega arith, omega arith, omega arith, omega arith, omega arith)
  ports-Known sensor_port_2 = (omega arith, omega arith, omega arith, omega arith, omega arith)
  ports-Known sensor_port_3 = (omega arith, omega arith, omega arith, omega arith, omega arith)
  ports-Known sensor_port_4 = (omega arith, omega arith, omega arith, omega arith, omega arith)

  pub sensor_light_get-Closed :
      (rounds : ℕ) (port : SensorPortId) (h : History)
      → Closed h
      → Closed (sensor_light_get beyond rounds port hw h).1
  unfolding sensor_light_get Known
  sensor_light_get-Closed rounds port h c = (adc_get-Keeps rounds (ports port).adc1).keeps _ (
      gpio_set-Closed beyond (ports port).pin5 (let (k1, k2, k5, k6, k) = ports-Known port in k5) hw
        h 1 c)

  init_port-Closed :
      (port : SensorPortId) (h : History) → Closed h → Closed (init_port beyond port hw h).1
  unfolding Known
  init_port-Closed port h c =
      let (k1, k2, k5, k6, kb) = ports-Known port in
      gpio_init_pin-Closed beyond (ports port).buffer kb hw _ (
        gpio_init_pin-Closed beyond (ports port).pin6 k6 hw _ (
          gpio_init_outpin-Closed beyond (ports port).pin5 k5 hw _ (
            gpio_init_inpin-Closed beyond (ports port).pin2 k2 hw _
              (gpio_init_inpin-Closed beyond (ports port).pin1 k1 hw h c))))

  pub sensor_init-Closed : (h : History) → Closed h → Closed (sensor_init beyond hw h).1
  unfolding sensor_init
  sensor_init-Closed h c =
      clear_bits-Closed hw _ (syscfg1_base + 0x0C) (complement 0xFFFFFFFF) (omega arith) (
        init_port-Closed sensor_port_4 _ (
          init_port-Closed sensor_port_3 _
            (init_port-Closed sensor_port_2 _ (init_port-Closed sensor_port_1 h c))))

  save-Closed : (h : History) → Closed h → Closed (save hw h).1
  save-Closed h c = read32-Closed hw _ spidef (
      read32-Closed hw _ spidelay (
        read32-Closed hw _ spifmt0 (
          read32-Closed hw _ spidat1 (
            read32-Closed hw _ spipc0
              (read32-Closed hw _ spigcr1 (read32-Closed hw h spigcr0 c))))))

  spi_register-Closed :
      (n v : ℕ) (h : History) → Closed h → Closed (write32 (spi_base + n) v hw h).1
  spi_register-Closed n v h c = write32-Closed hw h (spi_base + n) v (omega arith) c

  set_up-Closed : (h : History) → Closed h → Closed (set_up hw h).1
  set_up-Closed h c = spi_register-Closed 0x04 _ _ (
      spi_register-Closed 0x4C _ _ (
        spi_register-Closed 0x08 _ _ (
          spi_register-Closed 0x48 _ _ (
            spi_register-Closed 0x50 _ _ (
              spi_register-Closed 0x3C _ _ (
                spi_register-Closed 0x14 _ _
                  (spi_register-Closed 0x04 _ _ (spi_register-Closed 0x00 _ h c))))))))

  pub spi_fini-Closed : (s : Saved) (h : History) → Closed h → Closed (spi_fini s hw h).1
  unfolding spi_fini
  spi_fini-Closed s h c = spi_register-Closed 0x4C _ _ (
      spi_register-Closed 0x48 _ _ (
        spi_register-Closed 0x50 _ _ (
          spi_register-Closed 0x3C _ _ (
            spi_register-Closed 0x14 _ _
              (spi_register-Closed 0x04 _ _ (spi_register-Closed 0x00 _ h c))))))

  pub spi_init-Closed : (h : History) → Closed h → Closed (spi_init beyond hw h).1
  unfolding spi_init
  spi_init-Closed h c = set_up-Closed _ (
      save-Closed _ (
        gpio_init_pin-Closed beyond (spi0_offset + 3) (omega arith) hw _ (
          gpio_init_pin-Closed beyond (spi0_offset + 2) (omega arith) hw _ (
            gpio_init_pin-Closed beyond (spi0_offset + 1) (omega arith) hw _
              (gpio_init_pin-Closed beyond (spi0_offset + 0) (omega arith) hw h c)))))

  power_up-Closed : (h : History) → Closed h → Closed (power_up beyond hw h).1
  power_up-Closed h c =
      clear_bits-Closed hw _ (gpio_dir battery_pin) (complement (gpio_mask battery_pin))
        (omega arith)
        (write32-Closed hw _ (gpio_set_register battery_pin) (gpio_mask battery_pin) (omega arith) (
          gpio_init_pin-Closed beyond battery_pin (omega arith) hw _
            (gpio_init_pin-Closed beyond (gpio_pin 6 14) (omega arith) hw h c)))

  updates-Keeps : (rounds n : ℕ) → Keeps (updates rounds n)
  unfolding updates
  updates-Keeps rounds zero = record { keeps = λ h c. c }
  updates-Keeps rounds (suc n) =
      some_then {m = spi_update rounds 0x400F} {k = λ _. updates rounds n}
        (spi_update-Keeps rounds 0x400F) λ _. updates-Keeps rounds n

  pub adc_init-Closed :
      (rounds : ℕ) (h : History) → Closed h → Closed (adc_init beyond rounds hw h).1
  unfolding adc_init
  adc_init-Closed rounds h c = (updates-Keeps rounds 6).keeps _ (power_up-Closed h c)
