-- ===== src/Softi2c.antt =====
-- libraries/hal_drivers/drv_soft_i2c.c: the pins of a bus, and the release of a bus that a device
-- holds. The pins are those of the pin device, and the waits are those of Delay.
pub mod Unlock
pub mod Tests
use ch32v303rct6_rtt_mrs.Base.{ℕ, zero, suc, Bool, true, false, ◌==◌, if◌then◌else◌}

-- `RT_EOK` and `-RT_ERROR`.
pub data Status : Type 0 where
  ok error : Status

-- `rt_pin_mode`, `rt_pin_write`, `rt_pin_read` and the wait of some microseconds, over the state of
-- the board.
pub record Pins (S : Type 0) : Type 0 where
  pub pin_mode : ℕ → ℕ → S → S
  pub pin_write : ℕ → ℕ → S → S
  pub pin_read : ℕ → S → ℕ
  pub udelay : ℕ → S → S

-- `ch32_soft_i2c_config`.
pub record I2cConfig : Type 0 where
  pub scl : ℕ
  pub sda : ℕ

module _ {S : Type 0} (pins : Pins S) (cfg : I2cConfig) where
  -- `ch32_i2c_gpio_init`: open drain, both lines high.
  pub gpio_init : S → S
  gpio_init s =
      pins.pin_write cfg.sda 1
        (pins.pin_write cfg.scl 1 (pins.pin_mode cfg.sda 4 (pins.pin_mode cfg.scl 4 s)))

  -- `ch32_set_sda` and `ch32_set_scl`.
  pub set_sda : ℕ → S → S
  set_sda state s = if state == 0 then pins.pin_write cfg.sda 0 s else pins.pin_write cfg.sda 1 s

  pub set_scl : ℕ → S → S
  set_scl state s = if state == 0 then pins.pin_write cfg.scl 0 s else pins.pin_write cfg.scl 1 s

  -- `ch32_get_sda` and `ch32_get_scl`.
  pub get_sda : S → ℕ
  get_sda s = pins.pin_read cfg.sda s

  pub get_scl : S → ℕ
  get_scl s = pins.pin_read cfg.scl s

  -- A round of the loop of `ch32_i2c_bus_unlock`: a pulse of the clock line.
  pub pulse : S → S
  pulse s =
      pins.udelay 100 (pins.pin_write cfg.scl 0 (pins.udelay 100 (pins.pin_write cfg.scl 1 s)))

  pub pulses : ℕ → S → S
  unfolding pulse
  pulses zero s = s
  pulses (suc n) s = pulses n (pulse s)

  -- `ch32_i2c_bus_unlock`.
  pub bus_unlock : S → Status × S
  unfolding pulses
  bus_unlock s =
      let s' = if pins.pin_read cfg.sda s == 0 then pulses 9 s else s in
      if pins.pin_read cfg.sda s' == 0 then (error, s') else (ok, s')

  -- What `rt_hw_i2c_init` does for a bus; the status of the release is not looked at.
  pub i2c_init : S → S
  unfolding gpio_init bus_unlock
  i2c_init s = (bus_unlock (gpio_init s)).1
