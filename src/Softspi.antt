-- ===== src/Softspi.antt =====
-- libraries/hal_drivers/drv_soft_spi.c: the lines of a bus that software drives, on the pins of the pin
-- device. Its wait is in Delay.
pub mod Lines
use ch32v303rct6_rtt_mrs.Base.{ℕ, Bool, true, false, ◌==◌, if◌then◌else◌}
use ch32v303rct6_rtt_mrs.Softi2c.{Pins}

-- `ch32_soft_spi_config`.
pub record SpiConfig : Type 0 where
  pub sck : ℕ
  pub mosi : ℕ
  pub miso : ℕ

-- `PIN_MODE_OUTPUT` and `PIN_MODE_INPUT`.
abbrev pub mode_output : ℕ
mode_output = 0

abbrev pub mode_input : ℕ
mode_input = 1

module _ {S : Type 0} (pins : Pins S) (cfg : SpiConfig) where
  -- `ch32_spi_gpio_init`: the modes, then all lines high.
  pub gpio_init : S → S
  gpio_init s =
      let s1 = pins.pin_mode cfg.sck mode_output s in
      let s2 = pins.pin_mode cfg.miso mode_input s1 in
      let s3 = pins.pin_mode cfg.mosi mode_output s2 in
      pins.pin_write cfg.mosi 1 (pins.pin_write cfg.sck 1 (pins.pin_write cfg.miso 1 s3))

  pub tog_sclk : S → S
  tog_sclk s =
      if pins.pin_read cfg.sck s == 1
      then pins.pin_write cfg.sck 0 s
      else pins.pin_write cfg.sck 1 s

  pub set_sclk : ℕ → S → S
  set_sclk state s = if state == 0 then pins.pin_write cfg.sck 0 s else pins.pin_write cfg.sck 1 s

  pub set_mosi : ℕ → S → S
  set_mosi state s = if state == 0 then pins.pin_write cfg.mosi 0 s else pins.pin_write cfg.mosi 1 s

  pub set_miso : ℕ → S → S
  set_miso state s = if state == 0 then pins.pin_write cfg.miso 0 s else pins.pin_write cfg.miso 1 s

  pub get_sclk : S → ℕ
  get_sclk s = pins.pin_read cfg.sck s

  pub get_mosi : S → ℕ
  get_mosi s = pins.pin_read cfg.mosi s

  pub get_miso : S → ℕ
  get_miso s = pins.pin_read cfg.miso s

  pub dir_mosi : ℕ → S → S
  dir_mosi state s =
      if state == 0
      then pins.pin_mode cfg.mosi mode_output s
      else pins.pin_mode cfg.mosi mode_input s

  pub dir_miso : ℕ → S → S
  dir_miso state s =
      if state == 0
      then pins.pin_mode cfg.miso mode_output s
      else pins.pin_mode cfg.miso mode_input s
