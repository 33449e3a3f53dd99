-- ===== src/Softi2c/Tests.antt =====
-- A device that holds the line for some pulses; the state is what it has left and the clock line.
use ch32v303rct6_rtt_mrs.Base.{
  ℕ, ◌-◌, ◌≢◌, ◌==◌, Bool, true, false, if◌then◌else◌, arith, ◌≡◌, refl,
}
use ch32v303rct6_rtt_mrs.Softi2c.{ok, Pins, I2cConfig, bus_unlock}
use ch32v303rct6_rtt_mrs.Softi2c.Unlock.{IsHeld, bus_unlock-IsHeld}

abbrev Bus : Type 0
Bus = ℕ × Bool

-- Pin 1 is the clock, and its fall shifts.
abbrev board : Pins Bus
board = record {
  pin_mode = λ p m s. s;
  pin_write = λ p v s.
      if p == 1 then (if v == 0 then (if s.1 then s.0 - 1 else s.0, false) else (s.0, true)) else s;
  pin_read = λ p s. if p == 2 then (if s.0 == 0 then 1 else 0) else if s.1 then 1 else 0;
  udelay = λ us s. s;
}

abbrev lines : I2cConfig
lines = record { scl = 1; sda = 2 }

abbrev bits_left : Bus → ℕ
bits_left s = s.0

abbrev clock_high : Bus → Bool
clock_high s = s.1

board-IsHeld : IsHeld board lines bits_left clock_high
board-IsHeld = record {
  rises = λ s. refl;
  rests = λ s. refl;
  falls = λ s. refl;
  shifts = λ s. refl;
  waits = λ us s. refl;
  stays = λ us s. refl;
  free = λ (s : Bus) (e : s.0 ≡ 0). ground arith;
}

-- The clock line is high, as `ch32_i2c_gpio_init` leaves it.
bus_unlock-IsHeld_example :
    let r = bus_unlock board lines (5, true) in
    (r.0 ≡ ok) × (board.pin_read lines.sda r.1 ≢ 0) × (bits_left r.1 ≡ 0) × (clock_high r.1 ≡ false)
bus_unlock-IsHeld_example =
    bus_unlock-IsHeld board lines bits_left clock_high board-IsHeld (5, true) (omega arith)
