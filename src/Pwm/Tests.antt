-- ===== src/Pwm/Tests.antt =====
-- A timer at 96 MHz.
use ch32v303rct6_rtt_mrs.Base.{◌+◌, ◌/◌, ◌≤◌, arith, ◌≡◌, refl}
use ch32v303rct6_rtt_mrs.Pwm.{Config, settings, prescaler_of, arr_of, at_least_two, ccr_of}
use ch32v303rct6_rtt_mrs.Pwm.Registers.{settings_bounds, settings_wrap}

abbrev ten_ms : Config
ten_ms = record { channel = 1; period = 10000000; pulse = 2500000 }

settings_bounds_example :
    let s = settings 96000000 ten_ms in
    let freq = 1000000000 / 10000000 in
    let arr = at_least_two (arr_of 96000000 freq) in
    (s.tim_period + 1 ≡ arr)
    × (s.tim_prescaler + 1 ≡ prescaler_of 96000000 freq)
    × (s.tim_pulse + 1 ≡ at_least_two (ccr_of (arr_of 96000000 freq) 10000000 2500000))
    × (s.tim_pulse ≤ s.tim_period)
settings_bounds_example =
    settings_bounds 96000000 ten_ms (omega arith) (omega arith) (omega arith) (omega arith)
      (omega arith) (omega arith)

abbrev one_second : Config
one_second = record { channel = 1; period = 1000000000; pulse = 0 }

settings_wrap_example :
    (arr_of 96000000 (1000000000 / 1000000000) ≡ 65573)
    × ((settings 96000000 one_second).tim_period ≡ 36)
settings_wrap_example = settings_wrap one_second (omega arith) (omega arith) refl
