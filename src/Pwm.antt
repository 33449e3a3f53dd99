-- ===== src/Pwm.antt =====
-- libraries/hal_drivers/drv_pwm.c: periods and pulses in nanoseconds to and from the registers of a
-- timer, and the pins of its channels. `none` is a division by zero. The calls of the vendor's
-- library are kept in a log, the last one first.
pub mod Registers
pub mod Tests
use ch32v303rct6_rtt_mrs.Base.{
  ℕ, ◌+◌, ◌-◌, ◌*◌, ◌/◌, ◌%◌, ◌^◌, Bool, true, false, ◌&&◌, Option, none, some, List, [], ◌∷◌, ltb,
  leb, ◌==◌, if◌then◌else◌, u16, u32,
}

-- `RT_EOK` and `-RT_EINVAL`.
pub data Status : Type 0 where
  ok invalid : Status

-- `rt_pwm_configuration`, in its 32-bit fields.
pub record Config : Type 0 where
  pub channel : ℕ
  pub period : ℕ
  pub pulse : ℕ

-- The calls of the driver with the 16-bit fields of the structures that they take.
pub data Call : Type 0 where
  time_base_init : ℕ → ℕ → Call
  oc_init : ℕ → ℕ → Call
  oc_preload_off arr_preload pwm_outputs tim_cmd : Call
  ccx_cmd : ℕ → Bool → Call

-- The prescaler and the period, both one more than the registers.
abbrev pub prescaler_of : ℕ → ℕ → ℕ
prescaler_of clock freq =
    if ltb 65535 (clock / freq)
    then (if clock / 65536 % freq == 0 then clock / 65536 / freq else clock / 65536 / freq + 1)
    else 1

abbrev pub arr_of : ℕ → ℕ → ℕ
arr_of clock freq = clock / prescaler_of clock freq / freq

abbrev pub at_least_two : ℕ → ℕ
at_least_two n = if ltb n 2 then 2 else n

abbrev pub ccr_of : ℕ → ℕ → ℕ → ℕ
ccr_of arr period pulse = u32 (u32 (pulse * 100) / period * arr) / 100

-- What `ch32_pwm_device_set` puts into `TIM_Period`, `TIM_Prescaler` and `TIM_Pulse`.
pub record Settings : Type 0 where
  pub tim_period : ℕ
  pub tim_prescaler : ℕ
  pub tim_pulse : ℕ

pub settings : ℕ → Config → Settings
settings clock c =
    let freq = 1000000000 / c.period in
    let arr = arr_of clock freq in
    record {
      tim_period = u16 (at_least_two arr - 1);
      tim_prescaler = u16 (prescaler_of clock freq - 1);
      tim_pulse = u16 (at_least_two (ccr_of arr c.period c.pulse) - 1);
    }

abbrev pub is_channel : ℕ → Bool
is_channel k = leb 1 k && leb k 4

-- `ch32_pwm_device_set`: the time base is set up before the channel is looked at.
pub device_set : ℕ → Config → List Call → Option (Status × List Call)
unfolding settings
device_set clock c calls =
    let s = settings clock c in
    let based = time_base_init s.tim_period s.tim_prescaler ∷ calls in
    if c.period == 0
    then none
    else if 1000000000 / c.period == 0
    then none
    else if is_channel c.channel
    then some
        (ok, pwm_outputs ∷ arr_preload ∷ oc_preload_off ∷ oc_init c.channel s.tim_pulse ∷ based)
    else some (invalid, based)

-- The registers PSC, ATRLR and CH1CVR to CH4CVR.
pub record Regs : Type 0 where
  pub psc : ℕ
  pub atrlr : ℕ
  pub chcvr : ℕ → ℕ

-- `ch32_pwm_device_get`.
pub device_get : ℕ → Regs → Config → Option (Status × Config)
device_get clock r c =
    let arr = r.atrlr + 1 in
    let freq = clock / (r.psc + 1) / arr in
    let period = 1000000000 / freq in
    let ccr = r.chcvr c.channel + 1 in
    if freq == 0
    then none
    else if is_channel c.channel
    then some (
      ok,
      record { channel = c.channel; period = period; pulse = u32 (ccr * 100 / arr * period) / 100 },
    )
    else some (invalid, record c { period = period })

-- `ch32_pwm_device_enable`, with the channels that the device list names.
pub device_enable : (ℕ → Bool) → ℕ → Bool → List Call → Status × List Call
device_enable in_list channel enable calls =
    if is_channel channel
    then (if in_list channel
        then (ok, tim_cmd ∷ ccx_cmd channel enable ∷ calls)
        else (invalid, calls))
    else (invalid, calls)

-- `PWM_CMD_ENABLE`, `PWM_CMD_DISABLE`, `PWM_CMD_SET`, `PWM_CMD_GET`, and any other.
pub data Cmd : Type 0 where
  enable disable set get other : Cmd

-- `drv_pwm_control`: the status, the configuration and the calls.
pub control :
    ℕ → (ℕ → Bool) → Regs → Cmd → Config → List Call → Option (Status × Config × List Call)
unfolding device_set device_get device_enable
control clock in_list r enable c calls =
    let (s, calls') = device_enable in_list c.channel true calls in some (s, c, calls')
control clock in_list r disable c calls =
    let (s, calls') = device_enable in_list c.channel false calls in some (s, c, calls')
control clock in_list r set c calls = elim (device_set clock c calls) [
  | none ↦ none
  | some (s, calls') ↦ some (s, c, calls')
]
control clock in_list r get c calls = elim (device_get clock r c) [
  | none ↦ none
  | some (s, c') ↦ some (s, c', calls)
]
control clock in_list r other c calls = some (invalid, c, calls)

-- The timers that have outputs.
pub data Timer : Type 0 where
  tim1 tim2 tim3 tim4 tim5 tim8 tim9 tim10 : Timer

-- The port, from 0 for GPIOA, and the pin of one of the channels 1 to 4, from a port and pin each.
abbrev pub channels : (ℕ × ℕ) → (ℕ × ℕ) → (ℕ × ℕ) → (ℕ × ℕ) → ℕ → Option (ℕ × ℕ)
channels a b c d k =
    if k == 1
    then some a
    else if k == 2
    then some b
    else if k == 3
    then some c
    else if k == 4
    then some d
    else none

abbrev pub tim1_pins : ℕ → Option (ℕ × ℕ)
tim1_pins = channels (0, 8) (0, 9) (0, 10) (0, 11)

abbrev pub tim2_pins : ℕ → Option (ℕ × ℕ)
tim2_pins = channels (0, 0) (0, 1) (0, 2) (0, 3)

abbrev pub tim3_pins : ℕ → Option (ℕ × ℕ)
tim3_pins = channels (0, 6) (0, 7) (1, 0) (1, 1)

abbrev pub tim4_pins : ℕ → Option (ℕ × ℕ)
tim4_pins = channels (1, 6) (1, 7) (1, 8) (1, 9)

abbrev pub tim5_pins : ℕ → Option (ℕ × ℕ)
tim5_pins = channels (0, 0) (0, 1) (0, 2) (0, 3)

abbrev pub tim8_pins : ℕ → Option (ℕ × ℕ)
tim8_pins = channels (2, 6) (2, 7) (2, 8) (2, 9)

abbrev pub tim9_pins : ℕ → Option (ℕ × ℕ)
tim9_pins = channels (0, 2) (0, 3) (0, 4) (2, 4)

abbrev pub tim10_pins : ℕ → Option (ℕ × ℕ)
tim10_pins = channels (1, 8) (1, 9) (2, 3) (2, 11)

-- The pin that `ch32_pwm_io_init` makes an alternate output for a timer and a channel.
pub io_pin : Timer → ℕ → Option (ℕ × ℕ)
io_pin tim1 k = tim1_pins k
io_pin tim2 k = tim2_pins k
io_pin tim3 k = tim3_pins k
io_pin tim4 k = tim4_pins k
io_pin tim5 k = tim5_pins k
io_pin tim8 k = tim8_pins k
io_pin tim9 k = tim9_pins k
io_pin tim10 k = tim10_pins k
