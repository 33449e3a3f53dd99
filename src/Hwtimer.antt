-- ===== src/Hwtimer.antt =====
-- libraries/hal_drivers/drv_hwtimer.c: the rate and the count of a hardware timer.
pub mod Rate
pub mod Tests
use ch32v303rct6_rtt_mrs.Base.{
  ℕ, ◌+◌, ◌-◌, ◌*◌, ◌/◌, ◌%◌, ◌^◌, Bool, true, false, ◌||◌, Option, none, some, ◌==◌, if◌then◌else◌,
  u16, u32,
}

-- The timers of the device; `tim8` to `tim10` and `tim1` hang on the second peripheral bus.
pub data Timer : Type 0 where
  tim1 tim2 tim3 tim4 tim5 tim6 tim7 tim8 tim9 tim10 : Timer

abbrev pub on_apb2 : Timer → Bool
on_apb2 tim1 = true
on_apb2 tim8 = true
on_apb2 tim9 = true
on_apb2 tim10 = true
on_apb2 _ = false

abbrev pub up_only : Timer → Bool
up_only tim6 = true
up_only tim7 = true
up_only _ = false

-- The two bus clocks, and whether each bus runs undivided (`RCC_PPRE1_DIV1`, `RCC_PPRE2_DIV1`).
pub record Clocks : Type 0 where
  pub pclk1 : ℕ
  pub pclk2 : ℕ
  pub div1 : Bool
  pub div2 : Bool

-- `ch32_get_pclk_doubler`: the factors for the two buses.
pub pclk_doubler : Clocks → ℕ × ℕ
pclk_doubler k = (if k.div1 then 1 else 2, if k.div2 then 1 else 2)

-- The clock of a timer, in 32 bits.
abbrev pub timer_clock : Clocks → Timer → ℕ
timer_clock k t =
    let (d1, d2) = pclk_doubler k in if on_apb2 t then u32 (k.pclk2 * d2) else u32 (k.pclk1 * d1)

-- The registers PSC, CNT and ATRLR, the bit OPM of CTLR1, the direction, what `TIM_Cmd` was last
-- called with, and the interrupt of the update.
pub record Regs : Type 0 where
  pub psc : ℕ
  pub cnt : ℕ
  pub atrlr : ℕ
  pub one_pulse : Bool
  pub counts_up : Bool
  pub running : Bool
  pub update_irq : Bool

-- `ch32_hwtimer_init` with a state other than 0: a tick of a tenth of a millisecond, and one second.
-- `info_up` is whether the device's information has the mode `HWTIMER_CNTMODE_UP`.
pub init : Clocks → Bool → Timer → Regs → Regs
unfolding pclk_doubler
init k info_up t r = record r {
  psc = u16 (timer_clock k t / 10000 + 2 ^ 32 - 1);
  atrlr = 9999;
  counts_up = if up_only t then true else info_up;
  update_irq = true;
}

-- `ch32_hwtimer_start`.
pub start : ℕ → Bool → Regs → Regs
start cnt one_shot r = record r {
  cnt = 0;
  atrlr = u16 (cnt + 2 ^ 32 - 1);
  one_pulse = one_shot;
  running = true;
}

-- `ch32_hwtimer_stop`.
pub stop : Regs → Regs
stop r = record r { running = false; cnt = 0 }

-- `ch32_hwtimer_count_get`.
pub count_get : Regs → ℕ
count_get r = r.cnt

-- `-RT_EINVAL` is `invalid`.
pub data Status : Type 0 where
  ok invalid : Status

-- `HWTIMER_CTRL_FREQ_SET`, `MODE_SET`, `INFO_GET` and `STOP`, and any other command.
pub data Cmd : Type 0 where
  freq_set : ℕ → Cmd
  mode_set : Bool → Cmd
  info_get stop_cmd other : Cmd

-- `ch32_hwtimer_control`: the status, what is stored in the argument if it is, and the registers.
-- `none` is a frequency of 0, by which it divides.
pub control : Clocks → Timer → Cmd → Regs → Option (Status × Option ℕ × Regs)
unfolding pclk_doubler stop
control k t (freq_set freq) r =
    if freq == 0
    then none
    else some (ok, none, record r { psc = u16 (u16 (timer_clock k t / freq) + 2 ^ 32 - 1) })
control k t (mode_set one_shot) r = some (ok, none, record r { one_pulse = one_shot })
control k t info_get r = some (ok, some r.cnt, r)
control k t stop_cmd r = some (ok, none, stop r)
control k t other r = some (invalid, none, r)

-- `ch32_hwtimer_isr`: the calls of `rt_device_hwtimer_isr`, and the pending bit afterwards.
pub isr : Bool → ℕ × Bool
isr pending = if pending then (1, false) else (0, false)
