-- ===== src/Rtc/Device.antt =====
-- libraries/hal_drivers/drv_rtc.c: the clock as a device of the kernel. It shares the backup register
-- BKP_DR1 with bsp/src/bsp_rtc.c.
use ch32v303rct6_rtt_mrs.Base.{
  ℕ, zero, suc, Bool, true, false, Option, none, some, ◌==◌, if◌then◌else◌, u32, ◌≡◌, refl, ◌>>=◌,
}
use ch32v303rct6_rtt_mrs.Rtc.Start.{State, first_init, rtc_init}

-- `BKUP_REG_DATA`.
abbrev pub reg_data : ℕ
reg_data = 0xA1A1

-- `rt_rtc_config`.
pub rtc_config : State → State
rtc_config s =
    let on = record s { rtc_on = true } in
    if s.backup == reg_data then on else record on { prescaler = 32767 }

-- The wait for the oscillator in `ch32_rtc_init`, over the polls allowed; the source allows any.
pub wait_ready : (ℕ → Bool) → ℕ → ℕ → Option ℕ
wait_ready ready zero k = none
wait_ready ready (suc polls) k =
    let later = wait_ready ready polls (suc k) in if ready k then some k else later

-- `ch32_rtc_init`.
pub device_init : (ℕ → Bool) → ℕ → State → Option State
unfolding rtc_config wait_ready
device_init ready polls s =
    wait_ready ready polls 0 >>= λ k. some (rtc_config (record s { lse_on = true }))

-- `ch32_get_secs` and `ch32_set_secs`, with the counter.
pub get_secs : ℕ × State → ℕ
get_secs c = c.0

pub set_secs : ℕ → ℕ × State → ℕ × State
set_secs sec c = (u32 sec, record c.1 { backup = reg_data })

-- After the device's time is set, the next `BSP_RTC_Init` takes the clock for one never started.
pub rtc_init-set_secs :
    (lse_ready : Bool) (ready : ℕ → Bool) (sec : ℕ) (c : ℕ × State)
    → rtc_init lse_ready ready (set_secs sec c).1 ≡ (first_init ready (set_secs sec c).1).1
unfolding rtc_init set_secs
rtc_init-set_secs true ready sec c = refl
rtc_init-set_secs false ready sec c = refl
