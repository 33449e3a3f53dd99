-- ===== src/Delay.antt =====
-- The busy waits on the system timer: `rt_hw_us_delay` of board/board.c, `ch32_udelay` of
-- libraries/hal_drivers/drv_soft_spi.c, and `rt_hw_us_delay` of libraries/hal_drivers/drv_common.c.
-- The reads of `SysTick->CNT` are a sequence of samples, and a wait gives the number of its last read,
-- or `none` where its rounds run out.
pub mod Counter
pub mod Since
pub mod Tests
use ch32v303rct6_rtt_mrs.Base.{
  ℕ, zero, suc, ◌+◌, ◌-◌, ◌*◌, ◌/◌, ◌%◌, ◌^◌, Option, none, some, ltb, leb, ◌==◌, if◌then◌else◌,
  u32,
}

-- The cycles that `rt_hw_us_delay` adds for two unequal samples, in 32 bits.
abbrev pub down_delta : ℕ → ℕ → ℕ → ℕ
down_delta reload told tnow =
    if ltb tnow told then told - tnow else u32 (reload + 2 ^ 32 - tnow + told)

-- Those that `ch32_udelay` adds.
abbrev pub up_delta : ℕ → ℕ → ℕ → ℕ
up_delta reload told tnow =
    if ltb told tnow then tnow - told else u32 (reload + 2 ^ 32 - told + tnow)

-- `while (1)`, from read `i` on, with the way to count.
pub wait : (ℕ → ℕ → ℕ) → ℕ → ℕ → (ℕ → ℕ) → ℕ → ℕ → ℕ → Option ℕ
wait delta ticks zero sample i told tcnt = none
wait delta ticks (suc fuel) sample i told tcnt =
    let tnow = sample i in
    let count = u32 (tcnt + delta told tnow) in
    let idle = wait delta ticks fuel sample (suc i) told tcnt in
    let next = wait delta ticks fuel sample (suc i) tnow count in
    if tnow == told then idle else if leb ticks count then some i else next

abbrev pub ticks_of : ℕ → ℕ → ℕ → ℕ
ticks_of per_second reload us = u32 (us * reload) / (1000000 / per_second)

-- `rt_hw_us_delay`, with `RT_TICK_PER_SECOND`, `SysTick->CMP` and the rounds allowed.
pub us_delay : ℕ → ℕ → ℕ → (ℕ → ℕ) → ℕ → Option ℕ
unfolding wait
us_delay per_second reload us sample fuel =
    wait (down_delta reload) (ticks_of per_second reload us) fuel sample 1 (sample 0) 0

-- `ch32_udelay`.
pub udelay : ℕ → ℕ → ℕ → (ℕ → ℕ) → ℕ → Option ℕ
unfolding wait
udelay per_second reload us sample fuel =
    wait (up_delta reload) (ticks_of per_second reload us) fuel sample 1 (sample 0) 0

-- The cycles since the start by `rt_hw_us_delay` of drv_common.c, in 64 bits.
abbrev pub since_start : ℕ → ℕ → ℕ → ℕ
since_start reload start now =
    if ltb now start then start - now else (reload + start + 2 ^ 64 - now) % 2 ^ 64

-- Its loop, from read `i` on.
pub poll_since : ℕ → ℕ → ℕ → (ℕ → ℕ) → ℕ → ℕ → Option ℕ
poll_since reload start total sample zero i = none
poll_since reload start total sample (suc fuel) i =
    let later = poll_since reload start total sample fuel (suc i) in
    if ltb (since_start reload start (sample i)) total then later else some i

-- `rt_hw_us_delay` of drv_common.c, with `SystemCoreClock`, `SysTick->CMP` and the rounds allowed.
pub us_delay_since : ℕ → ℕ → ℕ → (ℕ → ℕ) → ℕ → Option ℕ
us_delay_since core_clock reload us sample fuel =
    poll_since reload (sample 0) (us * (core_clock / 8000000) % 2 ^ 64) sample fuel 1
