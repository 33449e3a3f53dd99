-- ===== src/Vin.antt =====
-- bsp/src/bsp_vin_detection.c: the conversions of the supply voltage, their average, and the
-- interrupt and thread that watch it. The floating-point scaling to volts is left out.
pub mod Average
pub mod Once
pub mod Tests
use ch32v303rct6_rtt_mrs.Base.{
  ℕ, zero, suc, ◌+◌, ◌-◌, ◌*◌, ◌/◌, ◌%◌, ◌^◌, Bool, true, false, ◌&&◌, ◌||◌, List, [], ◌∷◌, ltb,
  leb, ◌==◌, if◌then◌else◌, u32,
}

-- The integers of an `int`; `negsuc n` is -(n + 1).
pub data ℤ : Type 0 where
  pos negsuc : ℕ → ℤ

infixl 30 ◌+ℤ◌
abbrev pub ◌+ℤ◌ : ℤ → ℤ → ℤ
pos a +ℤ pos b = pos (a + b)
pos a +ℤ negsuc b = if ltb b a then pos (a - (b + 1)) else negsuc (b - a)
negsuc a +ℤ pos b = if ltb a b then pos (b - (a + 1)) else negsuc (a - b)
negsuc a +ℤ negsuc b = negsuc (a + b + 1)

-- A half word of the buffer as the `int16_t` parameter.
abbrev pub to_int16 : ℕ → ℤ
to_int16 n = if ltb n 32768 then pos n else negsuc (65535 - n)

abbrev pub clamp : Bool → ℤ → ℕ
clamp full (negsuc n) = 0
clamp full (pos n) = if ltb 4095 n || full then 4095 else n

-- `_Get_ConversionVal`, with `adc_calibrattion`.
pub get_conversion_val : ℤ → ℕ → ℕ
get_conversion_val cal val = clamp (val == 4095) (to_int16 val +ℤ cal)

-- The loop of `Get_ADC_Average` over the samples left.
pub sum_loop : ℤ → List ℕ → ℕ → ℕ
sum_loop cal [] sum = sum
sum_loop cal (x ∷ xs) sum = sum_loop cal xs (u32 (sum + get_conversion_val cal x))

-- `ADC_TIMES`, which is also the length of the buffer.
abbrev pub adc_times : ℕ
adc_times = 30

-- `Get_ADC_Average`; the quotient of the unsigned numbers is exact in a `float`.
pub get_adc_average : ℤ → List ℕ → ℕ
unfolding sum_loop
get_adc_average cal buffer = sum_loop cal buffer 0 / adc_times

-- Whether the interrupt of the analog watchdog is enabled, the count of `sem_vin`, and how often the
-- thread has measured the voltage.
pub record Watch : Type 0 where
  pub awd_enabled : Bool
  pub sem : ℕ
  pub measured : ℕ

-- What `BSP_VIN_Detection_Init` leaves.
abbrev pub started : Watch
started = record { awd_enabled = true; sem = 0; measured = 0 }

-- `ADC1_2_IRQHandler`; `ADC_GetITStatus` wants both the flag and the enabled interrupt.
pub irq_handler : Bool → Watch → Watch
irq_handler flag w =
    if flag && w.awd_enabled then record w { awd_enabled = false; sem = w.sem + 1 } else w

-- A round of `vin_thread_entry`, with the status of `rt_sem_take`; 0 is `RT_EOK`, and takes one.
pub thread_round : ℕ → Watch → Watch
thread_round result w =
    let taken = if result == 0 then record w { sem = w.sem - 1 } else w in
    if result == 0 then taken else record taken { measured = w.measured + 1 }

-- The interrupts and the rounds of the thread in any order. The thread waits without a limit, so
-- that a round stands for one that took the semaphore.
pub data Step : Type 0 where
  irq : Bool → Step
  round : Step

pub run : List Step → Watch → Watch
unfolding irq_handler thread_round
run [] w = w
run (irq flag ∷ steps) w = run steps (irq_handler flag w)
run (round ∷ steps) w = run steps (if w.sem == 0 then w else thread_round 0 w)
