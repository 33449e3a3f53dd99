-- ===== src/Board/Wait.antt =====
-- The wait of board/board.c in microseconds.
use ch32v303rct6_rtt_mrs.Base.{
  ap, ◌∙◌, ℕ, suc, ◌+◌, ◌-◌, ◌*◌, ◌/◌, ◌^◌, ◌≤◌, ◌<◌, some, u32, arith, ◌≡◌,
}
use ch32v303rct6_rtt_mrs.Board.{Systick, start_timer, tick_per_second}
use ch32v303rct6_rtt_mrs.Delay.{ticks_of, us_delay}
use ch32v303rct6_rtt_mrs.Delay.Counter.{IsDownCounter, elapsed, us_delay_ends}

product_less_one : (us cmp : ℕ) → us * (cmp + 1) ≡ us * cmp + us
product_less_one us cmp = grind arith

-- With the timer as rt_hw_board_init starts it, for a core clock from 1000 Hz to 2 ^ 32 Hz, on a
-- counter whose reads lie at least two cycles and less than a period apart, and where the cycles
-- of a tick times the microseconds are below 2 ^ 32: rt_hw_us_delay ends, and the cycles that
-- have passed are at least the microseconds times a thousandth of the cycles of a tick, but for
-- one cycle in a thousand microseconds and one cycle more.
pub us_delay-start_timer :
    (core_clock us fuel : ℕ) (sample gap : ℕ → ℕ) (t : Systick)
    → 1000 ≤ core_clock
    → core_clock < 2 ^ 32
    → IsDownCounter (start_timer core_clock t).cmp sample gap
    → us * (core_clock / 1000) < 2 ^ 32
    → us * (core_clock / 1000) < fuel
    → (n : ℕ) × (us_delay tick_per_second (start_timer core_clock t).cmp us sample fuel
        ≡ some (suc n))
      × (us * (core_clock / 1000) < 1000 * elapsed gap 0 (suc n) + us + 1000)
unfolding start_timer
us_delay-start_timer core_clock us fuel sample gap t low high c small enough =
    let cmp = u32 (core_clock / 1000 + 2 ^ 32 - 1) in
    let next : core_clock / 1000 ≡ cmp + 1 = omega arith in
    let whole : us * (core_clock / 1000) ≡ us * cmp + us =
      ap (λ m. us * m) next ∙ product_less_one us cmp in
    let ticks : ticks_of 1000 cmp us ≡ us * cmp / 1000 = omega (arith, whole) in
    let (n, run, rounds, reached) =
      us_delay_ends cmp sample gap c 1000 us fuel (omega (arith, ticks, whole))
        (omega (arith, ticks, whole)) in
    (n, run, omega (arith, reached, ticks, whole))
