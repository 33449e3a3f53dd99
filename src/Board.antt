-- ===== src/Board.antt =====
-- board/board.c: the system timer that the start of the board sets going, and its interrupt.
pub mod Wait
pub mod Tests
use ch32v303rct6_rtt_mrs.Base.{ℕ, ◌+◌, ◌-◌, ◌/◌, ◌^◌, Bool, true, false, u32}

-- The registers of the system timer, and its and the software interrupt's priority, and whether they
-- are enabled.
pub record Systick : Type 0 where
  pub ctlr : ℕ
  pub sr : ℕ
  pub cnt : ℕ
  pub cmp : ℕ
  pub tick_priority : ℕ
  pub software_priority : ℕ
  pub tick_enabled : Bool
  pub software_enabled : Bool

-- `_SysTick_Config`: the counter counts down, and starts over by itself.
pub systick_config : ℕ → Systick → Systick
systick_config ticks t = record t {
  ctlr = 0x1F;
  sr = 0;
  cnt = 0;
  cmp = u32 (ticks + 2 ^ 32 - 1);
  tick_priority = 0xF0;
  software_priority = 0xF0;
  tick_enabled = true;
  software_enabled = true;
}

-- `RT_TICK_PER_SECOND`.
abbrev pub tick_per_second : ℕ
tick_per_second = 1000

-- The timer in `rt_hw_board_init`, with `SystemCoreClock`.
pub start_timer : ℕ → Systick → Systick
unfolding systick_config
start_timer core_clock t = systick_config (core_clock / tick_per_second) t

-- `SysTick_Handler`, with the kernel's tick.
pub systick_handler : {K : Type 0} → (K → K) → Systick × K → Systick × K
systick_handler tick_increase (t, k) = (record t { sr = 0 }, tick_increase k)
