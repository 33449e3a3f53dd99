-- ===== src/Delay/Since.antt =====
-- The wait of drv_common.c, which compares every read with the first one.
use ch32v303rct6_rtt_mrs.Base.{
  ℕ, zero, suc, ◌*◌, ◌/◌, ◌%◌, ◌^◌, ◌≤◌, ◌<◌, true, false, none, some, ltb, arith, ◌≡◌, refl,
}
use ch32v303rct6_rtt_mrs.Delay.{since_start, poll_since, us_delay_since}

since_start_bound :
    (reload start now : ℕ)
    → reload < 2 ^ 32
    → start ≤ reload
    → now ≤ reload
    → since_start reload start now ≤ reload
since_start_bound reload start now a b c = ground arith

since_start_same :
    (reload start now : ℕ)
    → reload < 2 ^ 32
    → start ≤ reload
    → now ≡ start
    → since_start reload start now ≡ reload
since_start_same reload start now a b e = ground arith

ltb_above : (a r b : ℕ) → a ≤ r → r < b → ltb a b ≡ true
ltb_above a r b p q = ground arith

ltb_below : (a b : ℕ) → b ≤ a → ltb a b ≡ false
ltb_below a b p = ground arith

poll_since_stuck :
    (reload start total : ℕ) (sample : ℕ → ℕ) (fuel i : ℕ)
    → reload < 2 ^ 32
    → start ≤ reload
    → ((k : ℕ) → sample k ≤ reload)
    → reload < total
    → poll_since reload start total sample fuel i ≡ none
unfolding poll_since
poll_since_stuck reload start total sample zero i a b c d = refl
poll_since_stuck reload start total sample (suc fuel) i a b c d =
    let bound = since_start_bound reload start (sample i) a b (c i) in
    let again : ltb (since_start reload start (sample i)) total ≡ true =
      ltb_above (since_start reload start (sample i)) reload total bound d in
    rw again (poll_since_stuck reload start total sample fuel (suc i) a b c d)

-- On a counter that never reads more than its reload value, below 2 ^ 32, rt_hw_us_delay of
-- drv_common.c with more ticks to wait than the reload value does not return, however many reads
-- it makes.
pub us_delay_since_stuck :
    (core_clock reload us fuel : ℕ) (sample : ℕ → ℕ)
    → reload < 2 ^ 32
    → ((k : ℕ) → sample k ≤ reload)
    → reload < us * (core_clock / 8000000) % 2 ^ 64
    → us_delay_since core_clock reload us sample fuel ≡ none
unfolding us_delay_since
us_delay_since_stuck core_clock reload us fuel sample a b c =
    poll_since_stuck reload (sample 0) (us * (core_clock / 8000000) % 2 ^ 64) sample fuel 1 a (b 0)
      b c

pub us_delay_since_short :
    (core_clock reload us fuel : ℕ) (sample : ℕ → ℕ)
    → reload < 2 ^ 32
    → sample 0 ≤ reload
    → us * (core_clock / 8000000) % 2 ^ 64 ≤ reload
    → sample 1 ≡ sample 0
    → us_delay_since core_clock reload us sample (suc fuel) ≡ some 1
unfolding us_delay_since poll_since
us_delay_since_short core_clock reload us fuel sample a b c e =
    let total = us * (core_clock / 8000000) % 2 ^ 64 in
    rw (since_start_same reload (sample 0) (sample 1) a b e, ltb_below reload total c) refl
