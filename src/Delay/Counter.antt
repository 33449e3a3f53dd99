-- ===== src/Delay/Counter.antt =====
-- The waits on a counter that counts down from its reload value, as `_SysTick_Config` sets it up.
use ch32v303rct6_rtt_mrs.Base.{
  ap, ◌∙◌, ℕ, zero, suc, ◌+◌, ◌-◌, ◌^◌, ◌≤◌, ◌<◌, false, some, leb, ◌==◌, if◌then◌else◌, u32, arith,
  ◌≡◌, refl, Bool-cases, inl, inr,
}
use ch32v303rct6_rtt_mrs.Delay.{down_delta, wait, ticks_of, us_delay, udelay}

-- Between two reads `gap` cycles pass, at least two and fewer than a whole period.
pub record IsDownCounter (reload : ℕ) (sample gap : ℕ → ℕ) : Type 0 where
  pub small : reload < 2 ^ 31
  pub start : sample 0 ≤ reload
  pub moves : (k : ℕ) → 2 ≤ gap k
  pub within : (k : ℕ) → gap k ≤ reload
  pub counts :
      (k : ℕ)
      → sample (suc k)
        ≡ (if leb (gap k) (sample k) then sample k - gap k else sample k + reload + 1 - gap k)

-- The cycles from read `i` on, over `n` reads.
pub elapsed : (ℕ → ℕ) → ℕ → ℕ → ℕ
elapsed gap i zero = 0
elapsed gap i (suc n) = gap i + elapsed gap (suc i) n

wait-done :
    (delta : ℕ → ℕ → ℕ) (ticks fuel : ℕ) (sample : ℕ → ℕ) (i told tcnt count : ℕ)
    → (sample i == told) ≡ false
    → u32 (tcnt + delta told (sample i)) ≡ count
    → ticks ≤ count
    → wait delta ticks (suc fuel) sample i told tcnt ≡ some i
unfolding wait
wait-done delta ticks fuel sample i told tcnt count a b c = ground arith

wait-next :
    (delta : ℕ → ℕ → ℕ) (ticks fuel : ℕ) (sample : ℕ → ℕ) (i told tcnt count : ℕ)
    → (sample i == told) ≡ false
    → u32 (tcnt + delta told (sample i)) ≡ count
    → count < ticks
    → wait delta ticks (suc fuel) sample i told tcnt
      ≡ wait delta ticks fuel sample (suc i) (sample i) count
unfolding wait
wait-next delta ticks fuel sample i told tcnt count a b c =
    let open_left : leb ticks count ≡ false = ground arith in rw (a, b, open_left) refl

module _ (reload : ℕ) (sample gap : ℕ → ℕ) (c : IsDownCounter reload sample gap) where
  sample_bound : (k : ℕ) → sample k ≤ reload
  sample_bound zero = c.start
  sample_bound (suc k) = ground (arith, c.counts k, c.moves k, c.within k, sample_bound k)

  -- A round sees a change, and counts all cycles since the last read but one at most.
  round :
      (k : ℕ)
      → ((sample (suc k) == sample k) ≡ false)
        × (1 ≤ down_delta reload (sample k) (sample (suc k)))
        × (down_delta reload (sample k) (sample (suc k)) ≤ gap k)
  round k = ground (arith, c.counts k, c.moves k, c.within k, sample_bound k, c.small)

  wait_ends :
      (ticks fuel k tcnt : ℕ)
      → ticks < 2 ^ 31
      → tcnt ≤ ticks
      → ticks < fuel + tcnt
      → (n : ℕ) × (wait (down_delta reload) ticks fuel sample (suc k) (sample k) tcnt
          ≡ some (suc (n + k)))
        × (n + tcnt ≤ ticks)
        × (ticks ≤ tcnt + elapsed gap k (suc n))
  unfolding elapsed
  wait_ends ticks zero k tcnt a b h = absurd (omega arith)
  wait_ends ticks (suc fuel) k tcnt a b h =
      let (changed, least, most) = round k in
      let delta = down_delta reload (sample k) (sample (suc k)) in
      let gap_small : gap k ≤ reload = c.within k in
      let exact : u32 (tcnt + delta) ≡ tcnt + delta =
        omega (arith, c.small, least, most, gap_small) in
      elim (Bool-cases (leb ticks (tcnt + delta))) [
        | inl done ↦
            let last : ticks ≤ tcnt + delta = ground arith in
            let run =
              wait-done (down_delta reload) ticks fuel sample (suc k) (sample k) tcnt (tcnt + delta)
                changed exact last in
            (0, run ∙ ap some (omega arith), omega arith, omega (arith, last, most))
        | inr more ↦
            let short : tcnt + delta < ticks = ground arith in
            let step =
              wait-next (down_delta reload) ticks fuel sample (suc k) (sample k) tcnt (tcnt + delta)
                changed exact short in
            let (n, run, rounds, reached) =
              wait_ends ticks fuel (suc k) (tcnt + delta) a (omega arith) (omega (arith, least)) in
            let shift : suc (n + suc k) ≡ suc (suc n + k) = omega arith in
            (
              suc n,
              step ∙ (run ∙ ap some shift),
              omega (arith, rounds, least),
              omega (arith, reached, most),
            )
      ]

  -- On a counter that counts down from the reload value, whose reads lie at least two cycles and
  -- less than a period apart, rt_hw_us_delay of fewer than 2 ^ 31 cycles ends, after at most as
  -- many further reads as there are cycles to wait, and not before these cycles have passed.
  pub us_delay_ends :
      (per_second us fuel : ℕ)
      → ticks_of per_second reload us < 2 ^ 31
      → ticks_of per_second reload us < fuel
      → (n : ℕ) × (us_delay per_second reload us sample fuel ≡ some (suc n))
        × (n ≤ ticks_of per_second reload us)
        × (ticks_of per_second reload us ≤ elapsed gap 0 (suc n))
  unfolding us_delay
  us_delay_ends per_second us fuel a b =
      let ticks = ticks_of per_second reload us in
      let (n, run, rounds, reached) = wait_ends ticks fuel 0 0 a (omega arith) (omega arith) in
      let shift : suc (n + 0) ≡ suc n = omega arith in
      (n, run ∙ ap some shift, omega (arith, rounds), omega (arith, reached))

  -- On such a counter ch32_udelay returns at its first read, however many cycles it was to wait,
  -- if the counter has not started over by then and the cycles to wait and those that passed fit
  -- into one period together.
  pub udelay_short :
      (per_second us fuel : ℕ)
      → gap 0 ≤ sample 0
      → gap 0 + ticks_of per_second reload us ≤ reload
      → udelay per_second reload us sample (suc fuel) ≡ some 1
  unfolding udelay wait
  udelay_short per_second us fuel first short =
      ground (arith, c.counts 0, c.moves 0, c.within 0, c.start, c.small)
