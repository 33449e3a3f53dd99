-- ===== src/Rtc/Start.antt =====
-- bsp/src/bsp_rtc.c: the start of the real-time clock, `RTC_First_Init` and `BSP_RTC_Init`.
use ch32v303rct6_rtt_mrs.Base.{
  ℕ, zero, suc, ◌+◌, ◌≤◌, ◌<◌, Bool, true, false, ◌||◌, not, leb, ◌==◌, if◌then◌else◌, arith, ◌≡◌,
  refl, ◌∙◌, Bool-cases, inl, inr,
}

-- The backup register BKP_DR1, which outlasts a reset, the prescaler of the counter, and whether the
-- oscillator and the clock are on.
pub record State : Type 0 where
  pub backup : ℕ
  pub prescaler : ℕ
  pub lse_on : Bool
  pub rtc_on : Bool

-- The wait for the oscillator: the polls that are left, and `temp`. Its flag at each poll is given.
pub wait_lse : (ℕ → Bool) → ℕ → ℕ → ℕ
wait_lse ready zero temp = temp
wait_lse ready (suc left) temp =
    let later = wait_lse ready left (suc temp) in if ready temp then temp else later

-- `RTC_FIRST_INIT_VALUE`.
abbrev pub first_init_value : ℕ
first_init_value = 0x1314

-- `RTC_First_Init`.
pub first_init : (ℕ → Bool) → State → ℕ × State
unfolding wait_lse
first_init ready s =
    let on = record s { lse_on = true } in
    if leb 250 (wait_lse ready 250 0)
    then (1, on)
    else (0, record on { rtc_on = true; prescaler = 32767; backup = first_init_value })

-- The start of `BSP_RTC_Init`, with the oscillator's flag as it is at first.
unfoldable pub rtc_init : Bool → (ℕ → Bool) → State → State
unfolding first_init
rtc_init lse_ready ready s =
    if not lse_ready || not (s.backup == first_init_value)
    then (first_init ready s).1
    else record s { rtc_on = true }

-- The mark in the backup register stands for a prescaler that is set.
pub record IsMarked (s : State) : Type 0 where
  pub marked : s.backup ≡ first_init_value → s.prescaler ≡ 32767

wait_lse_found :
    (ready : ℕ → Bool) (left temp k : ℕ)
    → temp ≤ k
    → k < temp + left
    → ready k ≡ true
    → wait_lse ready left temp < temp + left
unfolding wait_lse
wait_lse_found ready zero temp k a b r = absurd (omega arith)
wait_lse_found ready (suc left) temp k a b r = elim (Bool-cases (ready temp)) [
  | inl e ↦ rw e (omega arith)
  | inr e ↦
      let later : temp < k = ground arith in
      let ih = wait_lse_found ready left (suc temp) k later (omega arith) r in
      rw e (omega (arith, ih))
]

wait_lse_lost :
    (ready : ℕ → Bool) (left temp : ℕ)
    → ((k : ℕ) → ready k ≡ false)
    → wait_lse ready left temp ≡ temp + left
unfolding wait_lse
wait_lse_lost ready zero temp never = omega arith
wait_lse_lost ready (suc left) temp never =
    rw (never temp) (wait_lse_lost ready left (suc temp) never ∙ omega arith)

pub rtc_init-IsMarked :
    (lse_ready : Bool) (ready : ℕ → Bool) (k : ℕ) (s : State)
    → IsMarked s
    → k < 250
    → ready k ≡ true
    → let s' = rtc_init lse_ready ready s in
      (s'.backup ≡ first_init_value) × (s'.prescaler ≡ 32767) × (s'.rtc_on ≡ true)
unfolding rtc_init first_init
rtc_init-IsMarked lse_ready ready k s m small found =
    let early = wait_lse_found ready 250 0 k (omega arith) (omega arith) found in
    let seen : leb 250 (wait_lse ready 250 0) ≡ false = ground (arith, early) in
    rw seen (ground (arith, m.marked))

pub first_init_lost :
    (ready : ℕ → Bool) (s : State)
    → ((k : ℕ) → ready k ≡ false)
    → first_init ready s ≡ (1, record s { lse_on = true })
unfolding first_init
first_init_lost ready s never = rw (wait_lse_lost ready 250 0 never) refl
