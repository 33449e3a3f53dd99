-- ===== src/Vin/Average.antt =====
-- The average of the conversions lies between them.
use native.Mathlib.Nat.{mul-suc}
use ch32v303rct6_rtt_mrs.Base.{
  ap, ℕ, ◌+◌, ◌*◌, ◌^◌, ◌≤◌, ◌<◌, Bool, List, [], ◌∷◌, ◌==◌, u32, length, arith, ◌≡◌,
}
use ch32v303rct6_rtt_mrs.Vin.{
  ℤ, pos, negsuc, ◌+ℤ◌, to_int16, clamp, get_conversion_val, sum_loop, get_adc_average,
}

clamp_bound : (full : Bool) (z : ℤ) → clamp full z ≤ 4095
clamp_bound full (pos n) = ground arith
clamp_bound full (negsuc n) = omega arith

get_conversion_val_bound : (cal : ℤ) (val : ℕ) → get_conversion_val cal val ≤ 4095
unfolding get_conversion_val
get_conversion_val_bound cal val = clamp_bound (val == 4095) (to_int16 val +ℤ cal)

-- The conversions of the samples all lie in a range.
abbrev pub AreWithin : ℕ → ℕ → ℤ → List ℕ → Type 0
AreWithin lo hi cal [] = Unit {0}
AreWithin lo hi cal (x ∷ xs) =
    (lo ≤ get_conversion_val cal x) × (get_conversion_val cal x ≤ hi) × AreWithin lo hi cal xs

sum_loop_bounds :
    (lo hi : ℕ) (cal : ℤ) (xs : List ℕ) (sum : ℕ)
    → AreWithin lo hi cal xs
    → sum + 4095 * length xs < 2 ^ 32
    → (sum + lo * length xs ≤ sum_loop cal xs sum) × (sum_loop cal xs sum ≤ sum + hi * length xs)
unfolding sum_loop
sum_loop_bounds lo hi cal [] sum w b = (omega arith, omega arith)
sum_loop_bounds lo hi cal (x ∷ xs) sum (low, high, rest) b =
    let v = get_conversion_val cal x in
    let small = get_conversion_val_bound cal x in
    let exact : u32 (sum + v) ≡ sum + v = omega (arith, small) in
    let (below, above) = sum_loop_bounds lo hi cal xs (sum + v) rest (omega (arith, small)) in
    rw (exact, mul-suc lo (length xs), mul-suc hi (length xs))
      (omega (arith, below, low), omega (arith, above, high))

-- For a buffer of thirty samples, whatever the calibration value, Get_ADC_Average lies between
-- any two bounds that the calibrated samples all lie between.
pub get_adc_average_bounds :
    (lo hi : ℕ) (cal : ℤ) (buffer : List ℕ)
    → length buffer ≡ 30
    → AreWithin lo hi cal buffer
    → (lo ≤ get_adc_average cal buffer) × (get_adc_average cal buffer ≤ hi)
unfolding get_adc_average
get_adc_average_bounds lo hi cal buffer n w =
    let (below, above) = sum_loop_bounds lo hi cal buffer 0 w (omega (arith, n)) in
    let low : lo * length buffer ≡ lo * 30 = ap (λ (k : ℕ). lo * k) n in
    let high : hi * length buffer ≡ hi * 30 = ap (λ (k : ℕ). hi * k) n in
    (omega (arith, below, low), omega (arith, above, high))
