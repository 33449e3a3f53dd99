-- ===== src/Adc/Channels.antt =====
-- What becomes of the channels from 16 on.
use ch32v303rct6_rtt_mrs.Base.{
  ℕ, ◌≤◌, false, none, some, leb, ◌==◌, if◌then◌else◌, arith, ◌≡◌, refl, Bool-cases, inl, inr,
}
use ch32v303rct6_rtt_mrs.Adc.{Converter, error, get_channel, get_adc_value}

pub get_adc_value_high :
    {S : Type 0} (adc : Converter S) (fuel channel : ℕ) (s : S)
    → 16 ≤ channel
    → get_adc_value adc fuel channel s
      ≡ (if channel == 17 then get_adc_value adc fuel 0 s else some (error, none, s))
unfolding get_adc_value get_channel
get_adc_value_high adc fuel channel s h = elim (Bool-cases (channel == 17)) [
  | inl e ↦ let same : channel ≡ 17 = ground arith in rw (same) refl
  | inr e ↦ elim (Bool-cases (channel == 16)) [
    | inl f ↦ rw (e, f) refl
    | inr f ↦ let far : leb channel 17 ≡ false = ground arith in rw (e, f, far) refl
  ]
]
