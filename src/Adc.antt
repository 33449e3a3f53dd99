-- ===== src/Adc.antt =====
-- libraries/hal_drivers/drv_adc.c: a conversion of one channel. The headers define no
-- `ADC_CHANNEL_16` and no higher one, so that the cases under these names are left out.
pub mod Channels
pub mod Tests
use ch32v303rct6_rtt_mrs.Base.{
  ℕ, zero, suc, ◌+◌, Bool, true, false, Option, none, some, ltb, leb, ◌==◌, if◌then◌else◌,
}

-- `RT_EOK` and `-RT_ERROR`.
pub data Status : Type 0 where
  ok error : Status

-- `ch32_adc_get_channel`: the constants `ADC_Channel_0` to `ADC_Channel_15` are 0 to 15.
pub get_channel : ℕ → ℕ
get_channel channel = if leb channel 15 then channel else 0

-- The converter, with the vendor's calls: the channel is set, the conversion is started, its end is
-- polled, and the value is read.
pub record Converter (S : Type 0) : Type 0 where
  pub enable : Bool → S → S
  pub regular_channel : ℕ → S → S
  pub start : S → S
  pub end_of_conversion : S → Bool × S
  pub value : S → ℕ
  pub clear_end : S → S

module _ {S : Type 0} (adc : Converter S) where
  -- `while (!ADC_GetFlagStatus(...))`, over the polls allowed.
  pub wait_end : ℕ → S → Option S
  wait_end zero s = none
  wait_end (suc fuel) s =
      let (done, s') = adc.end_of_conversion s in
      let later = wait_end fuel s' in if done then some s' else later

  -- `ch32_adc_enabled`.
  pub enabled : Bool → S → S
  enabled on s = adc.enable on s

  -- `ch32_get_adc_value`: the status and, if there is one, the value; `none` where the conversion does
  -- not end.
  pub get_adc_value : ℕ → ℕ → S → Option (Status × Option ℕ × S)
  unfolding get_channel wait_end
  get_adc_value fuel channel s =
      if channel == 16
      then some (error, none, s)
      else if leb channel 17
      then elim (wait_end fuel (adc.start (adc.regular_channel (get_channel channel) s))) [
        | none ↦ none
        | some s' ↦ some (ok, some (adc.value s'), adc.clear_end s')
      ]
      else some (error, none, s)
