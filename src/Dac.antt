-- ===== src/Dac.antt =====
-- libraries/hal_drivers/drv_dac.c. The converter is a parameter.
use ch32v303rct6_rtt_mrs.Base.{ℕ, Bool, true, false, ◌&&◌, leb, ltb, ◌==◌, if◌then◌else◌}

-- `RT_EOK` and `-RT_ERROR`.
pub data Status : Type 0 where
  ok error : Status

-- `DAC_Cmd`, `DAC_SetChannel1Data` and `DAC_SetChannel2Data`, the values aligned to the right.
pub record Converter (S : Type 0) : Type 0 where
  pub enable : ℕ → Bool → S → S
  pub set_channel1 : ℕ → S → S
  pub set_channel2 : ℕ → S → S

module _ {S : Type 0} (dac : Converter S) where
  -- `ch32_dac_enabled` and `ch32_dac_disabled`, of the device's own channel.
  pub enabled : ℕ → S → S
  enabled own s = dac.enable own true s

  pub disabled : ℕ → S → S
  disabled own s = dac.enable own false s

  -- `ch32_set_dac_value`.
  pub set_dac_value : ℕ → ℕ → S → Status × S
  set_dac_value channel value s =
      if leb channel 2 && ltb 0 channel
      then (ok, if channel == 1 then dac.set_channel1 value s else dac.set_channel2 value s)
      else (error, s)

-- `ch32_dac_get_resolution`.
pub get_resolution : ℕ
get_resolution = 12
