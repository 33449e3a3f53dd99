-- ===== src/Adc/Tests.antt =====
-- A converter that is done at once, and whose value is its channel.
use ch32v303rct6_rtt_mrs.Base.{ℕ, true, some, none, ◌==◌, if◌then◌else◌, arith, ◌≡◌}
use ch32v303rct6_rtt_mrs.Adc.{Converter, error, get_adc_value}
use ch32v303rct6_rtt_mrs.Adc.Channels.{get_adc_value_high}

abbrev prompt : Converter ℕ
prompt = record {
  enable = λ on s. s;
  regular_channel = λ c s. c;
  start = λ s. s;
  end_of_conversion = λ s. (true, s);
  value = λ s. s;
  clear_end = λ s. s;
}

get_adc_value_high_example :
    get_adc_value prompt 5 17 9
    ≡ (if 17 == 17 then get_adc_value prompt 5 0 9 else some (error, none, 9))
get_adc_value_high_example = get_adc_value_high prompt 5 17 9 (omega arith)
