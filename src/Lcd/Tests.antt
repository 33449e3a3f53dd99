-- ===== src/Lcd/Tests.antt =====
-- Concrete screens.
use ch32v303rct6_rtt_mrs.Base.{◌/◌, ◌%◌, leb, if◌then◌else◌, true, false, [], get_or, arith, ◌≡◌}
use ch32v303rct6_rtt_mrs.Flash.Driver.{Buf}
use ch32v303rct6_rtt_mrs.Lcd.Screen.{
  com1, com4, show_open, show_pressure, kpa_num1, kpa_num2, kpa_num3,
}
use ch32v303rct6_rtt_mrs.Lcd.Screen.Segments.{IsScreen, lit}
use ch32v303rct6_rtt_mrs.Lcd.Screen.Digits.{codes, shown}
use ch32v303rct6_rtt_mrs.Lcd.Screen.Numbers.{show_pressure_lem}
use ch32v303rct6_rtt_mrs.Lcd.Bus.{buffer_len, refresh}
use ch32v303rct6_rtt_mrs.Lcd.Bus.Receiver.{words, screen_words, words-refresh}

-- Every segment lit.
abbrev full : Buf
full i = 15

full-IsScreen : IsScreen full
full-IsScreen i = omega arith

show_pressure_lem_example :
    let s = show_pressure 12345 show_open full in
    (shown s kpa_num1 ≡ (if leb 10000 12345 then get_or codes (12345 / 10000) 0 else 0))
    × (shown s kpa_num2 ≡ get_or codes (12345 / 1000 % 10) 0)
    × (shown s kpa_num3 ≡ get_or codes (12345 / 100 % 10) 0)
    × (lit s 4 com1 ≡ true)
    × (lit s 7 com4 ≡ true)
show_pressure_lem_example = show_pressure_lem 12345 full (omega arith) full-IsScreen

words-refresh_example : words true false [] (refresh full) ≡ screen_words buffer_len full 0 []
words-refresh_example = words-refresh full false full-IsScreen
