-- ===== src/Lcd/Screen.antt =====
-- The screen buffer of bsp/src/bsp_lcd_1621.c: segments, icons, digits, and the two numbers shown.
pub mod Segments
pub mod Seven
pub mod Digits
pub mod Numbers
use Prim.Native.Nat.{bit_and, bit_or}
use ch32v303rct6_rtt_mrs.Base.{ℕ, zero, suc, ◌+◌, ◌/◌, ◌%◌, ◌==◌, leb, if◌then◌else◌, u8}
use ch32v303rct6_rtt_mrs.Flash.Driver.{Buf}

-- `TeLcdCom` and `TeLcdSegmentShowControl`; a `TeLcdSeg` is its number.
pub data Com : Type 0 where
  com1 com2 com3 com4 : Com

pub data Mode : Type 0 where
  show_close show_open : Mode

-- `TeLcdIconIndex`.
pub data Icon : Type 0 where
  s1_over_press s2_under_press s3_over_current s4_leakage s5_press_timing_valves s6_network
        s7_leak_hunting s8_fault s9_alarm :
      Icon
  l1_line l2_line l3_line l4_line : Icon
  k1_self_closing_valve_on k2_self_closing_valve_off k3_hand_valve_on k4_hand_valve_off : Icon
  icon_point icon_kpa icon_min : Icon

-- `TeLcdNumIndex`.
abbrev pub kpa_num1 : ℕ
kpa_num1 = 1

abbrev pub kpa_num2 : ℕ
kpa_num2 = 3

abbrev pub kpa_num3 : ℕ
kpa_num3 = 5

abbrev pub min_num1 : ℕ
min_num1 = 9

abbrev pub min_num2 : ℕ
min_num2 = 11

-- The new value of one byte of the buffer.
pub masked : Com → Mode → ℕ → ℕ
masked com1 show_close x = bit_and x 0xF7
masked com2 show_close x = bit_and x 0xFB
masked com3 show_close x = bit_and x 0xFD
masked com4 show_close x = bit_and x 0xFE
masked com1 show_open x = bit_or x 8
masked com2 show_open x = bit_or x 4
masked com3 show_open x = bit_or x 2
masked com4 show_open x = bit_or x 1

-- `LCD_ShowSegment`.
pub show_segment : ℕ → Com → Mode → Buf → Buf
unfolding masked
show_segment seg line mode screen i = if i == seg then masked line mode (screen i) else screen i

-- `LCD_ShowIcon`.
pub show_icon : Icon → Mode → Buf → Buf
show_icon s1_over_press mode screen = show_segment 0 com4 mode screen
show_icon s2_under_press mode screen = show_segment 0 com3 mode screen
show_icon s3_over_current mode screen = show_segment 0 com2 mode screen
show_icon s4_leakage mode screen = show_segment 0 com1 mode screen
show_icon s5_press_timing_valves mode screen = show_segment 2 com1 mode screen
show_icon s6_network mode screen = show_segment 7 com3 mode screen
show_icon s7_leak_hunting mode screen = show_segment 7 com2 mode screen
show_icon s8_fault mode screen = show_segment 8 com4 mode screen
show_icon s9_alarm mode screen = show_segment 13 com4 mode screen
show_icon l1_line mode screen = show_segment 6 com1 mode screen
show_icon l2_line mode screen = show_segment 10 com1 mode screen
show_icon l3_line mode screen = show_segment 8 com1 mode screen
show_icon l4_line mode screen = show_segment 13 com1 mode screen
show_icon k1_self_closing_valve_on mode screen = show_segment 8 com2 mode screen
show_icon k2_self_closing_valve_off mode screen = show_segment 8 com3 mode screen
show_icon k3_hand_valve_on mode screen = show_segment 13 com2 mode screen
show_icon k4_hand_valve_off mode screen = show_segment 13 com3 mode screen
show_icon icon_point mode screen = show_segment 4 com1 mode screen
show_icon icon_kpa mode screen = show_segment 7 com4 mode screen
show_icon icon_min mode screen = show_segment 12 com1 mode screen

-- The seven calls for the segments A to G of a digit.
pub show_seven : ℕ → Mode → Mode → Mode → Mode → Mode → Mode → Mode → Buf → Buf
show_seven index a b c d e f g screen = show_segment (index + 1) com3 g (
    show_segment index com3 f (
      show_segment index com2 e (
        show_segment index com1 d (
          show_segment (index + 1) com2 c
            (show_segment (index + 1) com4 b (show_segment index com4 a screen))))))

-- `LCD_ShowNum`: a number above 9 changes nothing.
pub show_num : ℕ → ℕ → Mode → Buf → Buf
unfolding show_seven
show_num index num show_close screen =
    show_seven index show_close show_close show_close show_close show_close show_close show_close
      screen
show_num index num show_open screen =
    if num == 0
    then show_seven index show_open show_open show_open show_open show_open show_open show_close
        screen
    else if num == 1
    then show_seven index show_close show_open show_open show_close show_close show_close show_close
        screen
    else if num == 2
    then show_seven index show_open show_open show_close show_open show_open show_close show_open
        screen
    else if num == 3
    then show_seven index show_open show_open show_open show_open show_close show_close show_open
        screen
    else if num == 4
    then show_seven index show_close show_open show_open show_close show_close show_open show_open
        screen
    else if num == 5
    then show_seven index show_open show_close show_open show_open show_close show_open show_open
        screen
    else if num == 6
    then show_seven index show_open show_close show_open show_open show_open show_open show_open
        screen
    else if num == 7
    then show_seven index show_open show_open show_open show_close show_close show_close show_close
        screen
    else if num == 8
    then show_seven index show_open show_open show_open show_open show_open show_open show_open
        screen
    else if num == 9
    then show_seven index show_open show_open show_open show_open show_close show_open show_open
        screen
    else screen

-- `LCD_ShowPressure`, in Pa.
pub show_pressure : ℕ → Mode → Buf → Buf
show_pressure pressure mode screen =
    let cleared =
      show_num kpa_num1 0 show_close (show_icon icon_kpa mode (show_icon icon_point mode screen)) in
    let num_1 = u8 (pressure / 10000) in
    let num_2 =
      if leb 10000 pressure
      then pressure / 1000 % 10
      else if leb 1000 pressure
      then pressure / 1000
      else 0 in
    let num_3 =
      if leb 10000 pressure
      then pressure / 100 % 10
      else if leb 1000 pressure
      then pressure / 100 % 10
      else if leb 100 pressure
      then pressure / 100
      else 0 in
    let tens = if leb 10000 pressure then show_num kpa_num1 num_1 mode cleared else cleared in
    show_num kpa_num3 num_3 mode (show_num kpa_num2 num_2 mode tens)

-- `LCD_ShowTime`, in minutes.
pub show_time : ℕ → Mode → Buf → Buf
show_time time mode screen =
    let lit = show_icon icon_min mode screen in
    let tens =
      if leb 10 time
      then show_num min_num1 (time / 10) mode lit
      else show_num min_num1 0 show_close lit in
    show_num min_num2 (time % 10) mode tens
