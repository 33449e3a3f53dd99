-- ===== src/Lcd/Bus.antt =====
-- The serial bus to the display driver in bsp/src/bsp_lcd_1621.c: what the functions do to the
-- pins, in order.
pub mod Receiver
use ch32v303rct6_rtt_mrs.Base.{
  ℕ, zero, suc, ◌+◌, ◌*◌, ◌/◌, ◌%◌, ◌^◌, ◌==◌, Bool, true, false, List, [], ◌∷◌, ◌++◌, u8,
}
use ch32v303rct6_rtt_mrs.Flash.Driver.{Buf}
use ch32v303rct6_rtt_mrs.Lcd.Screen.{show_segment, show_icon, s5_press_timing_valves, show_open}

-- `rt_pin_write` of one of the three pins; `rt_hw_us_delay`.
pub data Event : Type 0 where
  chip_select write_clock data_line : Bool → Event
  delay : ℕ → Event

abbrev pub wr_data : ℕ
wr_data = 0xA0

abbrev pub wr_cmd : ℕ
wr_cmd = 0x80

abbrev pub buffer_len : ℕ
buffer_len = 14

-- `LCD_WriteBit`, with the bits left, from bit `i` on. `byte << i` is an `int`.
pub write_bit : ℕ → ℕ → ℕ → List Event
write_bit zero byte i = []
write_bit (suc left) byte i =
    write_clock false
    ∷ delay 1
    ∷ data_line (byte * 2 ^ i / 128 % 2 == 1)
    ∷ delay 1
    ∷ write_clock true
    ∷ delay 5
    ∷ write_bit left byte (i + 1)

-- `LCD_WriteSeg`.
pub write_seg : ℕ → ℕ → List Event
unfolding write_bit
write_seg seg_6bit com_4bit =
    chip_select false ∷ delay 1 ∷ write_bit 3 wr_data 0
    ++ (write_bit 6 (u8 (seg_6bit * 4)) 0
        ++ (write_bit 4 (u8 (com_4bit * 16)) 0 ++ (chip_select true ∷ [])))

-- `LCD_WriteCmd`.
pub write_cmd : ℕ → List Event
unfolding write_bit
write_cmd cmd =
    chip_select false ∷ delay 1 ∷ write_bit 3 wr_cmd 0
    ++ (write_bit 8 cmd 0 ++ (write_bit 1 0 0 ++ (chip_select true ∷ [])))

-- `LCD_Refresh`, with the segments left.
pub refresh_loop : ℕ → Buf → ℕ → List Event
refresh_loop zero screen i = []
refresh_loop (suc left) screen i = write_seg i (screen i) ++ refresh_loop left screen (i + 1)

pub refresh : Buf → List Event
refresh screen = refresh_loop buffer_len screen 0

-- `LCD_Clear`: the buffer and what it sends.
abbrev pub cleared : Buf
cleared i = 0

pub clear : Buf → Buf × List Event
clear screen = (cleared, refresh cleared)

-- `LCD_Init`, after the modes of the pins are set.
pub init : Buf → Buf × List Event
init screen =
    let commands =
      write_cmd 0x01
      ++ (write_cmd 0x2B ++ (write_cmd 0x17 ++ (write_cmd 0x05 ++ write_cmd 0x03))) in
    let (empty, sent) = clear screen in
    let first = show_icon s5_press_timing_valves show_open empty in
    (
      first,
      chip_select true ∷ write_clock true ∷ data_line true ∷ delay 1 ∷ commands
          ++ (sent ++ (delay 1 ∷ refresh first)),
    )
