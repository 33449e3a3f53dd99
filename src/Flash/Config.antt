-- ===== src/Flash/Config.antt =====
-- The configuration page of bsp/src/bsp_flash.c: the two time limits, the alarm value, and the
-- first start. A change reads the page into RAM, erases it, and writes it back.
pub mod Page
pub mod Limits
pub mod EraseAll
pub mod Start
use ch32v303rct6_rtt_mrs.Base.{
  ◌/◌, get_or, hi_byte, ◌%◌, ◌==◌, some, u8, Option, if◌then◌else◌, half_word, lo_byte, ◌>>=◌, ℕ,
  zero, suc, ◌+◌, ◌-◌, Bool, true, false, List, [], ◌∷◌,
}
use ch32v303rct6_rtt_mrs.Rtc
use ch32v303rct6_rtt_mrs.Flash.Hal.{Mem, Chip, FlashHal}
use ch32v303rct6_rtt_mrs.Flash.Layout.{
  Record, alarm, alarm_rcy, fault, fault_rcy, power_down, power_on, sensor_end_of_life, page_size,
  config_addr, factory_time_addr, expiration_time_addr, alarm_value_addr, init_flag_addr,
  time_frame_size,
}
use ch32v303rct6_rtt_mrs.Flash.Driver.{Buf, load16, read, write, erase_at}
use ch32v303rct6_rtt_mrs.Flash.Records.{World, erase_records}

-- `TeFlashProductTimeLimitId`; a command line may hand over another number.
pub data LimitId : Type 0 where
  factory_time expiration_time other_id : LimitId

-- `TsFlashProductTimeLimitFrame`, packed.
pub record TimeFrame : Type 0 where
  pub header : ℕ
  pub year : ℕ
  pub month : ℕ
  pub day : ℕ
  pub hour : ℕ
  pub minute : ℕ
  pub second : ℕ

abbrev pub time_bytes : TimeFrame → List ℕ
time_bytes f =
    u8 f.header
    ∷ lo_byte f.year
    ∷ hi_byte f.year
    ∷ u8 f.month
    ∷ u8 f.day
    ∷ u8 f.hour
    ∷ u8 f.minute
    ∷ u8 f.second
    ∷ []

abbrev pub time_of : Buf → TimeFrame
time_of buf = record {
  header = buf 0;
  year = half_word (buf 1) (buf 2);
  month = buf 3;
  day = buf 4;
  hour = buf 5;
  minute = buf 6;
  second = buf 7;
}

abbrev pub time_header : ℕ
time_header = 0xA5

abbrev pub value_header : ℕ
value_header = 0xA5A5

abbrev pub init_value : ℕ
init_value = 0xA2A2

-- `TuFlashMqAlarmFrame`, as its bytes.
abbrev pub value_bytes : ℕ → List ℕ
value_bytes value = 0xA5 ∷ 0xA5 ∷ lo_byte value ∷ hi_byte value ∷ []

-- The loops that lay a frame over the page buffer, with the bytes left.
pub patch : ℕ → ℕ → ℕ → List ℕ → Buf → Buf
patch zero offset i bytes buf = buf
patch (suc left) offset i bytes buf =
    patch left offset (i + 1) bytes (λ j. if j == offset + i then get_or bytes i 0 else buf j)

-- The address that `Flash_GetProductTimeLimit` reads, 0 for another id.
abbrev pub limit_addr : LimitId → ℕ
limit_addr factory_time = factory_time_addr
limit_addr expiration_time = expiration_time_addr
limit_addr other_id = 0

-- `in_page_offset` of `Flash_SetProductTimeLimit`.
abbrev pub limit_offset : LimitId → ℕ
limit_offset factory_time = factory_time_addr - config_addr
limit_offset expiration_time = expiration_time_addr - config_addr
limit_offset other_id = 0

-- `Flash_GetProductTimeLimit`: whether it is `READY`, and the caller's buffer afterwards.
pub get_time_limit : Mem → LimitId → Buf → Bool × Buf
unfolding read
get_time_limit m id buf =
    let buf' = read m (limit_addr id) buf time_frame_size in
    if limit_addr id == 0 then (false, buf) else (buf' 0 == time_header, buf')

-- `Flash_Get_AlarmLel`.
pub get_alarm_value : Mem → ℕ
unfolding read
get_alarm_value m =
    let buf = read m alarm_value_addr (λ i. 0) 4 in
    if half_word (buf 0) (buf 1) == value_header then half_word (buf 2) (buf 3) else 0

module _ (hal : FlashHal) where
  -- `Flash_ErasePage_ConfigInfo`.
  pub erase_config : Chip → Chip
  erase_config c = erase_at hal config_addr c

  -- `Flash_ErasePage_ReadConfigInfo`: the page buffer, all of which is written, and the chip.
  pub erase_read_config : Chip → Buf × Chip
  unfolding read
  erase_read_config c = (read c.mem config_addr (λ i. 0) page_size, erase_config c)

  -- `Flash_Write_ConfigInfo`.
  pub write_config : Buf → Chip → Chip
  write_config buf c = (write hal config_addr buf page_size c).1

  -- `Flash_SetProductTimeLimit`; what it reads back at the end goes to the log alone.
  pub set_time_limit : ℕ → ℕ → ℕ → ℕ → ℕ → ℕ → LimitId → Chip → Chip
  set_time_limit year month day hour minute second id c =
      let (page, c') = erase_read_config c in
      let f : TimeFrame = record {
        header = time_header;
        year = year;
        month = month;
        day = day;
        hour = hour;
        minute = minute;
        second = second;
      } in
      write_config (patch time_frame_size (limit_offset id) 0 (time_bytes f) page) c'

  -- `Flash_Set_AlarmLel`.
  pub set_alarm_value : ℕ → Chip → Chip
  set_alarm_value value c =
      let (page, c') = erase_read_config c in
      write_config (patch 4 (alarm_value_addr - config_addr) 0 (value_bytes value) page) c'

  -- `Set_FactoryRtcTime`.
  unfoldable pub set_factory_rtc_time : World → Option World
  set_factory_rtc_time w = do
    clock ← Rtc.get w.clock
    let t = clock.date_time
    some (record {
      chip = set_time_limit t.year t.month t.day t.hour t.minute t.second factory_time w.chip;
      clock = clock;
    })

  -- `BSP_Flash_EraseRecodrs`.
  pub erase_all : Chip → Chip
  erase_all c = erase_config (
      erase_records hal sensor_end_of_life (
        erase_records hal power_on (
          erase_records hal power_down (
            erase_records hal fault_rcy (
              erase_records hal fault (erase_records hal alarm_rcy (erase_records hal alarm c)))))))

  -- `BSP_Flash_Init`.
  pub init : Chip → Chip
  init c =
      let flag : List ℕ = u8 (init_value % 256) ∷ u8 (init_value / 256) ∷ [] in
      let flagged = (write hal init_flag_addr (λ i. get_or flag i 0) 2 (erase_all c)).1 in
      if load16 c.mem init_flag_addr == init_value
      then c
      else set_time_limit 2028 3 22 13 58 20 expiration_time
          (set_time_limit 2023 3 22 13 58 20 factory_time flagged)
