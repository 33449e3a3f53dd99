-- ===== src/Flash/Records.antt =====
-- The event records of bsp/src/bsp_flash.c: for each type a ring of pages, 25 records of 10 bytes
-- to a page, found again after a restart by the highest index in it.
pub mod Slots
pub mod Scan
pub mod Log
pub mod Room
pub mod Append
pub mod Read
pub mod Clear
use ch32v303rct6_rtt_mrs.Base.{
  ℕ, zero, suc, ◌+◌, ◌-◌, ◌*◌, ◌/◌, ◌%◌, ◌^◌, Bool, true, false, ◌&&◌, Option, none, some, List, [],
  ◌∷◌, ltb, leb, ◌==◌, ◌>>=◌, if◌then◌else◌, u8, u16, u32, lo_byte, hi_byte, half_word, get_or,
}
use ch32v303rct6_rtt_mrs.Rtc
use ch32v303rct6_rtt_mrs.Rtc.{Clock, DateTime}
use ch32v303rct6_rtt_mrs.Flash.Hal.{Mem, Chip, FlashHal}
use ch32v303rct6_rtt_mrs.Flash.Layout.{
  Record, alarm, alarm_rcy, fault, fault_rcy, power_down, power_on, sensor_end_of_life, max_num,
  pages, start_addr, page_size, page_records, record_size,
}
use ch32v303rct6_rtt_mrs.Flash.Driver.{Buf, load16, read, write, erase_page_records}

-- `TsFlashHrRecordFrame`, packed.
pub record Frame : Type 0 where
  pub header : ℕ
  pub index : ℕ
  pub year : ℕ
  pub month : ℕ
  pub day : ℕ
  pub hour : ℕ
  pub minute : ℕ

-- The union's two views: the bytes of a frame, and the frame of ten bytes.
abbrev pub frame_bytes : Frame → List ℕ
frame_bytes f =
    lo_byte f.header
    ∷ hi_byte f.header
    ∷ lo_byte f.index
    ∷ hi_byte f.index
    ∷ lo_byte f.year
    ∷ hi_byte f.year
    ∷ u8 f.month
    ∷ u8 f.day
    ∷ u8 f.hour
    ∷ u8 f.minute
    ∷ []

abbrev pub frame_buf : Frame → Buf
frame_buf f i = get_or (frame_bytes f) i 0

abbrev pub frame_of : Buf → Frame
frame_of buf = record {
  header = half_word (buf 0) (buf 1);
  index = half_word (buf 2) (buf 3);
  year = half_word (buf 4) (buf 5);
  month = buf 6;
  day = buf 7;
  hour = buf 8;
  minute = buf 9;
}

abbrev pub frame_header : ℕ
frame_header = 0xAA55

-- The flash and the clock, which the functions of the file share.
pub record World : Type 0 where
  pub chip : Chip
  pub clock : Clock

-- The inner loop of `Flash_GetMaxIndex_Records` over one page at `addr`, and the outer one.
pub scan_page : ℕ → Mem → ℕ → ℕ → ℕ → ℕ
scan_page zero m addr i index_max = index_max
scan_page (suc left) m addr i index_max =
    let index = load16 m (addr + record_size * i + 2) in
    scan_page left m addr (i + 1) (
      if load16 m (addr + record_size * i) == frame_header
      then (if ltb index index_max then index_max else index)
      else index_max)

pub scan_pages : ℕ → Mem → ℕ → ℕ → ℕ → ℕ
unfolding scan_page
scan_pages zero m addr page index_max = index_max
scan_pages (suc left) m addr page index_max =
    scan_pages left m addr (page + 1)
      (scan_page page_records m (addr + page_size * page) 0 index_max)

-- `Flash_GetMaxIndex_Records`.
pub max_index : Mem → Record → ℕ
unfolding scan_pages
max_index m r = scan_pages (pages r) m (start_addr r) 0 0

-- `Flash_GetNum_Records`.
pub num_records : Mem → Record → ℕ
num_records m r = let n = max_index m r in if leb n (max_num r) then u8 n else max_num r

-- `index - 1` is an `int`, and is an `unsigned int` beside the constant 25U.
abbrev pub page_of : Record → ℕ → ℕ
page_of r index = u8 (u32 (index + (2 ^ 32 - 1)) / page_records % pages r)

abbrev pub offset_of : ℕ → ℕ
offset_of index = u8 (u32 (index + (2 ^ 32 - 1)) % page_records * record_size)

abbrev pub record_addr : Record → ℕ → ℕ
record_addr r index = start_addr r + page_size * page_of r index + offset_of index

abbrev pub is_sensor_end_of_life : Record → Bool
is_sensor_end_of_life sensor_end_of_life = true
is_sensor_end_of_life _ = false

-- The index whose slot `Flash_Read_Record` reads.
pub read_index : Record → ℕ → ℕ → ℕ
read_index r index_max index =
    if ltb (max_num r) index_max
    then (if is_sensor_end_of_life r then index_max else u16 (index_max + index + 65536 - 50))
    else index

-- `Flash_Read_Record`: the frame's buffer afterwards. For the type with one page the offset is
-- the same expression, and the page is 0.
pub read_record : Mem → Record → ℕ → Buf → Buf
unfolding read read_index
read_record m r index buf i =
    let index_max = max_index m r in
    if leb index index_max
    then read m (record_addr r (read_index r index_max index)) buf record_size i
    else (if ltb i record_size then 0 else buf i)

module _ (hal : FlashHal) where
  -- `Flash_Write_RecordIndex`, whose read back goes to the log alone.
  pub write_record_index : Frame → Record → ℕ → Chip → Chip
  write_record_index f r index c = (write hal (record_addr r index) (frame_buf f) record_size c).1

  -- The erase that `Flash_Write_Record` does before the last slot but one of a page is left.
  pub make_room : Record → ℕ → Chip → Chip
  make_room r index_max c =
      let max_page = page_of r index_max in
      let start_page =
        if leb index_max (max_num r) then 0 else page_of r (u16 (index_max - (max_num r - 1))) in
      let in_page = u8 (u32 (index_max + (2 ^ 32 - 1)) % page_records) in
      if (in_page + 1 == page_records - 1) && (max_page == pages r - 1)
      then (erase_page_records hal r 0 c).1
      else (if (in_page + 1 == page_records - 1) && (max_page + 1 == start_page)
          then (erase_page_records hal r (u8 (max_page + 1)) c).1
          else c)

  -- `Flash_Write_Record`.
  pub write_record : Record → World → Option World
  write_record r w =
      let n = max_index w.chip.mem r in
      let ready = make_room r n w.chip in
      Rtc.get w.clock >>= λ clock.
      let t = clock.date_time in
      let f : Frame = record {
        header = frame_header;
        index = u16 (n + 1);
        year = t.year;
        month = t.month;
        day = t.day;
        hour = t.hour;
        minute = t.minute;
      } in
      some (record { chip = write_record_index f r (u16 (n + 1)) ready; clock = clock })

  -- `Flash_Erase_Records`, over the pages left.
  pub erase_loop : ℕ → Record → ℕ → Chip → Chip
  erase_loop zero r page c = c
  erase_loop (suc left) r page c = erase_loop left r (page + 1) (erase_page_records hal r page c).1

  pub erase_records : Record → Chip → Chip
  unfolding erase_loop
  erase_records r c = erase_loop (pages r) r 0 c
