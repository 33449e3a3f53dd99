-- ===== src/Hr/Process.antt =====
-- `HR_ProcessData` and the body of the thread in bsp/src/bsp_hr.c: one function for each of the
-- cases. `none` is a read outside the frame's data or the tables of bsp/src/bsp_rtc.c.
pub mod Queries
pub mod History
pub mod Times
pub mod Short
pub mod Settings
use ch32v303rct6_rtt_mrs.Base.{
  ℕ, zero, suc, ◌+◌, ◌*◌, ◌/◌, ◌&&◌, Bool, true, false, Option, none, some, List, [], ◌∷◌, ltb, leb,
  ◌==◌, if◌then◌else◌, ◌>>=◌, u8, u16, hi_byte, lo_byte, get_elem?, get_or,
}
use ch32v303rct6_rtt_mrs.Rtc
use ch32v303rct6_rtt_mrs.Rtc.{Clock, DateTime}
use ch32v303rct6_rtt_mrs.Flash.Hal.{Chip, FlashHal}
use ch32v303rct6_rtt_mrs.Flash.Layout.{Record}
use ch32v303rct6_rtt_mrs.Flash.Driver.{Buf}
use ch32v303rct6_rtt_mrs.Flash.Records.{World}
use ch32v303rct6_rtt_mrs.Flash.Query.{get_total_record, get_record}
use ch32v303rct6_rtt_mrs.Flash.Config.{
  LimitId, factory_time, expiration_time, TimeFrame, time_of, get_time_limit, get_alarm_value,
  set_time_limit, set_alarm_value,
}
use ch32v303rct6_rtt_mrs.Hr.Frame.{FrameData, RawFrame, get_frame_data, generate_raw_frame}

-- `c1`, `data_len` and `data_field` at the label `send`. The 64 bytes of the field are 0 where
-- nothing was written.
pub record Reply : Type 0 where
  pub c1 : ℕ
  pub data_len : ℕ
  pub data_field : List ℕ

-- The commands of `TeFrameC2` that the switch knows.
abbrev pub num_of_records : ℕ
num_of_records = 0

abbrev pub alarm_record : ℕ
alarm_record = 1

abbrev pub sensor_failure_record : ℕ
sensor_failure_record = 7

abbrev pub get_current_time : ℕ
get_current_time = 8

abbrev pub get_current_time_second : ℕ
get_current_time_second = 9

abbrev pub set_current_time : ℕ
set_current_time = 10

abbrev pub set_factory_time : ℕ
set_factory_time = 11

abbrev pub set_expiration_time : ℕ
set_expiration_time = 12

abbrev pub set_alarm : ℕ
set_alarm = 13

abbrev pub get_alarm : ℕ
get_alarm = 15

-- `data[0] << 8 | data[1]`.
abbrev pub big_endian : ℕ → ℕ → ℕ
big_endian high low = u16 (high * 256 + low)

pub date_bytes : DateTime → List ℕ
date_bytes t = hi_byte t.year ∷ lo_byte t.year ∷ t.month ∷ t.day ∷ t.hour ∷ t.minute ∷ []

pub date_second_bytes : DateTime → List ℕ
date_second_bytes t =
    hi_byte t.year ∷ lo_byte t.year ∷ t.month ∷ t.day ∷ t.hour ∷ t.minute ∷ t.second ∷ []

pub limit_bytes : TimeFrame → List ℕ
limit_bytes f =
    hi_byte f.year ∷ lo_byte f.year ∷ f.month ∷ f.day ∷ f.hour ∷ f.minute ∷ f.second ∷ []

-- What `Flash_GetRecord` fills in; nothing where it does not answer `READY`.
abbrev or_zeros : Option (List ℕ) → List ℕ
or_zeros none = []
or_zeros (some bytes) = bytes

-- `kNumOfRecords`.
count_reply : World → Reply
count_reply w = record { c1 = 0; data_len = 7; data_field = get_total_record w.chip.mem }

-- `kAlarmRecord`: a record whose first byte is 0 is answered with zeros.
alarm_record_reply : ℕ → World → Reply
alarm_record_reply c1 w =
    let field = or_zeros (get_record w.chip.mem alarm_record c1) in
    record { c1 = c1; data_len = 6; data_field = if get_or field 0 0 == 0 then [] else field }

-- `kAlarmRcyRecord` to `kPowerOnRecord`.
record_reply : ℕ → ℕ → World → Reply
record_reply c1 c2 w = record {
  c1 = c1;
  data_len = 6;
  data_field = or_zeros (get_record w.chip.mem c2 c1);
}

-- `kSensorFailureRecord`, which overwrites the high byte of the year.
sensor_reply : ℕ → World → Reply
sensor_reply c1 w =
    let field = or_zeros (get_record w.chip.mem sensor_failure_record 1) in
    let flagged =
      1
      ∷ get_or field 1 0
      ∷ get_or field 2 0
      ∷ get_or field 3 0
      ∷ get_or field 4 0
      ∷ get_or field 5 0
      ∷ [] in
    record {
      c1 = c1;
      data_len = 7;
      data_field = if c1 == 0 then (if get_or field 1 0 == 0 then [] else flagged) else [];
    }

-- `kGetCurrentTime` and `kGetCurrentTimeSecond`.
get_time_reply : ℕ → World → Option (World × Reply)
unfolding date_bytes
get_time_reply c1 w = do
  (clock, name) ← Rtc.get_time w.clock
  some (
    record w { clock = clock },
    record { c1 = c1; data_len = 6; data_field = date_bytes clock.date_time },
  )

get_second_reply : ℕ → World → Option (World × Reply)
unfolding date_second_bytes
get_second_reply c1 w = do
  (clock, name) ← Rtc.get_time w.clock
  some (
    record w { clock = clock },
    record { c1 = c1; data_len = 7; data_field = date_second_bytes clock.date_time },
  )

-- `kSetCurrentTime`: the fields of `RtcDateTime` are set before `RTC_Set` looks at them.
pub set_clock : ℕ → ℕ → ℕ → ℕ → ℕ → ℕ → Clock → Option Clock
set_clock year month day hour minute second c = do
  let t : DateTime = record c.date_time {
    year = year;
    month = month;
    day = day;
    hour = hour;
    minute = minute;
    second = second;
  }
  (status, c') ← Rtc.set year month day hour minute second (record c { date_time = t })
  (clock, name) ← Rtc.get_time c'
  some clock

set_time_reply : ℕ → List ℕ → World → Option (World × Reply)
unfolding set_clock date_second_bytes
set_time_reply c1 bytes w = do
  high ← get_elem? bytes 0
  low ← get_elem? bytes 1
  month ← get_elem? bytes 2
  day ← get_elem? bytes 3
  hour ← get_elem? bytes 4
  minute ← get_elem? bytes 5
  second ← get_elem? bytes 6
  clock ← set_clock (big_endian high low) month day hour minute second w.clock
  some (
    record w { clock = clock },
    record { c1 = c1; data_len = 7; data_field = date_second_bytes clock.date_time },
  )

-- `rt_uint8_t buf[32]`.
abbrev pub buf_size : ℕ
buf_size = 32

-- The read of the ring buffer into `buf`, whose length is cut to 8 bits; `none` where it writes behind
-- the buffer.
unfoldable pub read_ring : Buf → Buf → ℕ → Option (Buf × ℕ)
read_ring stack ring full =
    let buf_len = u8 full in
    if ltb buf_size buf_len
    then none
    else some (λ i. if ltb i buf_len then ring i else stack i, buf_len)

module _ (hal : FlashHal) where
  -- `kSetFactoryTime` and `kSetExpirationTime`.
  set_limit_reply : LimitId → ℕ → List ℕ → World → Option (World × Reply)
  unfolding limit_bytes
  set_limit_reply id c1 bytes w = do
    high ← get_elem? bytes 0
    low ← get_elem? bytes 1
    month ← get_elem? bytes 2
    day ← get_elem? bytes 3
    hour ← get_elem? bytes 4
    minute ← get_elem? bytes 5
    second ← get_elem? bytes 6
    let chip = set_time_limit hal (big_endian high low) month day hour minute second id w.chip
    let limit = time_of (get_time_limit chip.mem id (λ i. 0)).1
    some
        (record w { chip = chip }, record { c1 = c1; data_len = 7; data_field = limit_bytes limit })

  -- `kSetAlarmValue`.
  set_alarm_reply : ℕ → List ℕ → World → Option (World × Reply)
  set_alarm_reply c1 bytes w = do
    high ← get_elem? bytes 0
    low ← get_elem? bytes 1
    let value = big_endian high low
    some (
      record w { chip = set_alarm_value hal value w.chip },
      record { c1 = c1; data_len = 2; data_field = hi_byte value ∷ lo_byte value ∷ [] },
    )

  -- `kGetAlarmValue`.
  get_alarm_reply : ℕ → World → World × Reply
  get_alarm_reply c1 w =
      let value = get_alarm_value w.chip.mem in
      (w, record { c1 = c1; data_len = 2; data_field = hi_byte value ∷ lo_byte value ∷ [] })

  -- The switch; an unknown command is answered with no data.
  pub reply_to : FrameData → World → Option (World × Reply)
  unfolding count_reply alarm_record_reply record_reply sensor_reply get_time_reply get_second_reply
      set_time_reply set_limit_reply set_alarm_reply get_alarm_reply
  reply_to f w =
      if f.c2 == num_of_records
      then some (w, count_reply w)
      else if f.c2 == alarm_record
      then some (w, alarm_record_reply f.c1 w)
      else if ltb f.c2 sensor_failure_record
      then some (w, record_reply f.c1 f.c2 w)
      else if f.c2 == sensor_failure_record
      then some (w, sensor_reply f.c1 w)
      else if f.c2 == get_current_time
      then get_time_reply f.c1 w
      else if f.c2 == get_current_time_second
      then get_second_reply f.c1 w
      else if f.c2 == set_current_time
      then set_time_reply f.c1 f.bytes w
      else if f.c2 == set_factory_time
      then set_limit_reply factory_time f.c1 f.bytes w
      else if f.c2 == set_expiration_time
      then set_limit_reply expiration_time f.c1 f.bytes w
      else if f.c2 == set_alarm
      then set_alarm_reply f.c1 f.bytes w
      else if f.c2 == get_alarm
      then some (get_alarm_reply f.c1 w)
      else some (w, record { c1 = f.c1; data_len = 0; data_field = [] })

  -- `HR_ProcessData`: the state afterwards, and the frame that is sent.
  pub process_data : FrameData → World → Option (World × RawFrame)
  unfolding reply_to
  process_data f w = do
    (w', r) ← reply_to f w
    let field =
        if (r.c1 == 0) && (ltb 0 f.c2 && ltb f.c2 sensor_failure_record) then [] else r.data_field
    raw ← generate_raw_frame r.c1 f.c2 (λ i. get_or field i 0) r.data_len
    some (w', raw)

  -- The body of `hr_thread_entry`'s loop after the bytes are read: the frame that is sent, if any.
  unfoldable pub answer : (ℕ → Bool) → Buf → ℕ → World → Option (World × Option RawFrame)
  answer malloc buf buf_len w =
      if ltb buf_len 6 then some (w, none) else elim (get_frame_data malloc buf buf_len) [
        | none ↦ some (w, none)
        | some f ↦ (process_data f w >>= λ r. some (r.0, some r.1))
      ]

  -- A round of `hr_thread_entry`, with what stands at the buffer and behind it, and the bytes and the
  -- number of bytes that the ring buffer holds.
  unfoldable pub receive : (ℕ → Bool) → Buf → Buf → ℕ → World → Option (World × Option RawFrame)
  unfolding answer
  receive malloc stack ring full w = do
    (buf, buf_len) ← read_ring stack ring full
    answer malloc buf buf_len w
