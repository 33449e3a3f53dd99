-- ===== src/Hr/Process/Settings.antt =====
-- What is set over the line is stored, and answered.
use mathlib.Core.Path.{refl}
use native.Mathlib.Decide.{ℕ_discrete}
use ch32v303rct6_rtt_mrs.Base.{
  ap, ◌∙◌, ap, ◌∙◌, ◌&&◌, ℕ, ◌+◌, ◌*◌, ◌/◌, ◌%◌, ◌≤◌, ◌<◌, false, some, List, [], ◌∷◌, ltb, ◌==◌,
  ◌>>=◌, get_or, arith, ◌≡◌, ◌≢◌, ◌⊎◌, inl, inr,
}
use ch32v303rct6_rtt_mrs.Rtc.{Clock, DateTime}
use ch32v303rct6_rtt_mrs.Rtc.Calendar.{IsDate, day_in_year, day_number}
use ch32v303rct6_rtt_mrs.Rtc.RoundTrip.{stamp, Fresh, set_lem, get_lem, get_time_lem}
use ch32v303rct6_rtt_mrs.Flash.Hal.{FlashHal}
use ch32v303rct6_rtt_mrs.Flash.Driver.Write.{IsBytes}
use ch32v303rct6_rtt_mrs.Flash.Records.{World}
use ch32v303rct6_rtt_mrs.Flash.Config.{
  LimitId, factory_time, expiration_time, other_id, time_of, get_time_limit, set_time_limit,
  set_alarm_value,
}
use ch32v303rct6_rtt_mrs.Flash.Config.Limits.{
  limit_frame, IsLimit, get-set_time_limit, get-set_alarm_value,
}
use ch32v303rct6_rtt_mrs.Hr.Frame.Parse.{generate_raw_frame-IsRaw}
use ch32v303rct6_rtt_mrs.Flash.Driver.{Buf}
use ch32v303rct6_rtt_mrs.Hr.Frame.{FrameData, RawFrame, generate_raw_frame}
use ch32v303rct6_rtt_mrs.Hr.Process.{
  set_clock, limit_bytes, reply_to, process_data, big_endian, Reply, sensor_failure_record,
  set_alarm, get_alarm, set_factory_time, set_expiration_time, set_limit_reply, set_alarm_reply,
  get_alarm_reply,
}

-- A valid date, not the last day of a leap year, and a valid time of day that kSetCurrentTime
-- sets are written to the counter and read back at once, whatever day the clock had kept.
pub set_clock_lem :
    (year month day hour minute second : ℕ) (c : Clock)
    → IsDate year month day
    → hour < 24
    → minute < 60
    → second < 60
    → day_in_year year month day ≢ 365
    → set_clock year month day hour minute second c
      ≡ some (record c {
        counter = 86400 * day_number year month day + hour * 3600 + minute * 60 + second;
        daycnt = day_number year month day;
        date_time = record (stamp year month day 0) {
          hour = hour;
          minute = minute;
          second = second;
        };
      })
unfolding set_clock
set_clock_lem year month day hour minute second c v h m s ne =
    let secs = hour * 3600 + minute * 60 + second in
    let t : DateTime = record c.date_time {
      year = year;
      month = month;
      day = day;
      hour = hour;
      minute = minute;
      second = second;
    } in
    let kept : Clock = record c { date_time = t } in
    let count = 86400 * day_number year month day + hour * 3600 + minute * 60 + second in
    let now : Clock = record kept { counter = count } in
    let fresh : Fresh year month day now = elim (ℕ_discrete c.daycnt (day_number year month day)) [
      | yes same ↦ inr (refl, refl, refl)
      | no other ↦ inl other
    ] in
    let (c', read, named) =
      get_time_lem year month day secs now v (omega arith) (omega arith) ne fresh in
    let got = get_lem year month day secs now v (omega arith) (omega arith) ne fresh in
    let same : c'
        ≡ record now { daycnt = day_number year month day; date_time = stamp year month day secs } =
      cc in
    rw (set_lem year month day hour minute second kept v h m s, named, same) (ground arith)

-- The bytes of a stored limit are those that came.
limit_bytes_lem :
    (high low month day hour minute second : ℕ)
    → (high < 256)
      × (low < 256)
      × (month < 256)
      × (day < 256)
      × (hour < 256)
      × (minute < 256)
      × (second < 256)
    → limit_bytes (limit_frame (high * 256 + low) month day hour minute second)
      ≡ high ∷ low ∷ month ∷ day ∷ hour ∷ minute ∷ second ∷ []
unfolding limit_bytes
limit_bytes_lem high low month day hour minute second small = ground arith

-- The command that sets a limit.
abbrev pub limit_command : LimitId → ℕ
limit_command factory_time = set_factory_time
limit_command expiration_time = set_expiration_time
limit_command other_id = 0

module _ (hal : FlashHal) where
  -- A command that sends its reply as it stands.
  pub process_data-reply :
      (f : FrameData) (w w' : World) (r : Reply)
      → (f.c2 ≡ 0) ⊎ (sensor_failure_record ≤ f.c2)
      → reply_to hal f w ≡ some (w', r)
      → process_data hal f w ≡ (
          generate_raw_frame r.c1 f.c2 (λ i. get_or r.data_field i 0) r.data_len >>= λ raw.
          some (w', raw))
  unfolding process_data
  process_data-reply f w w' r late e =
      let same : ((r.c1 == 0) && (ltb 0 f.c2 && ltb f.c2 sensor_failure_record)) ≡ false =
        ground arith in
      rw (e, same) refl

  -- On a flash of bytes, the alarm value set over the line by two bytes is answered with these
  -- bytes, and a kGetAlarmValue after it is answered with the same bytes and changes nothing.
  pub set-get_alarm :
      (high low c1 d1 : ℕ) (w : World)
      → high < 256
      → low < 256
      → c1 < 256
      → d1 < 256
      → IsBytes w.chip.mem
      → let set_frame : FrameData = record { c1 = c1; c2 = set_alarm; bytes = high ∷ low ∷ [] } in
        let get_frame : FrameData = record { c1 = d1; c2 = get_alarm; bytes = [] } in
        let answer : Buf = λ i. get_or (high ∷ low ∷ []) i 0 in
        (w' : World) × (r1 : RawFrame) × (r2 : RawFrame) × (process_data hal set_frame w
          ≡ some (w', r1))
        × (process_data hal get_frame w' ≡ some (w', r2))
        × (generate_raw_frame c1 set_alarm answer 2 ≡ some r1)
        × (generate_raw_frame d1 get_alarm answer 2 ≡ some r2)
  unfolding reply_to set_alarm_reply get_alarm_reply
  set-get_alarm high low c1 d1 w hh hl h1 h2 flash =
      let value : big_endian high low ≡ high * 256 + low = omega arith in
      let answer : Buf = λ i. get_or (high ∷ low ∷ []) i 0 in
      let (r1, e1, is1) =
        generate_raw_frame-IsRaw c1 set_alarm 2 answer h1 (omega arith) (omega arith) in
      let (r2, e2, is2) =
        generate_raw_frame-IsRaw d1 get_alarm 2 answer h2 (omega arith) (omega arith) in
      let kept = get-set_alarm_value hal w.chip flash (high * 256 + low) (omega arith) in
      let top : (high * 256 + low) / 256 % 256 ≡ high = omega arith in
      let bottom : (high * 256 + low) % 256 ≡ low = omega arith in
      let w1 : World = record w { chip = set_alarm_value hal (high * 256 + low) w.chip } in
      let s : FrameData = record { c1 = c1; c2 = set_alarm; bytes = high ∷ low ∷ [] } in
      let g : FrameData = record { c1 = d1; c2 = get_alarm; bytes = [] } in
      let p1 =
        process_data-reply s w w1 (record { c1 = c1; data_len = 2; data_field = high ∷ low ∷ [] })
          (inr (omega arith)) (rw (value, top, bottom) refl) in
      let p2 =
        process_data-reply g w1 w1 (record { c1 = d1; data_len = 2; data_field = high ∷ low ∷ [] })
          (inr (omega arith)) (rw (kept, top, bottom) refl) in
      (w1, r1, r2, rw p1 (rw e1 refl), rw p2 (rw e2 refl), e1, e2)

  reply_to-limit :
      (id : LimitId) (c1 : ℕ) (bytes : List ℕ) (w : World)
      → IsLimit id
      → reply_to hal (record { c1 = c1; c2 = limit_command id; bytes = bytes }) w
        ≡ set_limit_reply hal id c1 bytes w
  unfolding reply_to
  reply_to-limit factory_time c1 bytes w known = refl
  reply_to-limit expiration_time c1 bytes w known = refl
  reply_to-limit other_id c1 bytes w known = absurd (known refl)

  -- A factory or expiration time of seven bytes that comes over the line is stored in a flash of
  -- bytes so that it reads back, and is answered by the frame of the same command with the same
  -- seven bytes.
  pub set_limit-answered :
      (id : LimitId) (high low month day hour minute second c1 : ℕ) (w : World)
      → IsLimit id
      → (high < 256)
        × (low < 256)
        × (month < 256)
        × (day < 256)
        × (hour < 256)
        × (minute < 256)
        × (second < 256)
      → c1 < 256
      → IsBytes w.chip.mem
      → let bytes = high ∷ low ∷ month ∷ day ∷ hour ∷ minute ∷ second ∷ [] in
        let c2 = limit_command id in
        (w' : World) × (raw : RawFrame) × (process_data hal
            (record { c1 = c1; c2 = c2; bytes = bytes })
            w
          ≡ some (w', raw))
        × (generate_raw_frame c1 c2 (λ i. get_or bytes i 0) 7 ≡ some raw)
        × (time_of (get_time_limit w'.chip.mem id (λ i. 0)).1
            ≡ limit_frame (high * 256 + low) month day hour minute second)
  unfolding set_limit_reply
  set_limit-answered id high low month day hour minute second c1 w known small h1 flash =
      let bytes = high ∷ low ∷ month ∷ day ∷ hour ∷ minute ∷ second ∷ [] in
      let c2 = limit_command id in
      let year = high * 256 + low in
      let value : big_endian high low ≡ year = omega arith in
      let (raw, made, is) =
        generate_raw_frame-IsRaw c1 c2 7 (λ i. get_or bytes i 0) h1 (ground arith) (omega arith) in
      let w1 : World = record w {
        chip = set_time_limit hal year month day hour minute second id w.chip;
      } in
      let kept =
        (get-set_time_limit hal w.chip flash year month day hour minute second id (λ i. 0)
          known).1 in
      let f : FrameData = record { c1 = c1; c2 = c2; bytes = bytes } in
      let field =
        ap limit_bytes kept ∙ limit_bytes_lem high low month day hour minute second small in
      let sent =
        process_data-reply f w w1 (record { c1 = c1; data_len = 7; data_field = bytes })
          (inr (ground arith))
          (reply_to-limit id c1 bytes w known
            ∙ rw value (λ i. some (w1, record { c1 = c1; data_len = 7; data_field = field i }))) in
      (w1, raw, rw sent (rw made refl), made, kept)
