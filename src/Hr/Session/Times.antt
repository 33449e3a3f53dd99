-- ===== src/Hr/Session/Times.antt =====
-- bsp/src/bsp_hr.c and bsp/src/bsp_rtc.c: the host sets the time, and gets it later on.
use ch32v303rct6_rtt_mrs.Base.{◌≢◌, ◌*◌, ◌+◌, ℕ, ◌<◌, Bool, true, some, [], ◌∷◌, get_or, arith, ◌≡◌}
use ch32v303rct6_rtt_mrs.Flash.Hal.{FlashHal}
use ch32v303rct6_rtt_mrs.Flash.Driver.{Buf}
use ch32v303rct6_rtt_mrs.Flash.Records.{World}
use ch32v303rct6_rtt_mrs.Hr.Frame.{RawFrame, take_bytes, get_frame_data}
use ch32v303rct6_rtt_mrs.Rtc.Calendar.{IsDate, day_in_year}
use ch32v303rct6_rtt_mrs.Hr.Process.Times.{later, second_bytes, process_data-later}
use ch32v303rct6_rtt_mrs.Hr.Process.{set_current_time, get_current_time_second, receive}
use ch32v303rct6_rtt_mrs.Hr.Session.{
  Arrives, get_frame_data-Arrives, generate_raw_frame-Arrives, receive-Arrives,
}

module _ (hal : FlashHal) (malloc : ℕ → Bool) where
  -- Where there is room for the data, a host that sets a valid date, not the last day of a leap
  -- year, and a time of day, and asks for the time with seconds when the counter has gone on by k
  -- seconds of the same day, each in a frame among at most 32 bytes received, behind bytes other
  -- than 0xAA, gets two answers: from the first one HR_GetFrameData takes the command and the
  -- seven bytes that were sent, from the second one the same date with the time of day k seconds
  -- later. The flash stays as it was.
  pub receive-later :
      (high low month day hour minute second k c1 d1 : ℕ) (old p old' q : Buf) (p_len q_len : ℕ)
      (w : World)
      → high < 256
      → low < 256
      → IsDate (high * 256 + low) month day
      → day_in_year (high * 256 + low) month day ≢ 365
      → hour < 24
      → minute < 60
      → second < 60
      → hour * 3600 + minute * 60 + second + k < 86400
      → c1 < 256
      → d1 < 256
      → malloc 0 ≡ true
      → malloc 7 ≡ true
      → Arrives c1 set_current_time 7
          (λ i. get_or (high ∷ low ∷ month ∷ day ∷ hour ∷ minute ∷ second ∷ []) i 0)
          p
          p_len
      → Arrives d1 get_current_time_second 0 (λ i. 0) q q_len
      → let secs = hour * 3600 + minute * 60 + second + k in
        (w1 : World) × (w2 : World) × (r1 : RawFrame) × (r2 : RawFrame) × (receive hal malloc old p
            p_len w
          ≡ some (w1, some r1))
        × (receive hal malloc old' q q_len (later k w1) ≡ some (w2, some r2))
        × (get_frame_data malloc r1.buf r1.len
            ≡ some (record {
              c1 = c1;
              c2 = set_current_time;
              bytes = high ∷ low ∷ month ∷ day ∷ hour ∷ minute ∷ second ∷ [];
            }))
        × (get_frame_data malloc r2.buf r2.len
            ≡ some (record {
              c1 = d1;
              c2 = get_current_time_second;
              bytes = second_bytes high low month day secs;
            }))
        × (w2.chip ≡ w.chip)
  unfolding take_bytes
  receive-later high low month day hour minute second k c1 d1 old p old' q p_len q_len w hh hl v ne
        h m s small h1 h2 room0 room7 first next =
      let secs = hour * 3600 + minute * 60 + second + k in
      let sent : Buf = λ i. get_or (high ∷ low ∷ month ∷ day ∷ hour ∷ minute ∷ second ∷ []) i 0 in
      let answer : Buf = λ i. get_or (second_bytes high low month day secs) i 0 in
      let setting : set_current_time < 256 = omega arith in
      let getting : get_current_time_second < 256 = omega arith in
      let seven : 7 < 27 = omega arith in
      let (w1, w2, r1, r2, done1, done2, made1, made2, kept) =
        process_data-later high low month day hour minute second hh hl v h m s ne hal k c1 d1 w
          small h1 h2 in
      let sent1 =
        generate_raw_frame-Arrives malloc c1 set_current_time 7 sent r1 h1 setting seven made1 in
      let sent2 =
        generate_raw_frame-Arrives malloc d1 get_current_time_second 7 answer r2 h2 getting seven
          made2 in
      (
        w1,
        w2,
        r1,
        r2,
        receive-Arrives hal malloc c1 set_current_time 7 sent old p p_len w w1 r1 h1 setting seven
            room7 first done1,
        receive-Arrives hal malloc d1 get_current_time_second 0 (λ i. 0) old' q q_len (later k w1)
            w2 r2 h2 getting (omega arith) room0 next done2,
        get_frame_data-Arrives malloc c1 set_current_time 7 sent r1.buf r1.len h1 setting seven
            room7 sent1,
        get_frame_data-Arrives malloc d1 get_current_time_second 7 answer r2.buf r2.len h2 getting
            seven room7 sent2,
        kept,
      )
