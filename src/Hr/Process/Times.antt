-- ===== src/Hr/Process/Times.antt =====
-- The time that the host sets is the one that it gets later on.
use mathlib.Core.Path.{refl}
use ch32v303rct6_rtt_mrs.Base.{
  ℕ, ◌+◌, ◌*◌, ◌/◌, ◌%◌, ◌<◌, some, List, [], ◌∷◌, get_or, arith, ◌≡◌, ◌≢◌, inr,
}
use ch32v303rct6_rtt_mrs.Rtc.{Clock}
use ch32v303rct6_rtt_mrs.Rtc.Calendar.{IsDate, day_in_year, day_number}
use ch32v303rct6_rtt_mrs.Rtc.RoundTrip.{stamp, Fresh, get_lem, get_time_lem}
use ch32v303rct6_rtt_mrs.Flash.Hal.{FlashHal}
use ch32v303rct6_rtt_mrs.Flash.Records.{World}
use ch32v303rct6_rtt_mrs.Hr.Frame.{RawFrame, generate_raw_frame}
use ch32v303rct6_rtt_mrs.Hr.Frame.Parse.{generate_raw_frame-IsRaw}
use ch32v303rct6_rtt_mrs.Hr.Process.{
  reply_to, process_data, big_endian, set_current_time, get_current_time_second, set_time_reply,
  get_second_reply,
}
use ch32v303rct6_rtt_mrs.Hr.Process.Settings.{set_clock_lem, process_data-reply}

-- The clock right after the host has set it.
abbrev pub set_to : ℕ → ℕ → ℕ → ℕ → ℕ → ℕ → Clock → Clock
set_to year month day hour minute second c = record c {
  counter = 86400 * day_number year month day + hour * 3600 + minute * 60 + second;
  daycnt = day_number year month day;
  date_time = record (stamp year month day 0) { hour = hour; minute = minute; second = second };
}

-- The clock `seconds` later.
abbrev pub later : ℕ → World → World
later seconds w = record w { clock = record w.clock { counter = w.clock.counter + seconds } }

-- The seven bytes of a time of a day.
abbrev pub second_bytes : ℕ → ℕ → ℕ → ℕ → ℕ → List ℕ
second_bytes high low month day secs =
    high ∷ low ∷ month ∷ day ∷ secs / 3600 ∷ secs % 3600 / 60 ∷ secs % 60 ∷ []

module _ (high low month day hour minute second : ℕ) (hh : high < 256) (hl : low < 256)
    (v : IsDate (high * 256 + low) month day) (h : hour < 24) (m : minute < 60) (s : second < 60)
    (ne : day_in_year (high * 256 + low) month day ≢ 365) where
  set_time_reply_lem :
      (c1 : ℕ) (w : World)
      → let bytes = high ∷ low ∷ month ∷ day ∷ hour ∷ minute ∷ second ∷ [] in
        set_time_reply c1 bytes w
        ≡ some (
          record w { clock = set_to (high * 256 + low) month day hour minute second w.clock },
          record { c1 = c1; data_len = 7; data_field = bytes },
        )
  unfolding set_time_reply
  set_time_reply_lem c1 w =
      let value : big_endian high low ≡ high * 256 + low = omega arith in
      let top : (high * 256 + low) / 256 % 256 ≡ high = omega arith in
      let bottom : (high * 256 + low) % 256 ≡ low = omega arith in
      rw
        (
          value,
          set_clock_lem (high * 256 + low) month day hour minute second w.clock v h m s ne,
          top,
          bottom,
        )
        refl

  get_second_reply_lem :
      (k c1 : ℕ) (w : World)
      → hour * 3600 + minute * 60 + second + k < 86400
      → let secs = hour * 3600 + minute * 60 + second + k in
        let set = record w {
          clock = set_to (high * 256 + low) month day hour minute second w.clock;
        } in
        (w' : World) × (get_second_reply c1 (later k set)
          ≡ some (
            w',
            record { c1 = c1; data_len = 7; data_field = second_bytes high low month day secs },
          ))
        × (w'.chip ≡ w.chip)
  unfolding get_second_reply
  get_second_reply_lem k c1 w small =
      let year = high * 256 + low in
      let secs = hour * 3600 + minute * 60 + second + k in
      let top : year / 256 % 256 ≡ high = omega arith in
      let bottom : year % 256 ≡ low = omega arith in
      let set = record w { clock = set_to year month day hour minute second w.clock } in
      let now = (later k set).clock in
      let counted : now.counter ≡ 86400 * day_number year month day + secs = omega arith in
      let fresh : Fresh year month day now = inr (refl, refl, refl) in
      let (c', read, named) = get_time_lem year month day secs now v small counted ne fresh in
      let got = get_lem year month day secs now v small counted ne fresh in
      let same : c' ≡ record now {
        daycnt = day_number year month day;
        date_time = stamp year month day secs;
      } =
        cc in
      (record set { clock = c' }, rw (named, same, top, bottom) refl, refl)

  -- The answers to the command that sets the time, and to the one that asks for it `k` seconds later.
  pub process_data-later :
      (hal : FlashHal) (k c1 d1 : ℕ) (w : World)
      → hour * 3600 + minute * 60 + second + k < 86400
      → c1 < 256
      → d1 < 256
      → let bytes = high ∷ low ∷ month ∷ day ∷ hour ∷ minute ∷ second ∷ [] in
        let secs = hour * 3600 + minute * 60 + second + k in
        let answer = second_bytes high low month day secs in
        (w1 : World) × (w2 : World) × (r1 : RawFrame) × (r2 : RawFrame) × (process_data hal
            (record { c1 = c1; c2 = set_current_time; bytes = bytes })
            w
          ≡ some (w1, r1))
        × (process_data hal
              (record { c1 = d1; c2 = get_current_time_second; bytes = [] })
              (later k w1)
            ≡ some (w2, r2))
        × (generate_raw_frame c1 set_current_time (λ i. get_or bytes i 0) 7 ≡ some r1)
        × (generate_raw_frame d1 get_current_time_second (λ i. get_or answer i 0) 7 ≡ some r2)
        × (w2.chip ≡ w.chip)
  unfolding reply_to
  process_data-later hal k c1 d1 w small h1 h2 =
      let bytes = high ∷ low ∷ month ∷ day ∷ hour ∷ minute ∷ second ∷ [] in
      let secs = hour * 3600 + minute * 60 + second + k in
      let answer = second_bytes high low month day secs in
      let w1 : World = record w {
        clock = set_to (high * 256 + low) month day hour minute second w.clock;
      } in
      let (w2, got, kept) = get_second_reply_lem k d1 w small in
      let (r1, made1, is1) =
        generate_raw_frame-IsRaw c1 set_current_time 7 (λ i. get_or bytes i 0) h1 (omega arith)
          (omega arith) in
      let (r2, made2, is2) =
        generate_raw_frame-IsRaw d1 get_current_time_second 7 (λ i. get_or answer i 0) h2
          (omega arith) (omega arith) in
      let sent1 =
        process_data-reply hal (record { c1 = c1; c2 = set_current_time; bytes = bytes }) w w1
          (record { c1 = c1; data_len = 7; data_field = bytes }) (inr (omega arith))
          (set_time_reply_lem c1 w) in
      let sent2 =
        process_data-reply hal (record { c1 = d1; c2 = get_current_time_second; bytes = [] })
          (later k w1) w2 (record { c1 = d1; data_len = 7; data_field = answer })
          (inr (omega arith)) got in
      (w1, w2, r1, r2, rw sent1 (rw made1 refl), rw sent2 (rw made2 refl), made1, made2, kept)
