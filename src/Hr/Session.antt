-- ===== src/Hr/Session.antt =====
-- The host's side of the line in bsp/src/bsp_hr.c: the frame it sends is parsed, answered, and its
-- answer parses again.
pub mod History
pub mod Times
use mathlib.Core.Path.{refl}
use ch32v303rct6_rtt_mrs.Base.{
  if◌then◌else◌, u8, ◌≢◌, ◌*◌, sym, false, ◌+◌, ltb, ℕ, ◌≤◌, ◌<◌, Bool, true, some, [], ◌∷◌, get_or,
  arith, ◌≡◌, ◌∙◌, ap,
}
use ch32v303rct6_rtt_mrs.Flash.Hal.{FlashHal}
use ch32v303rct6_rtt_mrs.Flash.Driver.{Buf}
use ch32v303rct6_rtt_mrs.Flash.Driver.Write.{IsBytes}
use ch32v303rct6_rtt_mrs.Rtc
use ch32v303rct6_rtt_mrs.Rtc.{Clock}
use ch32v303rct6_rtt_mrs.Flash.Layout.{Record, max_num}
use ch32v303rct6_rtt_mrs.Flash.Records.{World, write_record}
use ch32v303rct6_rtt_mrs.Flash.Records.Log.{IsLog}
use ch32v303rct6_rtt_mrs.Flash.Records.Room.{IsRing}
use ch32v303rct6_rtt_mrs.Flash.Query.Answers.{type_of, newest}
use ch32v303rct6_rtt_mrs.Hr.Process.History.{
  time_bytes, type_of-lt, newest-lt, process_data-write_record,
}
use ch32v303rct6_rtt_mrs.Hr.Frame.{RawFrame, take_bytes, get_frame_data, generate_raw_frame}
use ch32v303rct6_rtt_mrs.Hr.Frame.Parse.{
  Sent, generate_raw_frame-IsRaw, get_frame_data-generate_raw_frame,
}
use ch32v303rct6_rtt_mrs.Rtc.Calendar.{IsDate, day_in_year}
use ch32v303rct6_rtt_mrs.Hr.Process.Times.{later, second_bytes, process_data-later}
use ch32v303rct6_rtt_mrs.Hr.Process.{
  set_current_time, get_current_time_second, receive, answer, read_ring, buf_size, process_data,
  set_alarm, get_alarm,
}
use ch32v303rct6_rtt_mrs.Hr.Process.Settings.{set-get_alarm}

-- A frame of `n` bytes of data is whole among the `p_len` bytes of `p`, behind bytes that are not
-- 0xAA, and all of these find room in the buffer of the thread.
pub record Arrives (c1 c2 n : ℕ) (src p : Buf) (p_len : ℕ) : Type 0 where
  pub start : ℕ
  pub raw : RawFrame
  pub within : start + raw.len ≤ p_len
  pub fits : p_len ≤ buf_size
  pub made : generate_raw_frame c1 c2 src n ≡ some raw
  pub sent : Sent start raw p

generate_raw_frame-len :
    (c1 c2 n : ℕ) (src : Buf) (raw : RawFrame)
    → c1 < 256
    → c2 < 256
    → n < 27
    → generate_raw_frame c1 c2 src n ≡ some raw
    → raw.len ≡ n + 6
generate_raw_frame-len c1 c2 n src raw h1 h2 hn made =
    let (raw', made', is) = generate_raw_frame-IsRaw c1 c2 n src h1 h2 (omega arith) in
    let same : raw' ≡ raw = cc in sym (ap (λ r. r.len) same) ∙ is.len_is

-- What arrives in the ring buffer arrives in the thread's buffer.
Arrives-read :
    (c1 c2 n : ℕ) (src old p : Buf) (p_len : ℕ)
    → Arrives c1 c2 n src p p_len
    → Arrives c1 c2 n src (λ i. if ltb i p_len then p i else old i) p_len
Arrives-read c1 c2 n src old p p_len a =
    let same : (j : ℕ) → j < p_len → (if ltb j p_len then p j else old j) ≡ p j =
      λ j below. let there : ltb j p_len ≡ true = ground arith in rw there refl in
    record {
      start = a.start;
      raw = a.raw;
      within = a.within;
      fits = a.fits;
      made = a.made;
      sent = record {
        noise = λ j below e. a.sent.noise j below (sym (same j (omega (arith, a.within))) ∙ e);
        carried = λ j below. same (a.start + j) (omega (arith, a.within)) ∙ a.sent.carried j below;
      };
    }

module _ (malloc : ℕ → Bool) where
  -- What arrives is taken apart.
  pub get_frame_data-Arrives :
      (c1 c2 n : ℕ) (src p : Buf) (p_len : ℕ)
      → c1 < 256
      → c2 < 256
      → n < 27
      → malloc n ≡ true
      → Arrives c1 c2 n src p p_len
      → get_frame_data malloc p p_len
        ≡ some (record { c1 = c1; c2 = c2; bytes = take_bytes n src 0 })
  get_frame_data-Arrives c1 c2 n src p p_len h1 h2 hn room a =
      let len = generate_raw_frame-len c1 c2 n src a.raw h1 h2 hn a.made in
      let found =
        get_frame_data-generate_raw_frame malloc c1 c2 n src p a.start p_len a.raw h1 h2
          (omega arith) (omega (arith, len, a.within)) a.made a.sent in
      rw (found, room) refl

  -- A frame that was sent with nothing before it arrives.
  pub generate_raw_frame-Arrives :
      (c1 c2 n : ℕ) (src : Buf) (raw : RawFrame)
      → c1 < 256
      → c2 < 256
      → n < 27
      → generate_raw_frame c1 c2 src n ≡ some raw
      → Arrives c1 c2 n src raw.buf raw.len
  generate_raw_frame-Arrives c1 c2 n src raw h1 h2 hn made =
      let len = generate_raw_frame-len c1 c2 n src raw h1 h2 hn made in
      record {
        start = 0;
        raw = raw;
        within = omega arith;
        fits = omega (arith, len);
        made = made;
        sent = record {
          noise = λ j below. absurd (omega arith);
          carried = λ j below. ap raw.buf (omega arith);
        };
      }

module _ (hal : FlashHal) (malloc : ℕ → Bool) where
  -- The thread's body hands what arrives to the commands, and sends their answer.
  pub receive-Arrives :
      (c1 c2 n : ℕ) (src old p : Buf) (p_len : ℕ) (w w' : World) (reply : RawFrame)
      → c1 < 256
      → c2 < 256
      → n < 27
      → malloc n ≡ true
      → Arrives c1 c2 n src p p_len
      → process_data hal (record { c1 = c1; c2 = c2; bytes = take_bytes n src 0 }) w
        ≡ some (w', reply)
      → receive hal malloc old p p_len w ≡ some (w', some reply)
  unfolding receive read_ring answer
  receive-Arrives c1 c2 n src old p p_len w w' reply h1 h2 hn room a done =
      let len = generate_raw_frame-len c1 c2 n src a.raw h1 h2 hn a.made in
      let whole : u8 p_len ≡ p_len = omega (arith, a.fits) in
      let held : ltb buf_size p_len ≡ false = ground (arith, a.fits) in
      let long : ltb p_len 6 ≡ false = ground (arith, a.within, len) in
      let buf : Buf = λ i. if ltb i p_len then p i else old i in
      let parsed =
        get_frame_data-Arrives malloc c1 c2 n src buf p_len h1 h2 hn room
          (Arrives-read c1 c2 n src old p p_len a) in
      rw (whole, held, long, parsed, done) refl

  -- On a flash of bytes, where there is room for the data: a host that sends the frame that sets
  -- the alarm value to two bytes, and then the frame that asks for it, each among at most 32
  -- bytes received, behind bytes other than 0xAA, gets two answers. From both HR_GetFrameData
  -- takes the command that was sent and the two bytes that were set, and asking changes nothing.
  pub receive-alarm :
      (high low c1 d1 : ℕ) (old p old' q : Buf) (p_len q_len : ℕ) (w : World)
      → high < 256
      → low < 256
      → c1 < 256
      → d1 < 256
      → IsBytes w.chip.mem
      → malloc 0 ≡ true
      → malloc 2 ≡ true
      → Arrives c1 set_alarm 2 (λ i. get_or (high ∷ low ∷ []) i 0) p p_len
      → Arrives d1 get_alarm 0 (λ i. 0) q q_len
      → (w' : World) × (r1 : RawFrame) × (r2 : RawFrame) × (receive hal malloc old p p_len w
          ≡ some (w', some r1))
        × (receive hal malloc old' q q_len w' ≡ some (w', some r2))
        × (get_frame_data malloc r1.buf r1.len
            ≡ some (record { c1 = c1; c2 = set_alarm; bytes = high ∷ low ∷ [] }))
        × (get_frame_data malloc r2.buf r2.len
            ≡ some (record { c1 = d1; c2 = get_alarm; bytes = high ∷ low ∷ [] }))
  unfolding take_bytes
  receive-alarm high low c1 d1 old p old' q p_len q_len w hh hl h1 h2 flash room0 room2 first
        second =
      let answer : Buf = λ i. get_or (high ∷ low ∷ []) i 0 in
      let small : set_alarm < 256 = omega arith in
      let small' : get_alarm < 256 = omega arith in
      let two : 2 < 27 = omega arith in
      let (w', r1, r2, done1, done2, made1, made2) =
        set-get_alarm hal high low c1 d1 w hh hl h1 h2 flash in
      let sent1 = generate_raw_frame-Arrives malloc c1 set_alarm 2 answer r1 h1 small two made1 in
      let sent2 = generate_raw_frame-Arrives malloc d1 get_alarm 2 answer r2 h2 small' two made2 in
      (
        w',
        r1,
        r2,
        receive-Arrives c1 set_alarm 2 answer old p p_len w w' r1 h1 small two room2 first done1,
        receive-Arrives d1 get_alarm 0 (λ i. 0) old' q q_len w' w' r2 h2 small' (omega arith) room0
            second done2,
        get_frame_data-Arrives malloc c1 set_alarm 2 answer r1.buf r1.len h1 small two room2 sent1,
        get_frame_data-Arrives malloc d1 get_alarm 2 answer r2.buf r2.len h2 small' two room2 sent2,
      )
