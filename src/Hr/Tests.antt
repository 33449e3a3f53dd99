-- ===== src/Hr/Tests.antt =====
-- Concrete frames and replies.
use mathlib.Core.Path.{refl, subst}
use ch32v303rct6_rtt_mrs.Base.{
  ◌*◌, sym, ℕ, ◌+◌, ◌-◌, if◌then◌else◌, Bool, true, false, some, none, List, [], ◌∷◌, get_or, arith,
  ◌≡◌, inr, ltb,
}
use ch32v303rct6_rtt_mrs.Rtc.Tests.{start, afternoon, get-afternoon, july-IsDate, july_not_last}
use ch32v303rct6_rtt_mrs.Flash.Hal.{Chip}
use ch32v303rct6_rtt_mrs.Flash.Query.History.{write_records}
use ch32v303rct6_rtt_mrs.Flash.Driver.{Buf}
use ch32v303rct6_rtt_mrs.Flash.Records.{World, write_record}
use ch32v303rct6_rtt_mrs.Flash.Layout.{power_on, max_num}
use ch32v303rct6_rtt_mrs.Flash.Query.Answers.{type_of, newest}
use ch32v303rct6_rtt_mrs.Flash.Tests.{
  sim, new_chip, new-IsBytes, read_clock, log60, world60, power_on-IsRing,
}
use ch32v303rct6_rtt_mrs.Hr.Process.History.{time_bytes}
use ch32v303rct6_rtt_mrs.Hr.Session.{Arrives, generate_raw_frame-Arrives, receive-alarm}
use ch32v303rct6_rtt_mrs.Hr.Session.History.{receive-write_record, receive-write_records}
use ch32v303rct6_rtt_mrs.Hr.Session.Times.{receive-later}
use ch32v303rct6_rtt_mrs.Hr.Process.Times.{later, second_bytes}
use ch32v303rct6_rtt_mrs.Hr.Process.{set_current_time, get_current_time_second}
use ch32v303rct6_rtt_mrs.Hr.Frame.{RawFrame, take_bytes, get_frame_data, generate_raw_frame}
use ch32v303rct6_rtt_mrs.Hr.Frame.Parse.{
  Sent, IsRaw, generate_raw_frame-IsRaw, get_frame_data-generate_raw_frame,
}
use ch32v303rct6_rtt_mrs.Hr.Process.{receive, answer, read_ring, set_alarm, get_alarm, process_data}
use ch32v303rct6_rtt_mrs.Hr.Process.Short.{process_data_short}

abbrev from_list : List ℕ → Buf
from_list l i = get_or l i 0

-- The data of "set the alarm value to 3000".
abbrev body : Buf
body = from_list (0x0B ∷ 0xB8 ∷ [])

abbrev raw : RawFrame
raw = record { len = 8; buf = from_list (0xAA ∷ 0 ∷ 0x0D ∷ 2 ∷ 0x0B ∷ 0xB8 ∷ 0x7C ∷ 0x55 ∷ []) }

-- The same behind two bytes of noise.
abbrev line : Buf
line = from_list (1 ∷ 0x55 ∷ 0xAA ∷ 0 ∷ 0x0D ∷ 2 ∷ 0x0B ∷ 0xB8 ∷ 0x7C ∷ 0x55 ∷ [])

-- What the buffer of the thread held before.
abbrev left_over : Buf
left_over i = 0xAA

abbrev room : ℕ → Bool
room n = true

abbrev made : (r : RawFrame) × (generate_raw_frame 0 0x0D body 2 ≡ some r) × IsRaw 0 0x0D 2 body r
made = generate_raw_frame-IsRaw 0 0x0D 2 body (omega arith) (omega arith) (omega arith)

-- The frame behind two bytes of noise.
abbrev received : Buf
received j = if ltb j 2 then 1 else made.0.buf (j - 2)

received-Sent : Sent 2 made.0 received
received-Sent = record {
  noise = λ j below. ground arith;
  carried = λ j below.
      let e : 2 + j - 2 ≡ j = omega arith in
      let f : ltb (2 + j) 2 ≡ false = ground arith in rw (f, e) refl;
}

get_frame_data-generate_raw_frame_example :
    get_frame_data room received 10
    ≡ (if room 2 then some (record { c1 = 0; c2 = 0x0D; bytes = take_bytes 2 body 0 }) else none)
get_frame_data-generate_raw_frame_example =
    get_frame_data-generate_raw_frame room 0 0x0D 2 body received 2 10 made.0 (omega arith)
      (omega arith) (omega arith) (omega arith) made.1 received-Sent

abbrev world : World
world = record { chip = new_chip; clock = start }

process_data_short_example :
    process_data sim (record { c1 = 0; c2 = set_alarm; bytes = 0x0B ∷ [] }) world ≡ none
process_data_short_example =
    process_data_short sim (record { c1 = 0; c2 = set_alarm; bytes = 0x0B ∷ [] }) world
      (inr (refl, omega arith))

-- The host's frames: set the alarm value to 3000, get it, and get the newest power-on record.
abbrev Sending : ℕ → ℕ → ℕ → Buf → Type 0
Sending c1 c2 n src =
    (r : RawFrame) × (generate_raw_frame c1 c2 src n ≡ some r) × IsRaw c1 c2 n src r

abbrev getting : Sending 0 get_alarm 0 (λ i. 0)
getting = generate_raw_frame-IsRaw 0 get_alarm 0 (λ i. 0) (omega arith) (omega arith) (omega arith)

abbrev asking : Sending 50 6 0 (λ i. 0)
asking = generate_raw_frame-IsRaw 50 6 0 (λ i. 0) (omega arith) (omega arith) (omega arith)

newest61 : newest power_on 61 ≡ 50
unfolding max_num
newest61 = refl

-- The first frame arrives behind two bytes of noise.
received-Arrives : Arrives 0 set_alarm 2 body received 10
received-Arrives = record {
  start = 2;
  raw = made.0;
  within = omega (arith, made.2.len_is);
  fits = omega arith;
  made = made.1;
  sent = received-Sent;
}

receive-alarm_example :
    (w' : World) × (r1 : RawFrame) × (r2 : RawFrame) × (receive sim room left_over received 10 world
      ≡ some (w', some r1))
    × (receive sim room left_over getting.0.buf getting.0.len w' ≡ some (w', some r2))
    × (get_frame_data room r1.buf r1.len
        ≡ some (record { c1 = 0; c2 = set_alarm; bytes = 0x0B ∷ 0xB8 ∷ [] }))
    × (get_frame_data room r2.buf r2.len
        ≡ some (record { c1 = 0; c2 = get_alarm; bytes = 0x0B ∷ 0xB8 ∷ [] }))
receive-alarm_example =
    receive-alarm sim room 0x0B 0xB8 0 0 left_over received left_over getting.0.buf 10 getting.0.len
      world (omega arith) (omega arith) (omega arith) (omega arith) new-IsBytes refl refl
      received-Arrives
      (generate_raw_frame-Arrives room 0 get_alarm 0 (λ i. 0) getting.0 (omega arith) (omega arith)
        (omega arith) getting.1)

receive-write_record_example :
    (w' : World) × (reply : RawFrame) × (write_record sim power_on world60 ≡ some w')
    × (receive sim room left_over asking.0.buf asking.0.len w' ≡ some (w', some reply))
    × (get_frame_data room reply.buf reply.len
        ≡ some (record {
          c1 = newest power_on 61;
          c2 = type_of power_on;
          bytes = time_bytes read_clock.date_time;
        }))
receive-write_record_example =
    receive-write_record sim room power_on 60 world60 read_clock left_over asking.0.buf asking.0.len
      power_on-IsRing (omega arith) log60.1 get-afternoon (omega arith) (omega arith) refl refl
      (subst (λ (k : ℕ). Arrives k 6 0 (λ i. 0) asking.0.buf asking.0.len) (sym newest61)
        (generate_raw_frame-Arrives room 50 6 0 (λ i. 0) asking.0 (omega arith) (omega arith)
          (omega arith) asking.1))

receive-write_records_example :
    (c' : Chip) × (reply : RawFrame) × (write_records sim power_on (λ i. afternoon) 61 new_chip
      ≡ some c')
    × (receive sim room left_over asking.0.buf asking.0.len (record { chip = c'; clock = start })
        ≡ some (record { chip = c'; clock = start }, some reply))
    × (get_frame_data room reply.buf reply.len
        ≡ some (record { c1 = 50; c2 = type_of power_on; bytes = time_bytes read_clock.date_time }))
receive-write_records_example =
    receive-write_records sim room power_on (λ i. afternoon) (λ i. read_clock) 61 50 new_chip start
      left_over asking.0.buf asking.0.len power_on-IsRing (λ i. get-afternoon) (λ a p q. refl)
      (omega arith) (omega arith) (omega arith) (inr (omega arith)) (omega arith) (omega arith) refl
      refl
      (generate_raw_frame-Arrives room 50 6 0 (λ i. 0) asking.0 (omega arith) (omega arith)
        (omega arith) asking.1)

-- The data of "it is 19 July 2024, 13:36:40".
abbrev date_data : List ℕ
date_data = 0x07 ∷ 0xE8 ∷ 7 ∷ 19 ∷ 13 ∷ 36 ∷ 40 ∷ []

abbrev dating : Sending 0 set_current_time 7 (from_list date_data)
dating =
    generate_raw_frame-IsRaw 0 set_current_time 7 (from_list date_data) (omega arith) (omega arith)
      (omega arith)

abbrev asking_time : Sending 0 get_current_time_second 0 (λ i. 0)
asking_time =
    generate_raw_frame-IsRaw 0 get_current_time_second 0 (λ i. 0) (omega arith) (omega arith)
      (omega arith)

receive-later_example :
    let secs = 13 * 3600 + 36 * 60 + 40 + 1000 in
    (w1 : World) × (w2 : World) × (r1 : RawFrame) × (r2 : RawFrame) × (receive sim room left_over
        dating.0.buf dating.0.len world
      ≡ some (w1, some r1))
    × (receive sim room left_over asking_time.0.buf asking_time.0.len (later 1000 w1)
        ≡ some (w2, some r2))
    × (get_frame_data room r1.buf r1.len
        ≡ some (record { c1 = 0; c2 = set_current_time; bytes = date_data }))
    × (get_frame_data room r2.buf r2.len
        ≡ some (record {
          c1 = 0;
          c2 = get_current_time_second;
          bytes = second_bytes 0x07 0xE8 7 19 secs;
        }))
    × (w2.chip ≡ world.chip)
receive-later_example =
    receive-later sim room 0x07 0xE8 7 19 13 36 40 1000 0 0 left_over dating.0.buf left_over
      asking_time.0.buf dating.0.len asking_time.0.len world (omega arith) (omega arith) july-IsDate
      july_not_last (omega arith) (omega arith) (omega arith) (omega arith) (omega arith)
      (omega arith) refl refl
      (generate_raw_frame-Arrives room 0 set_current_time 7 (from_list date_data) dating.0
        (omega arith) (omega arith) (omega arith) dating.1)
      (generate_raw_frame-Arrives room 0 get_current_time_second 0 (λ i. 0) asking_time.0
        (omega arith) (omega arith) (omega arith) asking_time.1)

-- Fewer than six bytes are not looked at.
receive_few : receive sim room left_over line 5 world ≡ some (world, none)
unfolding receive read_ring answer
receive_few = refl

-- Thirty-three bytes are written behind the buffer.
receive_many : receive sim room left_over line 33 world ≡ none
unfolding receive read_ring
receive_many = refl
