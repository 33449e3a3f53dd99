-- ===== src/Hr/Process/History.antt =====
-- What the device records, the host reads.
use mathlib.Core.Path.{refl}
use ch32v303rct6_rtt_mrs.Base.{
  ◌⊎◌, ℕ, ◌+◌, ◌/◌, ◌%◌, ◌≤◌, ◌<◌, ◌&&◌, false, some, List, [], ◌∷◌, ltb, ◌==◌, ◌>>=◌, get_or,
  arith, ◌≡◌, ◌≢◌, u8, u16,
}
use ch32v303rct6_rtt_mrs.Rtc
use ch32v303rct6_rtt_mrs.Rtc.{Clock, DateTime}
use ch32v303rct6_rtt_mrs.Flash.Hal.{FlashHal}
use ch32v303rct6_rtt_mrs.Flash.Layout.{
  Record, alarm, alarm_rcy, fault, fault_rcy, power_down, power_on, sensor_end_of_life, max_num,
  pages,
}
use ch32v303rct6_rtt_mrs.Flash.Records.{World, write_record}
use ch32v303rct6_rtt_mrs.Flash.Records.Log.{IsLog}
use ch32v303rct6_rtt_mrs.Flash.Records.Room.{IsRing}
use ch32v303rct6_rtt_mrs.Flash.Records.Append.{write_record-Appended}
use ch32v303rct6_rtt_mrs.Flash.Query.{get_record}
use ch32v303rct6_rtt_mrs.Flash.Query.Answers.{type_of, newest, get_record-Appended}
use ch32v303rct6_rtt_mrs.Hr.Frame.{FrameData, RawFrame, generate_raw_frame}
use ch32v303rct6_rtt_mrs.Hr.Frame.Parse.{generate_raw_frame-IsRaw}
use ch32v303rct6_rtt_mrs.Hr.Process.{
  Reply, reply_to, process_data, alarm_record_reply, record_reply, sensor_failure_record,
}

-- The six bytes by which a time is answered.
abbrev pub time_bytes : DateTime → List ℕ
time_bytes t =
    u8 (u16 t.year / 256) ∷ u16 t.year % 256 ∷ u8 t.month ∷ u8 t.day ∷ u8 t.hour ∷ u8 t.minute ∷ []

pub type_of-lt : (r : Record) → type_of r < 256
type_of-lt alarm = omega arith
type_of-lt alarm_rcy = omega arith
type_of-lt fault = omega arith
type_of-lt fault_rcy = omega arith
type_of-lt power_down = omega arith
type_of-lt power_on = omega arith
type_of-lt sensor_end_of_life = omega arith

pub newest-lt : (r : Record) (n : ℕ) → IsRing r → 1 ≤ n → (1 ≤ newest r n) × (newest r n < 256)
unfolding max_num pages
newest-lt alarm n ring lo = ground arith
newest-lt alarm_rcy n ring lo = ground arith
newest-lt fault n ring lo = ground arith
newest-lt fault_rcy n ring lo = ground arith
newest-lt power_down n ring lo = ground arith
newest-lt power_on n ring lo = ground arith
newest-lt sensor_end_of_life n ring lo = absurd (omega arith)

pub index-lt : (r : Record) (n k : ℕ) → IsRing r → k ≤ n → (n ≤ max_num r) ⊎ (k ≤ 50) → k < 256
unfolding max_num
index-lt alarm n k ring there known = omega arith
index-lt alarm_rcy n k ring there known = omega arith
index-lt fault n k ring there known = omega arith
index-lt fault_rcy n k ring there known = omega arith
index-lt power_down n k ring there known = omega arith
index-lt power_on n k ring there known = omega arith
index-lt sensor_end_of_life n k ring there known = omega arith

module _ (hal : FlashHal) where
  -- A record that reads, and does not begin with 0, is the reply.
  reply_to-record :
      (r : Record) (k : ℕ) (bytes : List ℕ) (w : World)
      → IsRing r
      → get_record w.chip.mem (type_of r) k ≡ some bytes
      → get_or bytes 0 0 ≢ 0
      → reply_to hal (record { c1 = k; c2 = type_of r; bytes = [] }) w
        ≡ some (w, record { c1 = k; data_len = 6; data_field = bytes })
  unfolding reply_to alarm_record_reply record_reply max_num pages
  reply_to-record alarm k bytes w ring read ne =
      let full : (get_or bytes 0 0 == 0) ≡ false = ground arith in rw (read, full) refl
  reply_to-record alarm_rcy k bytes w ring read ne = rw read refl
  reply_to-record fault k bytes w ring read ne = rw read refl
  reply_to-record fault_rcy k bytes w ring read ne = rw read refl
  reply_to-record power_down k bytes w ring read ne = rw read refl
  reply_to-record power_on k bytes w ring read ne = rw read refl
  reply_to-record sensor_end_of_life k bytes w ring read ne = absurd (omega arith)

  -- A reply to a record that is asked for by a number is sent as it stands.
  process_data-numbered :
      (f : FrameData) (w w' : World) (r : Reply)
      → r.c1 ≢ 0
      → reply_to hal f w ≡ some (w', r)
      → process_data hal f w ≡ (
          generate_raw_frame r.c1 f.c2 (λ i. get_or r.data_field i 0) r.data_len >>= λ raw.
          some (w', raw))
  unfolding process_data
  process_data-numbered f w w' r ne e =
      let same : ((r.c1 == 0) && (ltb 0 f.c2 && ltb f.c2 sensor_failure_record)) ≡ false =
        ground arith in
      rw (e, same) refl

  -- A record that reads with a time is answered by the frame of the time's bytes.
  pub process_data-record :
      (r : Record) (k : ℕ) (t : DateTime) (w : World)
      → IsRing r
      → 1 ≤ k
      → k < 256
      → get_record w.chip.mem (type_of r) k ≡ some (time_bytes t)
      → 256 ≤ t.year
      → t.year < 65536
      → (raw : RawFrame) × (process_data hal (record { c1 = k; c2 = type_of r; bytes = [] }) w
          ≡ some (w, raw))
        × (generate_raw_frame k (type_of r) (λ i. get_or (time_bytes t) i 0) 6 ≡ some raw)
  process_data-record r k t w ring one byte got lo hi =
      let field = λ (i : ℕ). get_or (time_bytes t) i 0 in
      let replied = reply_to-record r k (time_bytes t) w ring got (ground arith) in
      let (raw, made, is) =
        generate_raw_frame-IsRaw k (type_of r) 6 field byte (type_of-lt r) (omega arith) in
      let sent =
        process_data-numbered (record { c1 = k; c2 = type_of r; bytes = [] }) w w
          (record { c1 = k; data_len = 6; data_field = time_bytes t }) (omega arith) replied in
      (raw, rw (sent, made) refl, made)

  -- A record that was written is answered, by its type and its number, with its time.
  pub process_data-write_record :
      (r : Record) (n : ℕ) (w : World) (clock : Clock)
      → IsRing r
      → n < 32767
      → IsLog w.chip.mem r n (max_num r) n
      → Rtc.get w.clock ≡ some clock
      → 256 ≤ clock.date_time.year
      → clock.date_time.year < 65536
      → (w' : World) × (raw : RawFrame) × (write_record hal r w ≡ some w')
        × (process_data hal (record { c1 = newest r (n + 1); c2 = type_of r; bytes = [] }) w'
            ≡ some (w', raw))
        × (generate_raw_frame
              (newest r (n + 1))
              (type_of r)
              (λ i. get_or (time_bytes clock.date_time) i 0)
              6
            ≡ some raw)
  process_data-write_record r n w clock ring small log read lo hi =
      let (one, byte) = newest-lt r (n + 1) ring (omega arith) in
      let (c', wrote, app) = write_record-Appended hal r n w clock ring (omega arith) log read in
      let got = get_record-Appended r n w.chip c' clock.date_time ring small app in
      let w' : World = record { chip = c'; clock = clock } in
      let (raw, sent, made) =
        process_data-record r (newest r (n + 1)) clock.date_time w' ring one byte got lo hi in
      (w', raw, wrote, sent, made)
