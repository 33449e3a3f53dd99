-- ===== src/Flash/Query/Answers.antt =====
-- What the host is told of logs: all the counts, and the newest record.
use ch32v303rct6_rtt_mrs.Base.{
  ℕ, ◌+◌, ◌<◌, ◌≤◌, ◌/◌, ◌%◌, min, leb, if◌then◌else◌, some, [], ◌∷◌, arith, ◌≡◌, refl, u8, u16,
  ◌∙◌, ap,
}
use ch32v303rct6_rtt_mrs.Rtc.{DateTime}
use ch32v303rct6_rtt_mrs.Flash.Hal.{Mem, Chip}
use ch32v303rct6_rtt_mrs.Flash.Layout.{
  record_size, Record, alarm, alarm_rcy, fault, fault_rcy, power_down, power_on, sensor_end_of_life,
  max_num,
}
use ch32v303rct6_rtt_mrs.Flash.Records.{Frame, frame_of, read_record}
use ch32v303rct6_rtt_mrs.Flash.Records.Log.{IsLog, home}
use ch32v303rct6_rtt_mrs.Flash.Records.Room.{IsRing}
use ch32v303rct6_rtt_mrs.Flash.Records.Append.{Appended}
use ch32v303rct6_rtt_mrs.Flash.Records.Read.{named, num_records-IsLog, read_record-home}
use ch32v303rct6_rtt_mrs.Flash.Query.{get_total_record, record_of, record_time, get_record}

-- Where each of the seven areas is a log, Flash_GetTotalRecord answers with the seven numbers of
-- records, each at most max_num.
pub get_total_record_lem :
    (m : Mem) (n : Record → ℕ)
    → ((r : Record) → IsLog m r (n r) (max_num r) (n r))
    → get_total_record m
      ≡ min (n alarm) (max_num alarm)
        ∷ min (n alarm_rcy) (max_num alarm_rcy)
        ∷ min (n fault) (max_num fault)
        ∷ min (n fault_rcy) (max_num fault_rcy)
        ∷ min (n power_down) (max_num power_down)
        ∷ min (n power_on) (max_num power_on)
        ∷ min (n sensor_end_of_life) (max_num sensor_end_of_life)
        ∷ []
unfolding get_total_record
get_total_record_lem m n v =
    let count = λ (r : Record). num_records-IsLog m r (n r) (v r) in
    rw
      (
        count alarm,
        count alarm_rcy,
        count fault,
        count fault_rcy,
        count power_down,
        count power_on,
        count sensor_end_of_life,
      )
      refl

-- The record type by which the host asks for a log.
abbrev pub type_of : Record → ℕ
type_of alarm = 1
type_of alarm_rcy = 2
type_of fault = 3
type_of fault_rcy = 4
type_of power_down = 5
type_of power_on = 6
type_of sensor_end_of_life = 7

pub record_of_lem : (r : Record) → record_of (type_of r) ≡ some r
unfolding record_of
record_of_lem alarm = refl
record_of_lem alarm_rcy = refl
record_of_lem fault = refl
record_of_lem fault_rcy = refl
record_of_lem power_down = refl
record_of_lem power_on = refl
record_of_lem sensor_end_of_life = refl

-- The index that names the newest of `n` records.
abbrev pub newest : Record → ℕ → ℕ
newest r n = if leb n (max_num r) then n else 50

newest_lem :
    (r : Record) (n : ℕ)
    → IsRing r
    → 1 ≤ n
    → (1 ≤ newest r n) × (newest r n ≤ n) × (named r n (newest r n) ≡ n)
newest_lem r n ring lo = ground (arith, ring.0, ring.1)

-- After Flash_Write_Record has appended record n + 1 at a time, n below 32767, Flash_GetRecord
-- answers the host with that time, as year, month, day, hour and minute cut to their fields, for
-- the newest index: n + 1 while that is at most max_num, 50 after that.
pub get_record-Appended :
    (r : Record) (n : ℕ) (c c' : Chip) (t : DateTime)
    → IsRing r
    → n < 32767
    → Appended r n c t c'
    → get_record c'.mem (type_of r) (newest r (n + 1))
      ≡ some (
          u8 (u16 t.year / 256)
          ∷ u16 t.year % 256
          ∷ u8 t.month
          ∷ u8 t.day
          ∷ u8 t.hour
          ∷ u8 t.minute
          ∷ [])
unfolding get_record record_time
get_record-Appended r n c c' t ring small a =
    let k = newest r (n + 1) in
    let is = newest_lem r (n + 1) ring (omega arith) in
    let byte = λ (i : ℕ).
      read_record-home c'.mem r (n + 1) k (λ j. 0) i ring a.log is.0 is.1 (omega (arith, is.1)) in
    let b = λ (i : ℕ) (below : i < record_size).
      byte i below ∙ ap (λ (q : ℕ). c'.mem (home r q + i)) is.2 in
    let same : frame_of (read_record c'.mem r k (λ j. 0))
        ≡ frame_of (λ i. c'.mem (home r (n + 1) + i)) =
      ground (
        arith,
        b 0 (omega arith),
        b 1 (omega arith),
        b 2 (omega arith),
        b 3 (omega arith),
        b 4 (omega arith),
        b 5 (omega arith),
        b 6 (omega arith),
        b 7 (omega arith),
        b 8 (omega arith),
        b 9 (omega arith),
      ) in
    rw (record_of_lem r) (ap (λ (f : Frame). some (record_time f)) (same ∙ a.stored) ∙ ground arith)
