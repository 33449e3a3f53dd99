-- ===== src/Flash/Query.antt =====
-- The functions of bsp/src/bsp_flash.c that answer the host: the counts of all types, and one
-- record's time.
pub mod Answers
pub mod History
use ch32v303rct6_rtt_mrs.Base.{◌>>=◌, ◌%◌, ◌/◌, [], ◌∷◌, u8, ℕ, zero, suc, Option, none, some, List}
use ch32v303rct6_rtt_mrs.Flash.Hal.{Mem}
use ch32v303rct6_rtt_mrs.Flash.Layout.{
  Record, alarm, alarm_rcy, fault, fault_rcy, power_down, power_on, sensor_end_of_life,
}
use ch32v303rct6_rtt_mrs.Flash.Records.{Frame, frame_of, num_records, read_record}

-- `TsTotalRecords`, as its bytes.
pub get_total_record : Mem → List ℕ
get_total_record m =
    num_records m alarm
    ∷ num_records m alarm_rcy
    ∷ num_records m fault
    ∷ num_records m fault_rcy
    ∷ num_records m power_down
    ∷ num_records m power_on
    ∷ num_records m sensor_end_of_life
    ∷ []

-- `record_type - 1` for the record types of `TeFrameC2`, 1 to 7; `none` for any other value.
unfoldable pub record_of : ℕ → Option Record
record_of (suc zero) = some alarm
record_of (suc (suc zero)) = some alarm_rcy
record_of (suc (suc (suc zero))) = some fault
record_of (suc (suc (suc (suc zero)))) = some fault_rcy
record_of (suc (suc (suc (suc (suc zero))))) = some power_down
record_of (suc (suc (suc (suc (suc (suc zero)))))) = some power_on
record_of (suc (suc (suc (suc (suc (suc (suc zero))))))) = some sensor_end_of_life
record_of _ = none

-- `TsRecordsTime`, as its bytes.
pub record_time : Frame → List ℕ
record_time f = u8 (f.year / 256) ∷ u8 (f.year % 256) ∷ f.month ∷ f.day ∷ f.hour ∷ f.minute ∷ []

-- `Flash_GetRecord`: the bytes that it fills in, `none` where it answers `NoREADY`. All ten bytes
-- of its local buffer are written before they are read.
pub get_record : Mem → ℕ → ℕ → Option (List ℕ)
unfolding record_of record_time
get_record m record_type index = do
  r ← record_of record_type
  some (record_time (frame_of (read_record m r index (λ i. 0))))
