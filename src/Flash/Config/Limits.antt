-- ===== src/Flash/Config/Limits.antt =====
-- The time limits and the alarm value: what is set is read back, and each leaves the others alone.
use ch32v303rct6_rtt_mrs.Base.{u8, ◌≢◌, ◌-◌, u16, true, ℕ, ◌+◌, ◌<◌, arith, ◌≡◌}
use ch32v303rct6_rtt_mrs.Flash.Hal.{Chip, FlashHal}
use ch32v303rct6_rtt_mrs.Flash.Layout.{config_addr, time_frame_size, alarm_value_addr}
use ch32v303rct6_rtt_mrs.Flash.Driver.{Buf}
use ch32v303rct6_rtt_mrs.Flash.Driver.Write.{IsBytes}
use ch32v303rct6_rtt_mrs.Flash.Config.{
  LimitId, other_id, TimeFrame, time_bytes, time_of, time_header, value_bytes, limit_addr,
  limit_offset, get_time_limit, get_alarm_value, set_time_limit, set_alarm_value,
}
use ch32v303rct6_rtt_mrs.Flash.Config.Page.{Patched, patch-Patched}
use ch32v303rct6_rtt_mrs.Flash.Records.Append.{get_or-lt}

-- The frame that is stored for a time.
abbrev pub limit_frame : ℕ → ℕ → ℕ → ℕ → ℕ → ℕ → TimeFrame
limit_frame year month day hour minute second = record {
  header = time_header;
  year = u16 year;
  month = u8 month;
  day = u8 day;
  hour = u8 hour;
  minute = u8 minute;
  second = u8 second;
}

-- The frame that the setter fills in.
abbrev pub filled_limit : ℕ → ℕ → ℕ → ℕ → ℕ → ℕ → TimeFrame
filled_limit year month day hour minute second = record {
  header = time_header;
  year = year;
  month = month;
  day = day;
  hour = hour;
  minute = minute;
  second = second;
}

-- The two ids that the code knows.
abbrev pub IsLimit : LimitId → Type 0
IsLimit id = id ≢ other_id

module _ (hal : FlashHal) (c : Chip) (flash : IsBytes c.mem) where
  module _ (year month day hour minute second : ℕ) (id : LimitId) where
    pub set_time_limit-Patched :
        Patched
          (limit_offset id)
          time_frame_size
          (time_bytes (filled_limit year month day hour minute second))
          c
          (set_time_limit hal year month day hour minute second id c)
    unfolding set_time_limit
    set_time_limit-Patched =
        patch-Patched hal (limit_offset id) time_frame_size _ c
          (λ k.
            get_or-lt (time_bytes (filled_limit year month day hour minute second)) k (omega arith))
          flash (ground arith)

    -- On a flash of bytes, Flash_GetProductTimeLimit answers READY for either id with the limit
    -- that Flash_SetProductTimeLimit stored for it, cut to its fields.
    pub get-set_time_limit :
        (buf : Buf)
        → IsLimit id
        → let r =
            get_time_limit (set_time_limit hal year month day hour minute second id c).mem id buf in
          (r.0 ≡ true) × (time_of r.1 ≡ limit_frame year month day hour minute second)
    unfolding get_time_limit
    get-set_time_limit buf known =
        let p = set_time_limit-Patched in
        ground (
          arith,
          p.inside 0,
          p.inside 1,
          p.inside 2,
          p.inside 3,
          p.inside 4,
          p.inside 5,
          p.inside 6,
          p.inside 7,
        )

    -- On a flash of bytes, Flash_SetProductTimeLimit leaves the alarm value as it is, for any id.
    pub get_alarm_value-set_time_limit :
        get_alarm_value (set_time_limit hal year month day hour minute second id c).mem
        ≡ get_alarm_value c.mem
    unfolding get_alarm_value
    get_alarm_value-set_time_limit =
        let p = set_time_limit-Patched in
        let a = alarm_value_addr in
        ground (arith, p.outside a, p.outside (a + 1), p.outside (a + 2), p.outside (a + 3))

  pub set_alarm_value-Patched :
      (value : ℕ)
      → Patched
          (alarm_value_addr - config_addr)
          4
          (value_bytes value)
          c
          (set_alarm_value hal value c)
  unfolding set_alarm_value
  set_alarm_value-Patched value =
      patch-Patched hal (alarm_value_addr - config_addr) 4 (value_bytes value) c
        (λ k. get_or-lt (value_bytes value) k (omega arith)) flash (omega arith)

  -- On a flash of bytes, Flash_Get_AlarmLel reads back the 16-bit value that Flash_Set_AlarmLel
  -- stored.
  pub get-set_alarm_value :
      (value : ℕ) → value < 65536 → get_alarm_value (set_alarm_value hal value c).mem ≡ value
  unfolding get_alarm_value
  get-set_alarm_value value fits =
      let p = set_alarm_value-Patched value in
      ground (arith, p.inside 0, p.inside 1, p.inside 2, p.inside 3)

  -- On a flash of bytes, Flash_Set_AlarmLel leaves both time limits as they are, byte for byte.
  pub get_time_limit-set_alarm_value :
      (value : ℕ) (id : LimitId) (buf : Buf) (i : ℕ)
      → IsLimit id
      → i < time_frame_size
      → (get_time_limit (set_alarm_value hal value c).mem id buf).1 i
        ≡ (get_time_limit c.mem id buf).1 i
  unfolding get_time_limit
  get_time_limit-set_alarm_value value id buf i known below =
      let p = set_alarm_value-Patched value in
      ground (arith, p.outside (limit_addr id + i), p.outside (limit_addr id))
