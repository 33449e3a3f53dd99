-- ===== src/Hr/Process/Short.antt =====
-- Commands with fewer bytes of data than the code reads.
use mathlib.Core.Path.{refl}
use ch32v303rct6_rtt_mrs.Base.{ℕ, ◌≤◌, ◌<◌, none, List, [], ◌∷◌, arith, ◌≡◌, ◌⊎◌, length}
use ch32v303rct6_rtt_mrs.Flash.Hal.{FlashHal}
use ch32v303rct6_rtt_mrs.Flash.Records.{World}
use ch32v303rct6_rtt_mrs.Flash.Config.{LimitId, factory_time, expiration_time}
use ch32v303rct6_rtt_mrs.Hr.Frame.{FrameData}
use ch32v303rct6_rtt_mrs.Hr.Process.{
  reply_to, process_data, set_alarm, set_current_time, set_expiration_time, set_time_reply,
  set_limit_reply, set_alarm_reply,
}

set_time_reply_short :
    (c1 : ℕ) (bytes : List ℕ) (w : World) → length bytes < 7 → set_time_reply c1 bytes w ≡ none
unfolding set_time_reply
set_time_reply_short c1 [] w h = refl
set_time_reply_short c1 (a ∷ []) w h = refl
set_time_reply_short c1 (a ∷ b ∷ []) w h = refl
set_time_reply_short c1 (a ∷ b ∷ c ∷ []) w h = refl
set_time_reply_short c1 (a ∷ b ∷ c ∷ d ∷ []) w h = refl
set_time_reply_short c1 (a ∷ b ∷ c ∷ d ∷ x ∷ []) w h = refl
set_time_reply_short c1 (a ∷ b ∷ c ∷ d ∷ x ∷ y ∷ []) w h = refl
set_time_reply_short c1 (a ∷ b ∷ c ∷ d ∷ x ∷ y ∷ z ∷ l) w h = absurd (omega arith)

module _ (hal : FlashHal) where
  set_limit_reply_short :
      (id : LimitId) (c1 : ℕ) (bytes : List ℕ) (w : World)
      → length bytes < 7
      → set_limit_reply hal id c1 bytes w ≡ none
  unfolding set_limit_reply
  set_limit_reply_short id c1 [] w h = refl
  set_limit_reply_short id c1 (a ∷ []) w h = refl
  set_limit_reply_short id c1 (a ∷ b ∷ []) w h = refl
  set_limit_reply_short id c1 (a ∷ b ∷ c ∷ []) w h = refl
  set_limit_reply_short id c1 (a ∷ b ∷ c ∷ d ∷ []) w h = refl
  set_limit_reply_short id c1 (a ∷ b ∷ c ∷ d ∷ x ∷ []) w h = refl
  set_limit_reply_short id c1 (a ∷ b ∷ c ∷ d ∷ x ∷ y ∷ []) w h = refl
  set_limit_reply_short id c1 (a ∷ b ∷ c ∷ d ∷ x ∷ y ∷ z ∷ l) w h = absurd (omega arith)

  set_alarm_reply_short :
      (c1 : ℕ) (bytes : List ℕ) (w : World)
      → length bytes < 2
      → set_alarm_reply hal c1 bytes w ≡ none
  unfolding set_alarm_reply
  set_alarm_reply_short c1 [] w h = refl
  set_alarm_reply_short c1 (a ∷ []) w h = refl
  set_alarm_reply_short c1 (a ∷ b ∷ l) w h = absurd (omega arith)

  reply_to_short :
      (f : FrameData) (w : World)
      → ((set_current_time ≤ f.c2) × (f.c2 ≤ set_expiration_time) × (length f.bytes < 7))
        ⊎ ((f.c2 ≡ set_alarm) × (length f.bytes < 2))
      → reply_to hal f w ≡ none
  unfolding reply_to
  reply_to_short f w short = ground (
    arith,
    set_time_reply_short f.c1 f.bytes w,
    set_limit_reply_short factory_time f.c1 f.bytes w,
    set_limit_reply_short expiration_time f.c1 f.bytes w,
    set_alarm_reply_short f.c1 f.bytes w,
  )

  -- HR_ProcessData reads behind the end of a frame's data for a command that sets a time with
  -- fewer than seven bytes, or the alarm value with fewer than two.
  pub process_data_short :
      (f : FrameData) (w : World)
      → ((set_current_time ≤ f.c2) × (f.c2 ≤ set_expiration_time) × (length f.bytes < 7))
        ⊎ ((f.c2 ≡ set_alarm) × (length f.bytes < 2))
      → process_data hal f w ≡ none
  unfolding process_data
  process_data_short f w short = rw (reply_to_short f w short) refl
