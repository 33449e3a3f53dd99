-- ===== src/Hr/Process/Queries.antt =====
-- The commands that leave the flash alone.
use mathlib.Core.Path.{refl}
use ch32v303rct6_rtt_mrs.Base.{
  ap, ◌∙◌, ap, ◌∙◌, ℕ, ◌<◌, Option, none, some, List, [], ◌∷◌, ◌>>=◌, arith, ◌≡◌, ◌⊎◌,
}
use ch32v303rct6_rtt_mrs.Flash.Hal.{FlashHal}
use ch32v303rct6_rtt_mrs.Flash.Records.{World}
use ch32v303rct6_rtt_mrs.Hr.Frame.{FrameData, RawFrame}
use ch32v303rct6_rtt_mrs.Hr.Process.{
  reply_to, process_data, Reply, set_alarm, set_factory_time, set_time_reply, get_alarm_reply,
  get_time_reply, get_second_reply,
}

-- What a chain that comes through passes.
bind-some {ℓ κ} :
    {A : Type ℓ} {B : Type κ} (o : Option A) (k : A → Option B) (b : B)
    → (o >>= k) ≡ some b
    → (a : A) × (o ≡ some a) × (k a ≡ some b)
bind-some none k b e = absurd (cc)
bind-some (some a) k b e = (a, refl, e)

sent_world :
    (o : Option RawFrame) (w w' : World) (raw : RawFrame)
    → ◌>>=◌ {B = World × RawFrame} o (λ r. some (w, r)) ≡ some (w', raw)
    → w ≡ w'
sent_world none w w' raw e = absurd (cc)
sent_world (some r) w w' raw e = cc

get_time_reply-chip :
    (c1 : ℕ) (w w' : World) (r : Reply) → get_time_reply c1 w ≡ some (w', r) → w'.chip ≡ w.chip
unfolding get_time_reply
get_time_reply-chip c1 w w' r e = ground arith

get_second_reply-chip :
    (c1 : ℕ) (w w' : World) (r : Reply) → get_second_reply c1 w ≡ some (w', r) → w'.chip ≡ w.chip
unfolding get_second_reply
get_second_reply-chip c1 w w' r e = ground arith

set_time_reply-chip :
    (c1 : ℕ) (bytes : List ℕ) (w w' : World) (r : Reply)
    → set_time_reply c1 bytes w ≡ some (w', r)
    → w'.chip ≡ w.chip
unfolding set_time_reply
set_time_reply-chip c1 [] w w' r e = ground arith
set_time_reply-chip c1 (a ∷ []) w w' r e = ground arith
set_time_reply-chip c1 (a ∷ b ∷ []) w w' r e = ground arith
set_time_reply-chip c1 (a ∷ b ∷ c ∷ []) w w' r e = ground arith
set_time_reply-chip c1 (a ∷ b ∷ c ∷ d ∷ []) w w' r e = ground arith
set_time_reply-chip c1 (a ∷ b ∷ c ∷ d ∷ x ∷ []) w w' r e = ground arith
set_time_reply-chip c1 (a ∷ b ∷ c ∷ d ∷ x ∷ y ∷ []) w w' r e = ground arith
set_time_reply-chip c1 (a ∷ b ∷ c ∷ d ∷ x ∷ y ∷ z ∷ l) w w' r e = ground arith

module _ (hal : FlashHal) where
  reply_to-chip :
      (f : FrameData) (w w' : World) (r : Reply)
      → (f.c2 < set_factory_time) ⊎ (set_alarm < f.c2)
      → reply_to hal f w ≡ some (w', r)
      → w'.chip ≡ w.chip
  unfolding reply_to get_alarm_reply
  reply_to-chip f w w' r query e = ground (
    arith,
    get_time_reply-chip f.c1 w w' r,
    get_second_reply-chip f.c1 w w' r,
    set_time_reply-chip f.c1 f.bytes w w' r,
  )

  -- When HR_ProcessData answers a command other than the three that set a limit or the alarm
  -- value, and other than the unused number 14, it leaves the flash as it was.
  pub process_data-chip :
      (f : FrameData) (w w' : World) (raw : RawFrame)
      → (f.c2 < set_factory_time) ⊎ (set_alarm < f.c2)
      → process_data hal f w ≡ some (w', raw)
      → w'.chip ≡ w.chip
  unfolding process_data
  process_data-chip f w w' raw query e =
      let ((w1, r), replied, sent) = bind-some (reply_to hal f w) _ (w', raw) e in
      let same = sent_world _ w1 w' raw sent in
      reply_to-chip f w w' r query (replied ∙ ap (λ (u : World). some (u, r)) same)
