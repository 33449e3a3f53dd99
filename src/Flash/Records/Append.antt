-- ===== src/Flash/Records/Append.antt =====
-- `Flash_Write_Record` appends to the log of a type.
use mathlib.Core.Path.{refl}
use ch32v303rct6_rtt_mrs.Base.{
  [], ◌∷◌, get_or, ◌∙◌, ◌∷◌, false, u8, some, ◌⊎◌, u16, List, ℕ, zero, suc, ◌+◌, ◌*◌, ◌≤◌, ◌<◌,
  arith, ◌≡◌,
}
use ch32v303rct6_rtt_mrs.Rtc
use ch32v303rct6_rtt_mrs.Rtc.{Clock, DateTime}
use ch32v303rct6_rtt_mrs.Flash.Hal.{Chip, FlashHal}
use ch32v303rct6_rtt_mrs.Flash.Layout.{Record, pages, start_addr, page_size, record_size, max_num}
use ch32v303rct6_rtt_mrs.Flash.Driver.{write}
use ch32v303rct6_rtt_mrs.Flash.Driver.Write.{IsErased, IsBytes, Wrote, write-Wrote}
use ch32v303rct6_rtt_mrs.Flash.Driver.Erase.{start_addr-aligned}
use ch32v303rct6_rtt_mrs.Flash.Records.{
  frame_header, Frame, frame_bytes, frame_buf, frame_of, World, make_room, write_record_index,
  write_record,
}
use ch32v303rct6_rtt_mrs.Flash.Records.Slots.{page_no-lt, record_addr_lem}
use ch32v303rct6_rtt_mrs.Flash.Records.Log.{
  Same, append-Same, home, IsLog, IsLog-append, max_index-IsLog,
}
use ch32v303rct6_rtt_mrs.Flash.Records.Room.{IsRing, Ready, make_room-Ready}

abbrev pub All : (ℕ → Type 0) → List ℕ → Type 0
All P [] = Unit
All P (x ∷ xs) = P x × All P xs

pub get_or-lt : (xs : List ℕ) (i : ℕ) → All (λ x. x < 256) xs → get_or xs i 0 < 256
get_or-lt [] i h = omega arith
get_or-lt (x ∷ xs) zero h = h.0
get_or-lt (x ∷ xs) (suc i) h = get_or-lt xs i h.1

frame_buf-IsBytes : (f : Frame) → IsBytes (frame_buf f)
frame_buf-IsBytes f i = get_or-lt (frame_bytes f) i (omega arith)

-- The frame of record `n + 1` at a time, and what its bytes keep of it.
abbrev pub filled : ℕ → DateTime → Frame
filled n t = record {
  header = frame_header;
  index = n + 1;
  year = t.year;
  month = t.month;
  day = t.day;
  hour = t.hour;
  minute = t.minute;
}

abbrev pub stamped : ℕ → DateTime → Frame
stamped n t = record {
  header = frame_header;
  index = n + 1;
  year = u16 t.year;
  month = u8 t.month;
  day = u8 t.day;
  hour = u8 t.hour;
  minute = u8 t.minute;
}

-- After the call: a log of one record more, which is the time's frame; the bytes of the other
-- records that are kept are as they were; nothing outside the area
-- of the type has changed; the flash is locked and the interrupt level is back.
pub record Appended (r : Record) (n : ℕ) (c : Chip) (t : DateTime) (c' : Chip) : Type 0 where
  pub log : IsLog c'.mem r (n + 1) (max_num r) (n + 1)
  pub stored : frame_of (λ i. c'.mem (home r (n + 1) + i)) ≡ stamped n t
  pub stays : (k : ℕ) → 1 ≤ k → k ≤ n → n + 1 < k + max_num r → Same c.mem c'.mem (home r k)
  pub frame :
      (a : ℕ) → (a < start_addr r) ⊎ (start_addr r + page_size * pages r ≤ a) → c'.mem a ≡ c.mem a
  pub locked : c'.unlocked ≡ false
  pub level : c'.interrupts ≡ c.interrupts

module _ (hal : FlashHal) where
  write_record_index-Wrote :
      (f : Frame) (r : Record) (n : ℕ) (c : Chip)
      → n < 65535
      → IsErased c.mem (home r (n + 1)) (home r (n + 1) + record_size)
      → (out : ℕ × Chip) × (write_record_index hal f r (n + 1) c ≡ out.1)
        × Wrote (home r (n + 1)) 0 record_size (frame_buf f) c c.interrupts out
  unfolding write_record_index
  write_record_index-Wrote f r n c small blank =
      let at = (record_addr_lem r (n + 1) (omega arith) (omega arith)).1 in
      (
        write hal (home r (n + 1)) (frame_buf f) record_size c,
        rw (at, write_record_index) refl,
        write-Wrote hal (home r (n + 1)) record_size (frame_buf f) c (frame_buf-IsBytes f)
            (omega (arith, start_addr-aligned r)) refl blank,
      )

  module _ (r : Record) (n : ℕ) (c c1 : Chip) (t : DateTime) (ring : IsRing r) (small : n < 65535)
      (ready : Ready hal r n c c1) (out : ℕ × Chip)
      (w : Wrote (home r (n + 1)) 0 record_size (frame_buf (filled n t)) c1 c1.interrupts out) where
    frame_stored : frame_of (λ i. out.1.mem (home r (n + 1) + i)) ≡ stamped n t
    frame_stored = ground (
      arith,
      w.inside 0,
      w.inside 1,
      w.inside 2,
      w.inside 3,
      w.inside 4,
      w.inside 5,
      w.inside 6,
      w.inside 7,
      w.inside 8,
      w.inside 9,
    )

    Wrote-Appended : Appended r n c t out.1
    Wrote-Appended = record {
      log =
          IsLog-append r n (max_num r) (filled n t) c1 c1.interrupts out small
            (omega (arith, ring.0)) (omega arith) refl refl ready.log w;
      stored = frame_stored;
      stays = λ k lo hi near a p below.
          append-Same r n (max_num r) (filled n t) c1 c1.interrupts out small
            (omega (arith, ring.0)) (omega arith) refl refl ready.log w k lo hi near a p below
          ∙ ready.stays k lo hi (omega arith) a p below;
      frame = λ a p. w.outside a (ground (arith, page_no-lt r (n + 1))) ∙ ready.frame a p;
      locked = w.locked;
      level = w.restored ∙ ready.level;
    }

  -- For a type with spare pages whose area is a log of n records, n below 65535, and a clock that
  -- reads, Flash_Write_Record succeeds and leaves a log of n + 1 records whose newest is the
  -- clock's time with index n + 1; the highest index is found from n + 1, the last max_num
  -- records are kept, the older ones with their bytes as they were, and the next slots are
  -- erased. Nothing outside the area changes, the flash is locked and the interrupt level is
  -- back.
  pub write_record-Appended :
      (r : Record) (n : ℕ) (w : World) (clock : Clock)
      → IsRing r
      → n < 65535
      → IsLog w.chip.mem r n (max_num r) n
      → Rtc.get w.clock ≡ some clock
      → (c' : Chip) × (write_record hal r w ≡ some (record { chip = c'; clock = clock }))
        × Appended r n w.chip clock.date_time c'
  unfolding write_record
  write_record-Appended r n w clock ring small v read =
      let ready = make_room-Ready hal r n w.chip ring small v in
      let c1 = make_room hal r n w.chip in
      let t = clock.date_time in
      let (out, same, wrote) =
        write_record_index-Wrote (filled n t) r n c1 small
          (ready.log.ahead (n + 1) (omega arith) (ground arith)) in
      let found = max_index-IsLog w.chip.mem r n (max_num r) n (omega (arith, ring)) v in
      let next : u16 (n + 1) ≡ n + 1 = omega arith in
      (
        out.1,
        rw (found, read, next, same) refl,
        Wrote-Appended r n w.chip c1 t ring small ready out wrote,
      )
