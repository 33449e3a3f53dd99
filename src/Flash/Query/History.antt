-- ===== src/Flash/Query/History.antt =====
-- The log of a type is a queue of the times of its last events, and the host reads it.
use mathlib.Core.Path.{refl, subst}
use native.Mathlib.Decide.{ℕ_discrete}
use ch32v303rct6_rtt_mrs.Base.{
  sym, ap, ◌∙◌, ℕ, zero, suc, ◌+◌, ◌-◌, ◌*◌, ◌/◌, ◌%◌, ◌≤◌, ◌<◌, ◌⊎◌, Option, some, [], ◌∷◌, ◌>>=◌,
  arith, ◌≡◌, u8, u16,
}
use ch32v303rct6_rtt_mrs.Rtc
use ch32v303rct6_rtt_mrs.Rtc.{Clock, DateTime}
use ch32v303rct6_rtt_mrs.Flash.Hal.{Mem, Chip, FlashHal}
use ch32v303rct6_rtt_mrs.Flash.Layout.{Record, record_size, max_num, pages, page_size, start_addr}
use ch32v303rct6_rtt_mrs.Flash.Driver.Write.{IsErased}
use ch32v303rct6_rtt_mrs.Flash.Records.{Frame, frame_of, read_record, write_record}
use ch32v303rct6_rtt_mrs.Flash.Records.Log.{IsLog, home}
use ch32v303rct6_rtt_mrs.Flash.Records.Room.{IsRing}
use ch32v303rct6_rtt_mrs.Flash.Records.Append.{Appended, stamped, write_record-Appended}
use ch32v303rct6_rtt_mrs.Flash.Records.Read.{named, read_record-home}
use ch32v303rct6_rtt_mrs.Flash.Records.Clear.{IsErased-IsLog}
use ch32v303rct6_rtt_mrs.Flash.Query.{record_time, get_record}
use ch32v303rct6_rtt_mrs.Flash.Query.Answers.{type_of, record_of_lem}

-- The frame of record `k`.
abbrev pub frame_at : Mem → Record → ℕ → Frame
frame_at m r k = frame_of (λ i. m (home r k + i))

-- A log of `n` records, of which the last max_num have the times `time k` of the events `k`.
pub record IsHistory (m : Mem) (r : Record) (n : ℕ) (time : ℕ → DateTime) : Type 0 where
  pub log : IsLog m r n (max_num r) n
  pub dated :
      (k : ℕ) → 1 ≤ k → k ≤ n → n < k + max_num r → frame_at m r k ≡ stamped (k - 1) (time k)

frame_of-same : (p q : ℕ → ℕ) → ((i : ℕ) → i < record_size → p i ≡ q i) → frame_of p ≡ frame_of q
frame_of-same p q same = ground (
  arith,
  same 0 (omega arith),
  same 1 (omega arith),
  same 2 (omega arith),
  same 3 (omega arith),
  same 4 (omega arith),
  same 5 (omega arith),
  same 6 (omega arith),
  same 7 (omega arith),
  same 8 (omega arith),
  same 9 (omega arith),
)

-- One event more.
Appended-IsHistory :
    (r : Record) (n : ℕ) (c c' : Chip) (time : ℕ → DateTime)
    → IsHistory c.mem r n time
    → Appended r n c (time (n + 1)) c'
    → IsHistory c'.mem r (n + 1) time
Appended-IsHistory r n c c' time h a = record {
  log = a.log;
  dated = λ k lo hi near. elim (ℕ_discrete k (n + 1)) [
    | yes e ↦
        let back : n ≡ n + 1 - 1 = omega arith in
        subst (λ (j : ℕ). frame_at c'.mem r j ≡ stamped (j - 1) (time j)) (sym e)
          (a.stored ∙ ap (λ (j : ℕ). stamped j (time (n + 1))) back)
    | no ne ↦
        let stays = a.stays k lo (omega arith) near in
        frame_of-same (λ i. c'.mem (home r k + i)) (λ i. c.mem (home r k + i))
          (λ i below. stays (home r k + i) (omega arith) (omega arith))
        ∙ h.dated k lo (omega arith) (omega arith)
  ];
}

-- The time of an index.
pub get_record-IsHistory :
    (m : Mem) (r : Record) (n k : ℕ) (time : ℕ → DateTime)
    → IsRing r
    → IsHistory m r n time
    → 1 ≤ k
    → k ≤ n
    → n < 32768
    → (n ≤ max_num r) ⊎ (k ≤ 50)
    → let t = time (named r n k) in
      get_record m (type_of r) k
      ≡ some (
          u8 (u16 t.year / 256)
          ∷ u16 t.year % 256
          ∷ u8 t.month
          ∷ u8 t.day
          ∷ u8 t.hour
          ∷ u8 t.minute
          ∷ [])
unfolding get_record record_time
get_record-IsHistory m r n k time ring h lo hi small known =
    let same : frame_of (read_record m r k (λ i. 0)) ≡ frame_at m r (named r n k) =
      frame_of-same (read_record m r k (λ i. 0)) (λ i. m (home r (named r n k) + i))
        (λ i below. read_record-home m r n k (λ j. 0) i ring h.log lo hi (omega arith) below) in
    let dated =
      h.dated (named r n k) (ground (arith, ring.0, ring.1)) (ground arith)
        (ground (arith, ring.0, ring.1)) in
    rw (record_of_lem r) (ap (λ (f : Frame). some (record_time f)) (same ∙ dated) ∙ ground arith)

-- `Flash_Write_Record` for `n` events of one type, with the clock of each.
module _ (hal : FlashHal) (r : Record) (clock : ℕ → Clock) where
  pub write_records : ℕ → Chip → Option Chip
  write_records zero c = some c
  write_records (suc n) c = write_records n c >>= λ c'.
      write_record hal r (record { chip = c'; clock = clock (suc n) }) >>= λ w. some w.chip

  write_records-IsHistory :
      (now : ℕ → Clock) (n : ℕ) (c : Chip)
      → IsRing r
      → n < 65536
      → ((i : ℕ) → Rtc.get (clock i) ≡ some (now i))
      → IsErased c.mem (start_addr r) (start_addr r + page_size * pages r)
      → (c' : Chip) × (write_records n c ≡ some c') × IsHistory c'.mem r n (λ i. (now i).date_time)
  unfolding write_records
  write_records-IsHistory now zero c ring small reads blank = (
    c,
    refl,
    record {
      log = IsErased-IsLog c.mem r (max_num r) blank;
      dated = λ k lo hi near. absurd (omega arith);
    },
  )
  write_records-IsHistory now (suc n) c ring small reads blank =
      let (c1, run, h) = write_records-IsHistory now n c ring (omega arith) reads blank in
      let next : n + 1 ≡ suc n = omega arith in
      let (c2, wrote, a) =
        write_record-Appended hal r n (record { chip = c1; clock = clock (suc n) }) (now (suc n))
          ring (omega arith) h.log (reads (suc n)) in
      let a' : Appended r n c1 (now (n + 1)).date_time c2 =
        subst (λ (j : ℕ). Appended r n c1 (now j).date_time c2) (sym next) a in
      let h' = Appended-IsHistory r n c1 c2 (λ i. (now i).date_time) h a' in
      (
        c2,
        rw run (rw wrote refl),
        subst (λ (j : ℕ). IsHistory c2.mem r j (λ i. (now i).date_time)) next h',
      )

  -- A type with spare pages is a queue of the times of its last events: on an erased area, n
  -- calls of Flash_Write_Record, n below 32768, each with a clock that reads, all succeed, and
  -- Flash_GetRecord then answers for an index k from 1 to n with the time of event k if n is at
  -- most max_num, and with that of event n + k - 50 if n is larger and k at most 50, as year,
  -- month, day, hour and minute cut to their fields.
  pub get_record-write_records :
      (now : ℕ → Clock) (n k : ℕ) (c : Chip)
      → IsRing r
      → ((i : ℕ) → Rtc.get (clock i) ≡ some (now i))
      → IsErased c.mem (start_addr r) (start_addr r + page_size * pages r)
      → n < 32768
      → 1 ≤ k
      → k ≤ n
      → (n ≤ max_num r) ⊎ (k ≤ 50)
      → let t = (now (named r n k)).date_time in
        (c' : Chip) × (write_records n c ≡ some c')
        × (get_record c'.mem (type_of r) k
            ≡ some (
                u8 (u16 t.year / 256)
                ∷ u16 t.year % 256
                ∷ u8 t.month
                ∷ u8 t.day
                ∷ u8 t.hour
                ∷ u8 t.minute
                ∷ []))
  get_record-write_records now n k c ring reads blank small lo hi known =
      let (c', run, h) = write_records-IsHistory now n c ring (omega arith) reads blank in
      (c', run, get_record-IsHistory c'.mem r n k (λ i. (now i).date_time) ring h lo hi small known)
