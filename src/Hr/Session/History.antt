-- ===== src/Hr/Session/History.antt =====
-- bsp/src/bsp_hr.c and bsp/src/bsp_flash.c: the host reads what was recorded.
use ch32v303rct6_rtt_mrs.Base.{◌+◌, ℕ, ◌≤◌, ◌<◌, Bool, true, some, get_or, arith, ◌≡◌}
use ch32v303rct6_rtt_mrs.Flash.Hal.{FlashHal}
use ch32v303rct6_rtt_mrs.Flash.Driver.{Buf}
use ch32v303rct6_rtt_mrs.Rtc
use ch32v303rct6_rtt_mrs.Rtc.{Clock}
use ch32v303rct6_rtt_mrs.Flash.Layout.{Record, max_num}
use ch32v303rct6_rtt_mrs.Flash.Records.{World, write_record}
use ch32v303rct6_rtt_mrs.Flash.Records.Log.{IsLog}
use ch32v303rct6_rtt_mrs.Flash.Records.Room.{IsRing}
use ch32v303rct6_rtt_mrs.Flash.Query.Answers.{type_of, newest}
use ch32v303rct6_rtt_mrs.Hr.Process.History.{
  time_bytes, type_of-lt, newest-lt, process_data-write_record,
}
use ch32v303rct6_rtt_mrs.Hr.Frame.{RawFrame, take_bytes, get_frame_data}
use ch32v303rct6_rtt_mrs.Hr.Process.{receive}
use ch32v303rct6_rtt_mrs.Hr.Session.{
  Arrives, get_frame_data-Arrives, generate_raw_frame-Arrives, receive-Arrives,
}
use ch32v303rct6_rtt_mrs.Base.{◌⊎◌, ◌*◌}
use ch32v303rct6_rtt_mrs.Flash.Hal.{Chip}
use ch32v303rct6_rtt_mrs.Flash.Layout.{start_addr, page_size, pages}
use ch32v303rct6_rtt_mrs.Flash.Driver.Write.{IsErased}
use ch32v303rct6_rtt_mrs.Flash.Records.Read.{named}
use ch32v303rct6_rtt_mrs.Flash.Query.History.{write_records, get_record-write_records}
use ch32v303rct6_rtt_mrs.Hr.Process.History.{process_data-record, index-lt}

module _ (hal : FlashHal) (malloc : ℕ → Bool) where
  -- For a type with spare pages whose area is a log of n records, n below 32767, a clock that
  -- reads a year from 256 to 65535, and room for the data: Flash_Write_Record succeeds, and a
  -- host that then asks for that type by the newest index, in a frame without data among at most
  -- 32 bytes received, behind bytes other than 0xAA, is answered by a frame from which
  -- HR_GetFrameData takes the same type and index with the year, month, day, hour and minute of
  -- the clock, each cut to its field. Asking changes nothing.
  pub receive-write_record :
      (r : Record) (n : ℕ) (w : World) (clock : Clock) (old p : Buf) (p_len : ℕ)
      → IsRing r
      → n < 32767
      → IsLog w.chip.mem r n (max_num r) n
      → Rtc.get w.clock ≡ some clock
      → 256 ≤ clock.date_time.year
      → clock.date_time.year < 65536
      → malloc 0 ≡ true
      → malloc 6 ≡ true
      → Arrives (newest r (n + 1)) (type_of r) 0 (λ i. 0) p p_len
      → (w' : World) × (reply : RawFrame) × (write_record hal r w ≡ some w')
        × (receive hal malloc old p p_len w' ≡ some (w', some reply))
        × (get_frame_data malloc reply.buf reply.len
            ≡ some (record {
              c1 = newest r (n + 1);
              c2 = type_of r;
              bytes = time_bytes clock.date_time;
            }))
  unfolding take_bytes
  receive-write_record r n w clock old p p_len ring small log read lo hi room0 room6 asked =
      let k = newest r (n + 1) in
      let field : Buf = λ i. get_or (time_bytes clock.date_time) i 0 in
      let kind = type_of-lt r in
      let (one, byte) = newest-lt r (n + 1) ring (omega arith) in
      let (w', reply, wrote, done, made) =
        process_data-write_record hal r n w clock ring small log read lo hi in
      let six : 6 < 27 = omega arith in
      let back = generate_raw_frame-Arrives malloc k (type_of r) 6 field reply byte kind six made in
      (
        w',
        reply,
        wrote,
        receive-Arrives hal malloc k (type_of r) 0 (λ i. 0) old p p_len w' w' reply byte kind
            (omega arith) room0 asked done,
        get_frame_data-Arrives malloc k (type_of r) 6 field reply.buf reply.len byte kind six room6
            back,
      )

  -- After n calls of Flash_Write_Record on the erased area of a type with spare pages, n below
  -- 32768, each with a clock that reads, which all succeed, and where there is room for the data:
  -- a host that asks for that type by an index k from 1 to n, in a frame without data among at
  -- most 32 bytes received, behind bytes other than 0xAA, is answered by a frame from which
  -- HR_GetFrameData takes the same type and index with the year, from 256 to 65535, the month,
  -- day, hour and minute of event k if n is at most max_num, and of event n + k - 50 if n is
  -- larger and k at most 50, each cut to its field. Asking changes nothing.
  pub receive-write_records :
      (r : Record) (clock now : ℕ → Clock) (n k : ℕ) (c : Chip) (t : Clock) (old p : Buf)
      (p_len : ℕ)
      → IsRing r
      → ((i : ℕ) → Rtc.get (clock i) ≡ some (now i))
      → IsErased c.mem (start_addr r) (start_addr r + page_size * pages r)
      → n < 32768
      → 1 ≤ k
      → k ≤ n
      → (n ≤ max_num r) ⊎ (k ≤ 50)
      → 256 ≤ (now (named r n k)).date_time.year
      → (now (named r n k)).date_time.year < 65536
      → malloc 0 ≡ true
      → malloc 6 ≡ true
      → Arrives k (type_of r) 0 (λ i. 0) p p_len
      → (c' : Chip) × (reply : RawFrame) × (write_records hal r clock n c ≡ some c')
        × (receive hal malloc old p p_len (record { chip = c'; clock = t })
            ≡ some (record { chip = c'; clock = t }, some reply))
        × (get_frame_data malloc reply.buf reply.len
            ≡ some (record {
              c1 = k;
              c2 = type_of r;
              bytes = time_bytes (now (named r n k)).date_time;
            }))
  unfolding take_bytes
  receive-write_records r clock now n k c t old p p_len ring reads blank small one there known lo hi
        room0 room6 asked =
      let time = (now (named r n k)).date_time in
      let field : Buf = λ i. get_or (time_bytes time) i 0 in
      let kind = type_of-lt r in
      let byte : k < 256 = index-lt r n k ring there known in
      let six : 6 < 27 = omega arith in
      let (c', wrote, got) =
        get_record-write_records hal r clock now n k c ring reads blank small one there known in
      let w : World = record { chip = c'; clock = t } in
      let (reply, done, made) = process_data-record hal r k time w ring one byte got lo hi in
      let back = generate_raw_frame-Arrives malloc k (type_of r) 6 field reply byte kind six made in
      (
        c',
        reply,
        wrote,
        receive-Arrives hal malloc k (type_of r) 0 (λ i. 0) old p p_len w w reply byte kind
            (omega arith) room0 asked done,
        get_frame_data-Arrives malloc k (type_of r) 6 field reply.buf reply.len byte kind six room6
            back,
      )
