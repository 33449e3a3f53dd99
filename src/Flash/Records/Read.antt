-- ===== src/Flash/Records/Read.antt =====
-- What the host reads of a log: the number of records, and which record an index names.
use mathlib.Core.Path.{refl}
use ch32v303rct6_rtt_mrs.Base.{
  leb, true, min, ◌/◌, ltb, false, if◌then◌else◌, ◌-◌, ◌⊎◌, ℕ, ◌+◌, ◌*◌, ◌≤◌, ◌<◌, arith, ◌≡◌,
}
use ch32v303rct6_rtt_mrs.Flash.Hal.{Mem}
use ch32v303rct6_rtt_mrs.Flash.Layout.{Record, pages, page_records, record_size, max_num}
use ch32v303rct6_rtt_mrs.Flash.Driver.{Buf}
use ch32v303rct6_rtt_mrs.Flash.Driver.Erase.{start_addr-aligned}
use ch32v303rct6_rtt_mrs.Flash.Records.{
  frame_header, frame_of, num_records, read_index, read_record, is_sensor_end_of_life,
}
use ch32v303rct6_rtt_mrs.Flash.Records.Slots.{record_addr_lem}
use ch32v303rct6_rtt_mrs.Flash.Records.Log.{home, IsLog, max_index-IsLog}
use ch32v303rct6_rtt_mrs.Flash.Records.Room.{IsRing}

max_num-le : (r : Record) → (1 ≤ max_num r) × (max_num r ≤ 200)
unfolding max_num
max_num-le r = ground arith

-- Flash_GetNum_Records of a log of n records is the smaller of n and max_num.
pub num_records-IsLog :
    (m : Mem) (r : Record) (n : ℕ) → IsLog m r n (max_num r) n → num_records m r ≡ min n (max_num r)
unfolding num_records
num_records-IsLog m r n v = ground (arith, max_index-IsLog m r n (max_num r) n, max_num-le r)

-- The record that index `k` of a log of `n` names.
abbrev pub named : Record → ℕ → ℕ → ℕ
named r n k = if ltb (max_num r) n then n + k - 50 else k

ring-not-sensor : (r : Record) → IsRing r → is_sensor_end_of_life r ≡ false
unfolding pages
ring-not-sensor r h = ground arith

read_index-named :
    (r : Record) (n k : ℕ) → IsRing r → n + k < 65536 → read_index r n k ≡ named r n k
unfolding read_index
read_index-named r n k ring hi = ground (arith, ring-not-sensor r)

-- The bytes that are read are those of the slot of the record that the index names.
pub read_record-home :
    (m : Mem) (r : Record) (n k : ℕ) (buf : Buf) (i : ℕ)
    → IsRing r
    → IsLog m r n (max_num r) n
    → 1 ≤ k
    → k ≤ n
    → n + k < 65536
    → i < record_size
    → read_record m r k buf i ≡ m (home r (named r n k) + i)
unfolding read_record
read_record-home m r n k buf i ring v lo hi small below =
    let found = max_index-IsLog m r n (max_num r) n (omega (arith, ring.0, ring.1)) v in
    let addr = record_addr_lem r (named r n k) (ground (arith, ring.0, ring.1)) (ground arith) in
    let inside : ltb i record_size ≡ true = ground arith in
    let there : leb k n ≡ true = ground arith in
    rw (found, there, inside, read_index-named r n k ring small, addr.1) refl

-- Of a log of n records of a type with spare pages, Flash_Read_Record reads for an index k from 1
-- to n, n + k below 65536, a frame with its header and the index that k names: k itself in a log
-- of at most max_num records, n + k - 50 in a longer one, for k up to 50.
pub read_record-Holds :
    (m : Mem) (r : Record) (n k : ℕ) (buf : Buf)
    → IsRing r
    → IsLog m r n (max_num r) n
    → 1 ≤ k
    → k ≤ n
    → n + k < 65536
    → (n ≤ max_num r) ⊎ (k ≤ 50)
    → ((frame_of (read_record m r k buf)).header ≡ frame_header)
      × ((frame_of (read_record m r k buf)).index ≡ named r n k)
read_record-Holds m r n k buf ring v lo hi small known =
    let bytes = λ (i : ℕ). read_record-home m r n k buf i ring v lo hi small in
    let there =
      v.kept (named r n k) (ground (arith, ring.0, ring.1)) (ground arith)
        (ground (arith, ring.0, ring.1)) in
    ground (arith, bytes 0, bytes 1, bytes 2, bytes 3, there)

-- Of a log longer than max_num, of a type with spare pages, an index k above 50 and at most n, n
-- + k below 65536, whose slot is still in the newest record's page, reads erased flash: its
-- header is 0xE339.
pub read_record_beyond :
    (m : Mem) (r : Record) (n k : ℕ) (buf : Buf)
    → IsRing r
    → IsLog m r n (max_num r) n
    → max_num r < n
    → 50 < k
    → k ≤ n
    → n + k < 65536
    → n + k - 50 ≤ page_records * (n / page_records + 1)
    → (frame_of (read_record m r k buf)).header ≡ 0xE339
read_record_beyond m r n k buf ring v full past hi small near =
    let bytes = λ (i : ℕ). read_record-home m r n k buf i ring v (omega arith) hi small in
    let at = home r (named r n k) in
    let blank = v.ahead (named r n k) (ground arith) (ground arith) in
    ground (arith, bytes 0, bytes 1, blank at, blank (at + 1), start_addr-aligned r)
