-- ===== src/Hr/Frame.antt =====
-- The frames of bsp/src/bsp_hr.c: 0xAA, two command bytes, the length, the data, the sum of all these bytes,
-- 0x55. A pointer is a function from offsets, since the parser reads on behind the bytes received.
pub mod Parse
use ch32v303rct6_rtt_mrs.Base.{
  ℕ, zero, suc, ◌+◌, ◌-◌, ◌||◌, ◌&&◌, Bool, true, false, Option, none, some, List, [], ◌∷◌, ltb,
  leb, ◌==◌, if◌then◌else◌, u8,
}
use ch32v303rct6_rtt_mrs.Flash.Driver.{Buf}

abbrev pub header : ℕ
header = 0xAA

abbrev pub tail : ℕ
tail = 0x55

-- `HR_CheckSum` of `left` bytes from offset `i` on.
unfoldable pub check_sum : ℕ → Buf → ℕ → ℕ → ℕ
check_sum zero buf i sum = sum
check_sum (suc left) buf i sum = check_sum left buf (i + 1) (u8 (sum + buf i))

-- `TsFrameData`; `len` is the length of `bytes`.
pub record FrameData : Type 0 where
  pub c1 : ℕ
  pub c2 : ℕ
  pub bytes : List ℕ

-- `rt_memmove` from a pointer into a fresh array.
unfoldable pub take_bytes : ℕ → Buf → ℕ → List ℕ
take_bytes zero buf i = []
take_bytes (suc left) buf i = buf i ∷ take_bytes left buf (i + 1)

-- The three tests of `HR_GetFrameData` at offset `i`.
abbrev pub frame_at : Buf → ℕ → Bool
frame_at src i =
    let len = src (i + 3) in
    (src i == header)
    && ((src (i + 3 + len + 2) == tail) && (src (i + 3 + len + 1) == check_sum (4 + len) src i 0))

abbrev pub frame_data : Buf → ℕ → FrameData
frame_data src i = record {
  c1 = src (i + 1);
  c2 = src (i + 2);
  bytes = take_bytes (src (i + 3)) src (i + 4);
}

-- `malloc len` tells whether `rt_malloc` finds room for a frame with `len` bytes of data.
module _ (malloc : ℕ → Bool) where
  pub find_frame : ℕ → Buf → ℕ → Option FrameData
  find_frame zero src i = none
  find_frame (suc left) src i =
      let later = find_frame left src (i + 1) in
      if frame_at src i
      then (if malloc (src (i + 3)) then some (frame_data src i) else none)
      else later

  -- `HR_GetFrameData`; `none` is `RT_NULL`.
  pub get_frame_data : Buf → ℕ → Option FrameData
  get_frame_data src src_len = find_frame src_len src 0

-- `TsRawFrameData`.
pub record RawFrame : Type 0 where
  pub len : ℕ
  pub buf : Buf

abbrev pub put : Buf → ℕ → ℕ → Buf
put buf i value j = if j == i then value else buf j

-- The head and the data that `HR_GenerateRawFrame` lays out, before the sum and the tail.
abbrev pub filled_raw : ℕ → ℕ → Buf → ℕ → Buf
filled_raw c1 c2 src src_len j =
    if j == 0
    then header
    else if j == 1
    then u8 c1
    else if j == 2
    then u8 c2
    else if j == 3
    then u8 src_len
    else if leb 4 j && ltb j (4 + src_len)
    then src (j - 4)
    else 0

-- `HR_GenerateRawFrame`, for the length and the bytes of the data; `none` where it writes outside
-- `buf`. The 8-bit length wraps.
pub generate_raw_frame : ℕ → ℕ → Buf → ℕ → Option RawFrame
generate_raw_frame c1 c2 src src_len =
    let len = u8 (src_len + 6) in
    let filled = filled_raw c1 c2 src src_len in
    let sum = check_sum (len - 2) filled 0 0 in
    if ltb 252 src_len || ltb len 2
    then none
    else some (record { len = len; buf = put (put filled (len - 2) sum) (len - 1) tail })
