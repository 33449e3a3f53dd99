-- ===== src/Hr/Frame/Parse.antt =====
-- `HR_GetFrameData` finds the first frame, and takes apart what `HR_GenerateRawFrame` puts together.
use mathlib.Core.Path.{subst}
use ch32v303rct6_rtt_mrs.Base.{
  ◌||◌, ℕ, zero, suc, ◌+◌, ◌-◌, ◌≤◌, ◌<◌, Bool, true, false, none, some, List, ◌∷◌, ltb, ◌==◌,
  if◌then◌else◌, u8, arith, ◌≡◌, refl, ◌∙◌, Bool-cases, inl, inr, ◌≢◌, ap,
}
use ch32v303rct6_rtt_mrs.Flash.Driver.{Buf}
use ch32v303rct6_rtt_mrs.Hr.Frame.{
  put, filled_raw, header, tail, check_sum, take_bytes, frame_at, frame_data, find_frame,
  get_frame_data, RawFrame, generate_raw_frame,
}

-- The sum and the copy see the bytes of their range alone.
check_sum-same :
    (left : ℕ) (p q : Buf) (i j sum : ℕ)
    → ((k : ℕ) → k < left → p (i + k) ≡ q (j + k))
    → check_sum left p i sum ≡ check_sum left q j sum
unfolding check_sum
check_sum-same zero p q i j sum same = refl
check_sum-same (suc left) p q i j sum same =
    let first : p i ≡ q j = ground (arith, same 0) in
    rw first (
      check_sum-same left p q (i + 1) (j + 1) (u8 (sum + q j))
        (λ k below. ground (arith, same (k + 1))))

take_bytes-same :
    (left : ℕ) (p q : Buf) (i j : ℕ)
    → ((k : ℕ) → k < left → p (i + k) ≡ q (j + k))
    → take_bytes left p i ≡ take_bytes left q j
unfolding take_bytes
take_bytes-same zero p q i j same = refl
take_bytes-same (suc left) p q i j same =
    let first : p i ≡ q j = ground (arith, same 0) in
    rw first (
      ap (λ (t : List ℕ). q j ∷ t)
        (take_bytes-same left p q (i + 1) (j + 1) (λ k below. ground (arith, same (k + 1)))))

module _ (malloc : ℕ → Bool) where
  find_frame_lem :
      (left : ℕ) (src : Buf) (i at : ℕ)
      → i ≤ at
      → at < i + left
      → ((j : ℕ) → i ≤ j → j < at → frame_at src j ≡ false)
      → frame_at src at ≡ true
      → find_frame malloc left src i
        ≡ (if malloc (src (at + 3)) then some (frame_data src at) else none)
  unfolding find_frame
  find_frame_lem zero src i at lo hi before here = absurd (omega arith)
  find_frame_lem (suc left) src i at lo hi before here = elim (Bool-cases (i == at)) [
    | inl e ↦ let e' : i ≡ at = ground arith in rw (e', here) refl
    | inr ne ↦
        let later : suc i ≤ at = ground arith in
        rw (before i (omega arith) later) (
          find_frame_lem left src (i + 1) at (omega arith) (omega arith)
            (λ j p q. before j (omega arith) q) here)
  ]

  -- HR_GetFrameData returns the first frame, with header, tail and sum, that starts within the
  -- bytes received, or RT_NULL if there is no room for its data.
  pub get_frame_data-first :
      (src : Buf) (src_len at : ℕ)
      → at < src_len
      → ((j : ℕ) → j < at → frame_at src j ≡ false)
      → frame_at src at ≡ true
      → get_frame_data malloc src src_len
        ≡ (if malloc (src (at + 3)) then some (frame_data src at) else none)
  unfolding get_frame_data
  get_frame_data-first src src_len at below before here =
      find_frame_lem src_len src 0 at (omega arith) (omega arith) (λ j p q. before j q) here

  find_frame-none :
      (left : ℕ) (src : Buf) (i : ℕ)
      → ((j : ℕ) → i ≤ j → j < i + left → frame_at src j ≡ false)
      → find_frame malloc left src i ≡ none
  unfolding find_frame
  find_frame-none zero src i away = refl
  find_frame-none (suc left) src i away =
      rw (away i (omega arith) (omega arith))
        (find_frame-none left src (i + 1) (λ j p q. away j (omega arith) (omega arith)))

  -- Where no frame with header, tail and sum starts within the bytes received, HR_GetFrameData
  -- returns RT_NULL.
  pub get_frame_data-none :
      (src : Buf) (src_len : ℕ)
      → ((j : ℕ) → j < src_len → frame_at src j ≡ false)
      → get_frame_data malloc src src_len ≡ none
  unfolding get_frame_data
  get_frame_data-none src src_len away =
      find_frame-none src_len src 0 (λ j p q. away j (omega arith))

-- The bytes of a raw frame, behind `at` bytes of something else.
pub record Sent (at : ℕ) (raw : RawFrame) (p : Buf) : Type 0 where
  pub noise : (j : ℕ) → j < at → p j ≢ header
  pub carried : (j : ℕ) → j < raw.len → p (at + j) ≡ raw.buf j

-- What a raw frame of `n` bytes of data is.
pub record IsRaw (c1 c2 n : ℕ) (src : Buf) (raw : RawFrame) : Type 0 where
  pub len_is : raw.len ≡ n + 6
  pub first : raw.buf 0 ≡ header
  pub first_c : raw.buf 1 ≡ c1
  pub second_c : raw.buf 2 ≡ c2
  pub length_byte : raw.buf 3 ≡ n
  pub body : (j : ℕ) → j < n → raw.buf (4 + j) ≡ src j
  pub sum : raw.buf (n + 4) ≡ check_sum (n + 4) raw.buf 0 0
  pub last : raw.buf (n + 5) ≡ tail

-- Of up to 249 bytes `HR_GenerateRawFrame` makes a whole frame.
pub generate_raw_frame-IsRaw :
    (c1 c2 n : ℕ) (src : Buf)
    → c1 < 256
    → c2 < 256
    → n < 250
    → (raw : RawFrame) × (generate_raw_frame c1 c2 src n ≡ some raw) × IsRaw c1 c2 n src raw
unfolding generate_raw_frame
generate_raw_frame-IsRaw c1 c2 n src h1 h2 hn =
    let len : u8 (n + 6) ≡ n + 6 = omega arith in
    let room : (ltb 252 n || ltb (n + 6) 2) ≡ false = ground arith in
    let filled = filled_raw c1 c2 src n in
    let sum = check_sum (n + 6 - 2) filled 0 0 in
    let buf : Buf = put (put filled (n + 6 - 2) sum) (n + 6 - 1) tail in
    let at_sum : buf (n + 4) ≡ sum = ground arith in
    let short : n + 6 - 2 ≡ n + 4 = omega arith in
    let same : check_sum (n + 4) filled 0 0 ≡ check_sum (n + 4) buf 0 0 =
      check_sum-same (n + 4) filled buf 0 0 0 (λ k below. ground arith) in
    (
      record { len = n + 6; buf = buf },
      rw (len, room) refl,
      record {
        len_is = refl;
        first = ground arith;
        first_c = ground arith;
        second_c = ground arith;
        length_byte = ground arith;
        body = λ j below. ground arith;
        sum = at_sum ∙ ap (λ (k : ℕ). check_sum k filled 0 0) short ∙ same;
        last = ground arith;
      },
    )

module _ (malloc : ℕ → Bool) (c1 c2 n : ℕ) (src p : Buf) (at src_len : ℕ) (raw : RawFrame)
    (hn : n < 250) (fits : at < src_len) (is : IsRaw c1 c2 n src raw) (sent : Sent at raw p) where
  length_there : p (at + 3) ≡ n
  length_there = sent.carried 3 (omega (arith, is.len_is)) ∙ is.length_byte

  frame_there : frame_at p at ≡ true
  frame_there =
      let sum =
        check_sum-same (n + 4) raw.buf p 0 at 0
          (λ k below. ground (arith, sent.carried k, is.len_is)) in
      let short : 4 + n ≡ n + 4 = omega arith in
      rw (length_there, short)
        (ground (
          arith,
          is.len_is,
          is.first,
          is.sum,
          is.last,
          sum,
          sent.carried 0,
          sent.carried (n + 4),
          sent.carried (n + 5),
        ))

  data_there : frame_data p at ≡ record { c1 = c1; c2 = c2; bytes = take_bytes n src 0 }
  data_there =
      let copied = take_bytes-same n p src (at + 4) 0 (λ k below.
        let e : at + 4 + k ≡ at + (4 + k) = omega arith in
        rw e (ground (arith, sent.carried (4 + k), is.len_is, is.body k))) in
      rw (length_there, copied)
        (ground (arith, is.len_is, is.first_c, is.second_c, sent.carried 1, sent.carried 2))

  taken :
      get_frame_data malloc p src_len
      ≡ (if malloc n then some (record { c1 = c1; c2 = c2; bytes = take_bytes n src 0 }) else none)
  taken =
      let found =
        get_frame_data-first malloc p src_len at fits
          (λ j below. ground (arith, sent.noise j below)) frame_there in
      found ∙ (λ i. if malloc (length_there i) then some (data_there i) else none)

-- Behind bytes other than 0xAA, at a start within the bytes received, HR_GetFrameData takes out
-- of a frame that HR_GenerateRawFrame made of fewer than 250 bytes the same two command bytes and
-- data, if there is room for them, and RT_NULL otherwise.
pub get_frame_data-generate_raw_frame :
    (malloc : ℕ → Bool) (c1 c2 n : ℕ) (src p : Buf) (at src_len : ℕ) (raw : RawFrame)
    → c1 < 256
    → c2 < 256
    → n < 250
    → at < src_len
    → generate_raw_frame c1 c2 src n ≡ some raw
    → Sent at raw p
    → get_frame_data malloc p src_len
      ≡ (if malloc n then some (record { c1 = c1; c2 = c2; bytes = take_bytes n src 0 }) else none)
get_frame_data-generate_raw_frame malloc c1 c2 n src p at src_len raw h1 h2 hn fits made sent =
    let (raw', made', is) = generate_raw_frame-IsRaw c1 c2 n src h1 h2 hn in
    let same : raw' ≡ raw = cc in
    taken malloc c1 c2 n src p at src_len raw hn fits (subst (IsRaw c1 c2 n src) same is) sent
