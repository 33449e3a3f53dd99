-- ===== src/Lcd/Screen/Digits.antt =====
-- The digits: what `LCD_ShowNum` lights is the usual seven-segment code.
use ch32v303rct6_rtt_mrs.Base.{
  ◌∙◌, ℕ, zero, suc, ◌+◌, ◌*◌, ◌/◌, ◌%◌, ◌<◌, ◌≤◌, ◌==◌, if◌then◌else◌, arith, ◌≡◌, ◌≢◌, List, [],
  ◌∷◌, get_or,
}
use ch32v303rct6_rtt_mrs.Flash.Driver.{Buf}
use ch32v303rct6_rtt_mrs.Lcd.Screen.{Mode, show_close, show_open, show_num}
use ch32v303rct6_rtt_mrs.Lcd.Screen.Segments.{IsScreen}
use ch32v303rct6_rtt_mrs.Lcd.Screen.Seven.{show_seven-at}

-- The usual seven-segment codes, A the lowest bit and G the highest.
abbrev pub codes : List ℕ
codes = 0x3F ∷ 0x06 ∷ 0x5B ∷ 0x4F ∷ 0x66 ∷ 0x6D ∷ 0x7D ∷ 0x07 ∷ 0x7F ∷ 0x6F ∷ []

abbrev pub low_of : ℕ → ℕ
low_of code = 8 * (code / 8 % 2) + 4 * (code / 16 % 2) + 2 * (code / 32 % 2) + code % 2

abbrev pub high_of : ℕ → ℕ
high_of code = 4 * (code / 4 % 2) + 2 * (code / 64 % 2) + code / 2 % 2

-- The code that a digit's place shows.
abbrev pub shown : Buf → ℕ → ℕ
shown screen index =
    let x = screen index in
    let y = screen (index + 1) in
    x % 2
    + 2 * (y % 2)
    + 4 * (y / 4 % 2)
    + 8 * (x / 8 % 2)
    + 16 * (x / 4 % 2)
    + 32 * (x / 2 % 2)
    + 64 * (y / 2 % 2)

-- The byte at `i` once a code stands at `index`.
abbrev pub with_code : ℕ → ℕ → Buf → ℕ → ℕ
with_code index code screen i =
    if i == index
    then low_of code
    else if i == index + 1
    then 8 * (screen i / 8) + high_of code
    else screen i

show_num-open :
    (index num : ℕ) (screen : Buf) (i : ℕ)
    → num ≤ 9
    → IsScreen screen
    → show_num index num show_open screen i ≡ with_code index (get_or codes num 0) screen i
unfolding show_num
show_num-open index zero screen i digit v =
    show_seven-at index show_open show_open show_open show_open show_open show_open show_close
      screen i v
    ∙ ground arith
show_num-open index (suc zero) screen i digit v =
    show_seven-at index show_close show_open show_open show_close show_close show_close show_close
      screen i v
    ∙ ground arith
show_num-open index (suc (suc zero)) screen i digit v =
    show_seven-at index show_open show_open show_close show_open show_open show_close show_open
      screen i v
    ∙ ground arith
show_num-open index (suc (suc (suc zero))) screen i digit v =
    show_seven-at index show_open show_open show_open show_open show_close show_close show_open
      screen i v
    ∙ ground arith
show_num-open index (suc (suc (suc (suc zero)))) screen i digit v =
    show_seven-at index show_close show_open show_open show_close show_close show_open show_open
      screen i v
    ∙ ground arith
show_num-open index (suc (suc (suc (suc (suc zero))))) screen i digit v =
    show_seven-at index show_open show_close show_open show_open show_close show_open show_open
      screen i v
    ∙ ground arith
show_num-open index (suc (suc (suc (suc (suc (suc zero)))))) screen i digit v =
    show_seven-at index show_open show_close show_open show_open show_open show_open show_open
      screen i v
    ∙ ground arith
show_num-open index (suc (suc (suc (suc (suc (suc (suc zero))))))) screen i digit v =
    show_seven-at index show_open show_open show_open show_close show_close show_close show_close
      screen i v
    ∙ ground arith
show_num-open index (suc (suc (suc (suc (suc (suc (suc (suc zero)))))))) screen i digit v =
    show_seven-at index show_open show_open show_open show_open show_open show_open show_open screen
      i v
    ∙ ground arith
show_num-open index (suc (suc (suc (suc (suc (suc (suc (suc (suc zero))))))))) screen i digit v =
    show_seven-at index show_open show_open show_open show_open show_close show_open show_open
      screen i v
    ∙ ground arith
show_num-open index (suc (suc (suc (suc (suc (suc (suc (suc (suc (suc m)))))))))) screen i digit v =
    absurd (omega arith)

show_num-close :
    (index num : ℕ) (screen : Buf) (i : ℕ)
    → IsScreen screen
    → show_num index num show_close screen i ≡ with_code index 0 screen i
unfolding show_num
show_num-close index num screen i v =
    show_seven-at index show_close show_close show_close show_close show_close show_close show_close
      screen i v
    ∙ ground arith

abbrev AllSmall : List ℕ → Type 0
AllSmall [] = Unit
AllSmall (x ∷ xs) = (x < 128) × AllSmall xs

get_or-small : (xs : List ℕ) (i : ℕ) → AllSmall xs → get_or xs i 0 < 128
get_or-small [] i h = omega arith
get_or-small (x ∷ xs) zero h = h.0
get_or-small (x ∷ xs) (suc i) h = get_or-small xs i h.1

-- A digit from 0 to 9, lit or put out.
abbrev pub code_of : Mode → ℕ → ℕ
code_of show_close num = 0
code_of show_open num = get_or codes num 0

show_num-at :
    (index num : ℕ) (mode : Mode) (screen : Buf) (i : ℕ)
    → num ≤ 9
    → IsScreen screen
    → show_num index num mode screen i ≡ with_code index (code_of mode num) screen i
show_num-at index num show_close screen i digit v = show_num-close index num screen i v
show_num-at index num show_open screen i digit v = show_num-open index num screen i digit v

code_of-lt : (mode : Mode) (num : ℕ) → num ≤ 9 → code_of mode num < 128
code_of-lt show_close num digit = omega arith
code_of-lt show_open num digit = get_or-small codes num (omega arith)

shown-bits :
    (code y : ℕ)
    → code < 128
    → let x = low_of code in
      let z = 8 * y + high_of code in
      x % 2
        + 2 * (z % 2)
        + 4 * (z / 4 % 2)
        + 8 * (x / 8 % 2)
        + 16 * (x / 4 % 2)
        + 32 * (x / 2 % 2)
        + 64 * (z / 2 % 2)
      ≡ code
shown-bits code y small = omega arith

module _ (index num : ℕ) (mode : Mode) (screen : Buf) (digit : num ≤ 9) (v : IsScreen screen) where
  pub show_num-IsScreen : IsScreen (show_num index num mode screen)
  show_num-IsScreen i = ground (arith, show_num-at index num mode screen i digit v, v i)

  -- On a screen of four bits to a segment line, LCD_ShowNum of a digit from 0 to 9 leaves at its
  -- place the usual seven-segment code of the digit, or nothing where the mode is kShowClose.
  pub shown-show_num : shown (show_num index num mode screen) index ≡ code_of mode num
  shown-show_num =
      let here = show_num-at index num mode screen index digit v in
      let next = show_num-at index num mode screen (index + 1) digit v in
      let code = code_of mode num in
      let first : show_num index num mode screen index ≡ low_of code = ground arith in
      let second : show_num index num mode screen (index + 1)
          ≡ 8 * (screen (index + 1) / 8) + high_of code =
        ground arith in
      rw (first, second) (shown-bits code (screen (index + 1) / 8) (code_of-lt mode num digit))

  -- It leaves the other digits, and the segment that is not part of a digit, as they are.
  pub show_num_top : (i : ℕ) → i ≢ index → show_num index num mode screen i / 8 ≡ screen i / 8
  show_num_top i ne = ground (arith, show_num-at index num mode screen i digit v)

  pub show_num_away :
      (i : ℕ) → i ≢ index → i ≢ index + 1 → show_num index num mode screen i ≡ screen i
  show_num_away i p q = ground (arith, show_num-at index num mode screen i digit v)
