-- ===== src/Lcd/Bus/Receiver.antt =====
-- A receiver that samples the data line where the write clock rises, as the display driver does,
-- reads what the bus functions send.
use ch32v303rct6_rtt_mrs.Base.{
  sym, ◌≤◌, ap, ℕ, zero, suc, ◌+◌, ◌*◌, ◌/◌, ◌%◌, ◌^◌, ◌==◌, ◌<◌, ◌∙◌, Bool, true, false, List, [],
  ◌∷◌, ◌++◌, u8, arith, ◌≡◌, refl,
}
use ch32v303rct6_rtt_mrs.Flash.Driver.{Buf}
use ch32v303rct6_rtt_mrs.Lcd.Screen.{show_icon, s5_press_timing_valves, show_open}
use ch32v303rct6_rtt_mrs.Lcd.Screen.Segments.{IsScreen, show_icon-IsScreen}
use mathlib.Core.List.{append_assoc, append-nil}
use ch32v303rct6_rtt_mrs.Lcd.Bus.{
  Event, chip_select, write_clock, data_line, delay, write_bit, write_seg, write_cmd, refresh_loop,
  refresh, buffer_len, clear, cleared, init,
}

-- The receiver: the levels of the write clock and the data line, and the bits since the selection.
-- A deselection ends a word.
pub words : Bool → Bool → List Bool → List Event → List (List Bool)
words clock level bits [] = []
words clock level bits (chip_select false ∷ es) = words clock level [] es
words clock level bits (chip_select true ∷ es) = bits ∷ words clock level [] es
words clock level bits (write_clock false ∷ es) = words false level bits es
words false level bits (write_clock true ∷ es) = words true level (bits ++ (level ∷ [])) es
words true level bits (write_clock true ∷ es) = words true level bits es
words clock level bits (data_line b ∷ es) = words clock b bits es
words clock level bits (delay n ∷ es) = words clock level bits es

-- The binary digits of a number, the highest of `n` first.
abbrev pub digits_of : ℕ → ℕ → List Bool
digits_of zero x = []
digits_of (suc n) x = (x / 2 ^ n % 2 == 1) ∷ digits_of n x

abbrev pub seg_word : ℕ → ℕ → List Bool
seg_word seg value = digits_of 3 5 ++ (digits_of 6 seg ++ digits_of 4 value)

words-write_seg :
    (seg value : ℕ) (level : Bool) (es : List Event)
    → seg < 64
    → value < 16
    → words true level [] (write_seg seg value ++ es)
      ≡ seg_word seg value ∷ words true (value / 1 % 2 == 1) [] es
unfolding words write_seg write_bit
words-write_seg seg value level es h1 h2 =
    let s0 : u8 (seg * 4) * 1 / 128 % 2 ≡ seg / 32 % 2 = omega arith in
    let s1 : u8 (seg * 4) * 2 / 128 % 2 ≡ seg / 16 % 2 = omega arith in
    let s2 : u8 (seg * 4) * 4 / 128 % 2 ≡ seg / 8 % 2 = omega arith in
    let s3 : u8 (seg * 4) * 8 / 128 % 2 ≡ seg / 4 % 2 = omega arith in
    let s4 : u8 (seg * 4) * 16 / 128 % 2 ≡ seg / 2 % 2 = omega arith in
    let s5 : u8 (seg * 4) * 32 / 128 % 2 ≡ seg / 1 % 2 = omega arith in
    let v0 : u8 (value * 16) * 1 / 128 % 2 ≡ value / 8 % 2 = omega arith in
    let v1 : u8 (value * 16) * 2 / 128 % 2 ≡ value / 4 % 2 = omega arith in
    let v2 : u8 (value * 16) * 4 / 128 % 2 ≡ value / 2 % 2 = omega arith in
    let v3 : u8 (value * 16) * 8 / 128 % 2 ≡ value / 1 % 2 = omega arith in
    rw (s0, s1, s2, s3, s4, s5, v0, v1, v2, v3) refl

abbrev pub cmd_word : ℕ → List Bool
cmd_word cmd = digits_of 3 4 ++ (digits_of 8 cmd ++ (false ∷ []))

words-write_cmd :
    (cmd : ℕ) (level : Bool) (bits : List Bool) (es : List Event)
    → cmd < 256
    → words true level bits (write_cmd cmd ++ es) ≡ cmd_word cmd ∷ words true false [] es
unfolding words write_cmd write_bit
words-write_cmd cmd level bits es h =
    let b0 : cmd * 1 / 128 % 2 ≡ cmd / 128 % 2 = omega arith in
    let b1 : cmd * 2 / 128 % 2 ≡ cmd / 64 % 2 = omega arith in
    let b2 : cmd * 4 / 128 % 2 ≡ cmd / 32 % 2 = omega arith in
    let b3 : cmd * 8 / 128 % 2 ≡ cmd / 16 % 2 = omega arith in
    let b4 : cmd * 16 / 128 % 2 ≡ cmd / 8 % 2 = omega arith in
    let b5 : cmd * 32 / 128 % 2 ≡ cmd / 4 % 2 = omega arith in
    let b6 : cmd * 64 / 128 % 2 ≡ cmd / 2 % 2 = omega arith in
    let b7 : cmd * 128 / 128 % 2 ≡ cmd / 1 % 2 = omega arith in
    rw (b0, b1, b2, b3, b4, b5, b6, b7) refl

-- One word for each segment line, from line `i` on.
pub screen_words : ℕ → Buf → ℕ → List (List Bool) → List (List Bool)
screen_words zero screen i rest = rest
screen_words (suc left) screen i rest =
    seg_word i (screen i) ∷ screen_words left screen (i + 1) rest

-- The level of the data line after a refresh.
last_level : ℕ → Buf → ℕ → Bool → Bool
last_level zero screen i level = level
last_level (suc left) screen i level = last_level left screen (i + 1) (screen i / 1 % 2 == 1)

words-refresh_loop :
    (left : ℕ) (screen : Buf) (i : ℕ) (level : Bool) (es : List Event)
    → i + left ≤ 64
    → IsScreen screen
    → words true level [] (refresh_loop left screen i ++ es)
      ≡ screen_words left screen i (words true (last_level left screen i level) [] es)
unfolding refresh_loop screen_words last_level
words-refresh_loop zero screen i level es fits v = refl
words-refresh_loop (suc left) screen i level es fits v =
    let ih = words-refresh_loop left screen (i + 1) (screen i / 1 % 2 == 1) es (omega arith) v in
    rw append_assoc (
      words-write_seg i (screen i) level (refresh_loop left screen (i + 1) ++ es) (omega arith)
        (v i)
      ∙ ap (λ (t : List (List Bool)). seg_word i (screen i) ∷ t) ih)

-- A receiver that samples the data line where the write clock rises reads what LCD_Refresh sends,
-- from a clock that is high and a screen of four bits to a line, as fourteen words: for each
-- segment line the data command, its number and its four bits of the buffer.
pub words-refresh :
    (screen : Buf) (level : Bool)
    → IsScreen screen
    → words true level [] (refresh screen) ≡ screen_words buffer_len screen 0 []
unfolding refresh words
words-refresh screen level v =
    ap (λ (es : List Event). words true level [] es) (sym (append-nil (refresh screen)))
    ∙ words-refresh_loop buffer_len screen 0 level [] (omega arith) v

send_five :
    (a b c d e : ℕ) (bits : List Bool) (es : List Event)
    → (a < 256) × (b < 256) × (c < 256) × (d < 256) × (e < 256)
    → words true true bits
        (write_cmd a ++ (write_cmd b ++ (write_cmd c ++ (write_cmd d ++ write_cmd e))) ++ es)
      ≡ cmd_word a ∷ cmd_word b ∷ cmd_word c ∷ cmd_word d ∷ cmd_word e ∷ words true false [] es
send_five a b c d e bits es small = simp append_assoc (
    words-write_cmd a true bits _ (omega arith)
    ∙ ap (λ (t : List (List Bool)). cmd_word a ∷ t)
        (words-write_cmd b false [] _ (omega arith)
          ∙ ap (λ (t : List (List Bool)). cmd_word b ∷ t)
              (words-write_cmd c false [] _ (omega arith)
                ∙ ap (λ (t : List (List Bool)). cmd_word c ∷ t)
                    (words-write_cmd d false [] _ (omega arith)
                      ∙ ap (λ (t : List (List Bool)). cmd_word d ∷ t)
                          (words-write_cmd e false [] es (omega arith))))))

two_screens :
    (s1 s2 : Buf) (level : Bool)
    → IsScreen s1
    → IsScreen s2
    → words true level [] (refresh s1 ++ (delay 1 ∷ refresh s2))
      ≡ screen_words buffer_len s1 0 (screen_words buffer_len s2 0 [])
unfolding refresh words
two_screens s1 s2 level v1 v2 =
    words-refresh_loop buffer_len s1 0 level (delay 1 ∷ refresh s2) (omega arith) v1
    ∙ ap (λ (t : List (List Bool)). screen_words buffer_len s1 0 t)
        (words-refresh s2 (last_level buffer_len s1 0 level) v2)

first-IsScreen : IsScreen (show_icon s5_press_timing_valves show_open cleared)
first-IsScreen = show_icon-IsScreen s5_press_timing_valves show_open cleared (λ i. omega arith)

sent :
    (bits : List Bool)
    → let first = show_icon s5_press_timing_valves show_open cleared in
      words true true bits (
        write_cmd 0x01
        ++ (write_cmd 0x2B ++ (write_cmd 0x17 ++ (write_cmd 0x05 ++ write_cmd 0x03)))
        ++ (refresh cleared ++ (delay 1 ∷ refresh first)))
      ≡ cmd_word 0x01
        ∷ cmd_word 0x2B
        ∷ cmd_word 0x17
        ∷ cmd_word 0x05
        ∷ cmd_word 0x03
        ∷ screen_words buffer_len cleared 0 (screen_words buffer_len first 0 [])
sent bits =
    let first = show_icon s5_press_timing_valves show_open cleared in
    send_five 0x01 0x2B 0x17 0x05 0x03 bits (refresh cleared ++ (delay 1 ∷ refresh first))
      (omega arith)
    ∙ ap
        (λ (t : List (List Bool)).
          cmd_word 0x01 ∷ cmd_word 0x2B ∷ cmd_word 0x17 ∷ cmd_word 0x05 ∷ cmd_word 0x03 ∷ t)
        (two_screens cleared first false (λ i. omega arith) first-IsScreen)

-- The same receiver reads what LCD_Init sends as one empty word, the five commands, an empty
-- screen and the screen with the icon kS5PressTimingValves lit, whatever the pins and the buffer
-- were before; that last screen is the buffer.
pub words-init :
    (screen : Buf) (clock level : Bool)
    → let first = show_icon s5_press_timing_valves show_open cleared in
      ((init screen).0 ≡ first)
      × (words clock level [] (init screen).1
          ≡ []
            ∷ cmd_word 0x01
            ∷ cmd_word 0x2B
            ∷ cmd_word 0x17
            ∷ cmd_word 0x05
            ∷ cmd_word 0x03
            ∷ screen_words buffer_len cleared 0 (screen_words buffer_len first 0 []))
unfolding init clear words
words-init screen false level = (refl, ap (λ (t : List (List Bool)). [] ∷ t) (sent (level ∷ [])))
words-init screen true level = (refl, ap (λ (t : List (List Bool)). [] ∷ t) (sent []))
