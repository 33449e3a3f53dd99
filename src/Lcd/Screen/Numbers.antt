-- ===== src/Lcd/Screen/Numbers.antt =====
-- `LCD_ShowPressure` and `LCD_ShowTime`: the digits on the screen are those of the number.
use ch32v303rct6_rtt_mrs.Base.{
  u8, Bool-cases, ℕ, ◌+◌, ◌/◌, ◌%◌, ◌<◌, ◌≤◌, if◌then◌else◌, true, arith, ◌≡◌, refl, ◌≢◌, ◌∙◌,
  get_or, leb, ◌⊎◌, inl, inr,
}
use ch32v303rct6_rtt_mrs.Flash.Driver.{Buf}
use ch32v303rct6_rtt_mrs.Lcd.Screen.{
  Com, com1, com4, Mode, show_close, show_open, show_num, show_icon, icon_point, icon_kpa, icon_min,
  show_pressure, show_time, kpa_num1, kpa_num2, kpa_num3, min_num1, min_num2,
}
use ch32v303rct6_rtt_mrs.Lcd.Screen.Segments.{
  IsScreen, lit, is_open, show_segment-IsScreen, show_segment-lit,
}
use ch32v303rct6_rtt_mrs.Lcd.Screen.Digits.{
  codes, code_of, shown, show_num-IsScreen, shown-show_num, show_num_top, show_num_away,
}

-- What stays of a byte decides what is lit and shown of it.
module _ (index num : ℕ) (mode : Mode) (screen : Buf) (digit : num ≤ 9) (v : IsScreen screen) where
  shown_other :
      (place : ℕ)
      → (place + 1 < index) ⊎ (index + 1 < place)
      → shown (show_num index num mode screen) place ≡ shown screen place
  shown_other place away =
      let same = show_num_away index num mode screen digit v in
      rw (same place (omega arith) (omega arith), same (place + 1) (omega arith) (omega arith)) refl

  lit_com1 : (i : ℕ) → i ≢ index → lit (show_num index num mode screen) i com1 ≡ lit screen i com1
  lit_com1 i ne = rw (show_num_top index num mode screen digit v i ne) refl

  lit_other :
      (i : ℕ) (line : Com)
      → i ≢ index
      → i ≢ index + 1
      → lit (show_num index num mode screen) i line ≡ lit screen i line
  lit_other i line p q = rw (show_num_away index num mode screen digit v i p q) refl

module _ (mode : Mode) (screen : Buf) (v : IsScreen screen) where
  point_lit : lit (show_icon icon_point mode screen) 4 com1 ≡ is_open mode
  unfolding show_icon
  point_lit = show_segment-lit 4 com1 mode screen 4 com1 v

  kpa_lit : lit (show_icon icon_kpa mode screen) 7 com4 ≡ is_open mode
  unfolding show_icon
  kpa_lit = show_segment-lit 7 com4 mode screen 7 com4 v

  min_lit : lit (show_icon icon_min mode screen) 12 com1 ≡ is_open mode
  unfolding show_icon
  min_lit = show_segment-lit 12 com1 mode screen 12 com1 v

  point_kept : lit (show_icon icon_kpa mode screen) 4 com1 ≡ lit screen 4 com1
  unfolding show_icon
  point_kept = show_segment-lit 7 com4 mode screen 4 com1 v

  icon-IsScreen :
      IsScreen (show_icon icon_point mode screen)
      × IsScreen (show_icon icon_kpa mode screen)
      × IsScreen (show_icon icon_min mode screen)
  unfolding show_icon
  icon-IsScreen = (
    show_segment-IsScreen 4 com1 mode screen v,
    show_segment-IsScreen 7 com4 mode screen v,
    show_segment-IsScreen 12 com1 mode screen v,
  )

-- On a screen of four bits to a segment line, LCD_ShowTime with kShowOpen shows a time of up to
-- 99 minutes in the usual seven-segment codes, the tens only from 10 on, with its unit lit.
pub show_time_lem :
    (time : ℕ) (screen : Buf)
    → time ≤ 99
    → IsScreen screen
    → let s = show_time time show_open screen in
      (shown s min_num1 ≡ (if leb 10 time then get_or codes (time / 10) 0 else 0))
      × (shown s min_num2 ≡ get_or codes (time % 10) 0)
      × (lit s 12 com1 ≡ true)
unfolding show_time
show_time_lem time screen small v = elim (Bool-cases (leb 10 time)) [
  | inl two ↦
      let lit0 = show_icon icon_min show_open screen in
      let v0 = (icon-IsScreen show_open screen v).2 in
      let d1 : time / 10 ≤ 9 = omega arith in
      let d2 : time % 10 ≤ 9 = omega arith in
      let s1 = show_num min_num1 (time / 10) show_open lit0 in
      let v1 = show_num-IsScreen min_num1 (time / 10) show_open lit0 d1 v0 in
      rw two (
        shown_other min_num2 (time % 10) show_open s1 d2 v1 min_num1 (omega arith)
            ∙ shown-show_num min_num1 (time / 10) show_open lit0 d1 v0,
        shown-show_num min_num2 (time % 10) show_open s1 d2 v1,
        lit_com1 min_num2 (time % 10) show_open s1 d2 v1 12 (omega arith)
            ∙ lit_com1 min_num1 (time / 10) show_open lit0 d1 v0 12 (omega arith)
            ∙ min_lit show_open screen v,
      )
  | inr one ↦
      let lit0 = show_icon icon_min show_open screen in
      let v0 = (icon-IsScreen show_open screen v).2 in
      let d1 : 0 ≤ 9 = omega arith in
      let d2 : time % 10 ≤ 9 = omega arith in
      let s1 = show_num min_num1 0 show_close lit0 in
      let v1 = show_num-IsScreen min_num1 0 show_close lit0 d1 v0 in
      rw one (
        shown_other min_num2 (time % 10) show_open s1 d2 v1 min_num1 (omega arith)
            ∙ shown-show_num min_num1 0 show_close lit0 d1 v0,
        shown-show_num min_num2 (time % 10) show_open s1 d2 v1,
        lit_com1 min_num2 (time % 10) show_open s1 d2 v1 12 (omega arith)
            ∙ lit_com1 min_num1 0 show_close lit0 d1 v0 12 (omega arith)
            ∙ min_lit show_open screen v,
      )
]

-- The last two digits of a pressure, behind a first one that is on the screen.
last_two :
    (n2 n3 code : ℕ) (screen : Buf)
    → n2 ≤ 9
    → n3 ≤ 9
    → IsScreen screen
    → shown screen kpa_num1 ≡ code
    → lit screen 4 com1 ≡ true
    → lit screen 7 com4 ≡ true
    → let s = show_num kpa_num3 n3 show_open (show_num kpa_num2 n2 show_open screen) in
      (shown s kpa_num1 ≡ code)
      × (shown s kpa_num2 ≡ get_or codes n2 0)
      × (shown s kpa_num3 ≡ get_or codes n3 0)
      × (lit s 4 com1 ≡ true)
      × (lit s 7 com4 ≡ true)
last_two n2 n3 code screen d2 d3 v first point kpa =
    let s2 = show_num kpa_num2 n2 show_open screen in
    let v2 = show_num-IsScreen kpa_num2 n2 show_open screen d2 v in
    (
      shown_other kpa_num3 n3 show_open s2 d3 v2 kpa_num1 (omega arith)
          ∙ shown_other kpa_num2 n2 show_open screen d2 v kpa_num1 (omega arith)
          ∙ first,
      shown_other kpa_num3 n3 show_open s2 d3 v2 kpa_num2 (omega arith)
          ∙ shown-show_num kpa_num2 n2 show_open screen d2 v,
      shown-show_num kpa_num3 n3 show_open s2 d3 v2,
      lit_other kpa_num3 n3 show_open s2 d3 v2 4 com1 (omega arith) (omega arith)
          ∙ lit_com1 kpa_num2 n2 show_open screen d2 v 4 (omega arith)
          ∙ point,
      lit_other kpa_num3 n3 show_open s2 d3 v2 7 com4 (omega arith) (omega arith)
          ∙ lit_other kpa_num2 n2 show_open screen d2 v 7 com4 (omega arith) (omega arith)
          ∙ kpa,
    )

-- A digit in the first place leaves the point and the unit alone.
first_digit :
    (n1 : ℕ) (mode : Mode) (screen : Buf)
    → n1 ≤ 9
    → IsScreen screen
    → lit screen 4 com1 ≡ true
    → lit screen 7 com4 ≡ true
    → let s = show_num kpa_num1 n1 mode screen in
      IsScreen s
      × (shown s kpa_num1 ≡ code_of mode n1)
      × (lit s 4 com1 ≡ true)
      × (lit s 7 com4 ≡ true)
first_digit n1 mode screen d1 v point kpa = (
  show_num-IsScreen kpa_num1 n1 mode screen d1 v,
  shown-show_num kpa_num1 n1 mode screen d1 v,
  lit_other kpa_num1 n1 mode screen d1 v 4 com1 (omega arith) (omega arith) ∙ point,
  lit_other kpa_num1 n1 mode screen d1 v 7 com4 (omega arith) (omega arith) ∙ kpa,
)

-- On a screen of four bits to a segment line, LCD_ShowPressure with kShowOpen shows a pressure of
-- up to 99999 Pa in kPa with one decimal, cut off: the tens only from 10000 Pa on, the units and
-- the decimal always, in the usual seven-segment codes, with the point and the unit lit.
pub show_pressure_lem :
    (pressure : ℕ) (screen : Buf)
    → pressure ≤ 99999
    → IsScreen screen
    → let s = show_pressure pressure show_open screen in
      (shown s kpa_num1 ≡ (if leb 10000 pressure then get_or codes (pressure / 10000) 0 else 0))
      × (shown s kpa_num2 ≡ get_or codes (pressure / 1000 % 10) 0)
      × (shown s kpa_num3 ≡ get_or codes (pressure / 100 % 10) 0)
      × (lit s 4 com1 ≡ true)
      × (lit s 7 com4 ≡ true)
unfolding show_pressure
show_pressure_lem pressure screen small v =
    let point = show_icon icon_point show_open screen in
    let vp = (icon-IsScreen show_open screen v).0 in
    let icons = show_icon icon_kpa show_open point in
    let vi = (icon-IsScreen show_open point vp).1 in
    let blank =
      first_digit 0 show_close icons (omega arith) vi
        (point_kept show_open point vp ∙ point_lit show_open screen v)
        (kpa_lit show_open point vp) in
    let cleared = show_num kpa_num1 0 show_close icons in
    elim (Bool-cases (leb 10000 pressure)) [
      | inl tens ↦
          let n1 : u8 (pressure / 10000) ≡ pressure / 10000 = omega arith in
          let d =
            first_digit (pressure / 10000) show_open cleared (omega arith) blank.0 blank.2
              blank.3 in
          rw (tens, n1)
            (last_two (pressure / 1000 % 10) (pressure / 100 % 10) _ _ (omega arith) (omega arith)
              d.0 d.1 d.2 d.3)
      | inr units ↦
          let n2 : (if leb 1000 pressure then pressure / 1000 else 0) ≡ pressure / 1000 % 10 =
            ground arith in
          let n3 : (if leb 1000 pressure
                then pressure / 100 % 10
                else if leb 100 pressure
                then pressure / 100
                else 0)
              ≡ pressure / 100 % 10 =
            ground arith in
          rw (units, n2, n3)
            (last_two (pressure / 1000 % 10) (pressure / 100 % 10) _ _ (omega arith) (omega arith)
              blank.0 blank.1 blank.2 blank.3)
    ]
