-- ===== src/Lcd/Screen/Segments.antt =====
-- One segment is switched and every other one stays.
use ch32v303rct6_rtt_mrs.Base.{
  ℕ, zero, suc, ◌/◌, ◌%◌, ◌<◌, ◌==◌, if◌then◌else◌, Bool, true, false, ◌&&◌, arith, ◌≡◌, refl, ltb,
}
use ch32v303rct6_rtt_mrs.Flash.Driver.{Buf}
use ch32v303rct6_rtt_mrs.Lcd.Screen.{
  Com, com1, com2, com3, com4, Mode, show_close, show_open, masked, show_segment, show_icon, Icon,
  s1_over_press, s2_under_press, s3_over_current, s4_leakage, s5_press_timing_valves, s6_network,
  s7_leak_hunting, s8_fault, s9_alarm, l1_line, l2_line, l3_line, l4_line, k1_self_closing_valve_on,
  k2_self_closing_valve_off, k3_hand_valve_on, k4_hand_valve_off, icon_point, icon_kpa, icon_min,
}

-- The buffer holds four bits for each segment line.
abbrev pub IsScreen : Buf → Type 0
IsScreen screen = (i : ℕ) → screen i < 16

-- The bit of a byte that stands for a common line.
abbrev pub bit_of : Com → ℕ → ℕ
bit_of com1 x = x / 8 % 2
bit_of com2 x = x / 4 % 2
bit_of com3 x = x / 2 % 2
bit_of com4 x = x % 2

abbrev pub lit : Buf → ℕ → Com → Bool
lit screen seg line = bit_of line (screen seg) == 1

abbrev pub is_open : Mode → Bool
is_open show_close = false
is_open show_open = true

abbrev pub same_com : Com → Com → Bool
same_com com1 com1 = true
same_com com2 com2 = true
same_com com3 com3 = true
same_com com4 com4 = true
same_com _ _ = false

-- A test that holds of the numbers under a bound.
unfoldable pub every : (ℕ → Bool) → ℕ → Bool
every test zero = true
every test (suc k) = let rest = every test k in if test k then rest else false

pub every_at : (test : ℕ → Bool) (bound i : ℕ) → i < bound → every test bound ≡ true → test i ≡ true
unfolding every
every_at test zero i below e = absurd (omega arith)
every_at test (suc k) i below e = ground (arith, every_at test k i)

abbrev all_coms : (Com → Bool) → Bool
all_coms p = p com1 && (p com2 && (p com3 && p com4))

all_coms_sound : (p : Com → Bool) (c : Com) → all_coms p ≡ true → p c ≡ true
all_coms_sound p com1 h = ground arith
all_coms_sound p com2 h = ground arith
all_coms_sound p com3 h = ground arith
all_coms_sound p com4 h = ground arith

-- What a masked byte should be.
abbrev mask_ok : Com → Mode → Com → ℕ → Bool
mask_ok line mode other x =
    ltb (masked line mode x) 16
    && (bit_of other (masked line mode x)
        == (if same_com line other then (if is_open mode then 1 else 0) else bit_of other x))

mask_table :
    (mode : Mode)
    → all_coms (λ line. all_coms (λ other. every (λ x. mask_ok line mode other x) 16)) ≡ true
unfolding every masked
mask_table show_close = refl
mask_table show_open = refl

masked_lem :
    (line : Com) (mode : Mode) (other : Com) (x : ℕ) → x < 16 → mask_ok line mode other x ≡ true
masked_lem line mode other x small =
    every_at (λ (y : ℕ). mask_ok line mode other y) 16 x small
      (all_coms_sound (λ (o : Com). every (λ y. mask_ok line mode o y) 16) other
        (all_coms_sound (λ (c : Com). all_coms (λ o. every (λ y. mask_ok c mode o y) 16)) line
          (mask_table mode)))

pub masked-lt : (line : Com) (mode : Mode) (x : ℕ) → x < 16 → masked line mode x < 16
masked-lt line mode x small = ground (arith, masked_lem line mode com1 x small)

-- The bit of a masked byte.
pub masked-bit :
    (line : Com) (mode : Mode) (other : Com) (x : ℕ)
    → x < 16
    → (bit_of other (masked line mode x) == 1)
      ≡ (if same_com line other then is_open mode else (bit_of other x == 1))
masked-bit line show_close other x small = ground (arith, masked_lem line show_close other x small)
masked-bit line show_open other x small = ground (arith, masked_lem line show_open other x small)

pub show_segment-IsScreen :
    (seg : ℕ) (line : Com) (mode : Mode) (screen : Buf)
    → IsScreen screen
    → IsScreen (show_segment seg line mode screen)
unfolding show_segment
show_segment-IsScreen seg line mode screen v i =
    ground (arith, masked-lt line mode (screen i) (v i), v i)

-- On a screen of four bits to a segment line, LCD_ShowSegment sets the one segment as the mode
-- says and leaves every other one as it is.
pub show_segment-lit :
    (seg : ℕ) (line : Com) (mode : Mode) (screen : Buf) (i : ℕ) (other : Com)
    → IsScreen screen
    → lit (show_segment seg line mode screen) i other
      ≡ (if (i == seg) && same_com line other then is_open mode else lit screen i other)
unfolding show_segment
show_segment-lit seg line mode screen i other v =
    ground (arith, masked-bit line mode other (screen i) (v i))

pub show_icon-IsScreen :
    (icon : Icon) (mode : Mode) (screen : Buf)
    → IsScreen screen
    → IsScreen (show_icon icon mode screen)
unfolding show_icon
show_icon-IsScreen s1_over_press mode screen v = show_segment-IsScreen 0 com4 mode screen v
show_icon-IsScreen s2_under_press mode screen v = show_segment-IsScreen 0 com3 mode screen v
show_icon-IsScreen s3_over_current mode screen v = show_segment-IsScreen 0 com2 mode screen v
show_icon-IsScreen s4_leakage mode screen v = show_segment-IsScreen 0 com1 mode screen v
show_icon-IsScreen s5_press_timing_valves mode screen v = show_segment-IsScreen 2 com1 mode screen v
show_icon-IsScreen s6_network mode screen v = show_segment-IsScreen 7 com3 mode screen v
show_icon-IsScreen s7_leak_hunting mode screen v = show_segment-IsScreen 7 com2 mode screen v
show_icon-IsScreen s8_fault mode screen v = show_segment-IsScreen 8 com4 mode screen v
show_icon-IsScreen s9_alarm mode screen v = show_segment-IsScreen 13 com4 mode screen v
show_icon-IsScreen l1_line mode screen v = show_segment-IsScreen 6 com1 mode screen v
show_icon-IsScreen l2_line mode screen v = show_segment-IsScreen 10 com1 mode screen v
show_icon-IsScreen l3_line mode screen v = show_segment-IsScreen 8 com1 mode screen v
show_icon-IsScreen l4_line mode screen v = show_segment-IsScreen 13 com1 mode screen v
show_icon-IsScreen k1_self_closing_valve_on mode screen v =
    show_segment-IsScreen 8 com2 mode screen v
show_icon-IsScreen k2_self_closing_valve_off mode screen v =
    show_segment-IsScreen 8 com3 mode screen v
show_icon-IsScreen k3_hand_valve_on mode screen v = show_segment-IsScreen 13 com2 mode screen v
show_icon-IsScreen k4_hand_valve_off mode screen v = show_segment-IsScreen 13 com3 mode screen v
show_icon-IsScreen icon_point mode screen v = show_segment-IsScreen 4 com1 mode screen v
show_icon-IsScreen icon_kpa mode screen v = show_segment-IsScreen 7 com4 mode screen v
show_icon-IsScreen icon_min mode screen v = show_segment-IsScreen 12 com1 mode screen v
