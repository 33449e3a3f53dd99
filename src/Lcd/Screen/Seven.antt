-- ===== src/Lcd/Screen/Seven.antt =====
-- The seven calls of a digit, as the two bytes that they leave.
use ch32v303rct6_rtt_mrs.Base.{
  ℕ, ◌+◌, ◌*◌, ◌/◌, ◌<◌, ◌==◌, if◌then◌else◌, Bool, true, ◌&&◌, arith, ◌≡◌, refl,
}
use ch32v303rct6_rtt_mrs.Flash.Driver.{Buf}
use ch32v303rct6_rtt_mrs.Lcd.Screen.{
  com1, com2, com3, com4, Mode, show_close, show_open, masked, show_segment, show_seven,
}
use ch32v303rct6_rtt_mrs.Lcd.Screen.Segments.{IsScreen, every, every_at}

abbrev pub on : Mode → ℕ
on show_close = 0
on show_open = 1

-- A digit's first byte after its four calls, and its second one after its three.
abbrev first_byte : Mode → Mode → Mode → Mode → ℕ → ℕ
first_byte a d e f x = masked com3 f (masked com2 e (masked com1 d (masked com4 a x)))

abbrev second_byte : Mode → Mode → Mode → ℕ → ℕ
second_byte b c g x = masked com3 g (masked com2 c (masked com4 b x))

abbrev all_modes : (Mode → Bool) → Bool
all_modes p = p show_close && p show_open

all_modes_sound : (p : Mode → Bool) (m : Mode) → all_modes p ≡ true → p m ≡ true
all_modes_sound p show_close h = ground arith
all_modes_sound p show_open h = ground arith

abbrev first_ok : Mode → Mode → Mode → Mode → ℕ → Bool
first_ok a d e f x = first_byte a d e f x == 8 * on d + 4 * on e + 2 * on f + on a

abbrev second_ok : Mode → Mode → Mode → ℕ → Bool
second_ok b c g x = second_byte b c g x == 8 * (x / 8) + 4 * on c + 2 * on g + on b

first_table : (a d e : Mode) → all_modes (λ f. every (λ x. first_ok a d e f x) 16) ≡ true
unfolding every masked
first_table show_close show_close show_close = refl
first_table show_close show_close show_open = refl
first_table show_close show_open show_close = refl
first_table show_close show_open show_open = refl
first_table show_open show_close show_close = refl
first_table show_open show_close show_open = refl
first_table show_open show_open show_close = refl
first_table show_open show_open show_open = refl

second_table : (b c : Mode) → all_modes (λ g. every (λ x. second_ok b c g x) 16) ≡ true
unfolding every masked
second_table show_close show_close = refl
second_table show_close show_open = refl
second_table show_open show_close = refl
second_table show_open show_open = refl

first_byte_lem :
    (a d e f : Mode) (x : ℕ) → x < 16 → first_byte a d e f x ≡ 8 * on d + 4 * on e + 2 * on f + on a
first_byte_lem a d e f x small = ground (
  arith,
  every_at (λ (y : ℕ). first_ok a d e f y) 16 x small
      (all_modes_sound (λ (m : Mode). every (λ y. first_ok a d e m y) 16) f (first_table a d e)),
)

second_byte_lem :
    (b c g : Mode) (x : ℕ) → x < 16 → second_byte b c g x ≡ 8 * (x / 8) + 4 * on c + 2 * on g + on b
second_byte_lem b c g x small = ground (
  arith,
  every_at (λ (y : ℕ). second_ok b c g y) 16 x small
      (all_modes_sound (λ (m : Mode). every (λ y. second_ok b c m y) 16) g (second_table b c)),
)

-- The two bytes of a digit after the seven calls; the upper bit of the second one stays, and so
-- does every other byte.
pub show_seven-at :
    (index : ℕ) (a b c d e f g : Mode) (screen : Buf) (i : ℕ)
    → IsScreen screen
    → show_seven index a b c d e f g screen i ≡ (
        if i == index
        then 8 * on d + 4 * on e + 2 * on f + on a
        else if i == index + 1
        then 8 * (screen i / 8) + 4 * on c + 2 * on g + on b
        else screen i)
unfolding show_seven show_segment
show_seven-at index a b c d e f g screen i v =
    ground (arith, first_byte_lem a d e f (screen i) (v i), second_byte_lem b c g (screen i) (v i))
