-- ===== src/Flash/Tests.antt =====
-- A simulated flash, and the theorems on it.
use mathlib.Core.Path.{refl}
use ch32v303rct6_rtt_mrs.Base.{
  u8, ℕ, zero, suc, ◌+◌, ◌/◌, ◌%◌, ◌<◌, ◌≤◌, ◌==◌, ◌&&◌, ltb, leb, if◌then◌else◌, Bool, true, false,
  some, arith, ◌≡◌, ◌⊎◌, inr, ◌≢◌, get_or, [], ◌∷◌,
}
use ch32v303rct6_rtt_mrs.Rtc.{Clock}
use ch32v303rct6_rtt_mrs.Rtc.Calendar.{day_number}
use ch32v303rct6_rtt_mrs.Rtc.RoundTrip.{stamp}
use ch32v303rct6_rtt_mrs.Rtc.Tests.{afternoon, get-afternoon}
use ch32v303rct6_rtt_mrs.Flash.Hal.{Mem, Chip, FlashHal, erased_byte}
use ch32v303rct6_rtt_mrs.Flash.Layout.{power_on, pages, max_num, config_addr, init_flag_addr}
use ch32v303rct6_rtt_mrs.Flash.Driver.{Buf, load16, write}
use ch32v303rct6_rtt_mrs.Flash.Driver.Write.{IsBytes, Wrote, write-Wrote}
use ch32v303rct6_rtt_mrs.Flash.Records.{World, write_record, read_record, frame_of}
use ch32v303rct6_rtt_mrs.Flash.Records.Log.{IsLog}
use ch32v303rct6_rtt_mrs.Flash.Records.Room.{IsRing}
use ch32v303rct6_rtt_mrs.Flash.Records.Append.{Appended, write_record-Appended}
use ch32v303rct6_rtt_mrs.Flash.Records.Read.{read_record_beyond}
use ch32v303rct6_rtt_mrs.Flash.Records.Clear.{IsErased-IsLog}
use ch32v303rct6_rtt_mrs.Flash.Query.{get_record}
use ch32v303rct6_rtt_mrs.Flash.Query.History.{write_records, get_record-write_records}
use ch32v303rct6_rtt_mrs.Flash.Query.Answers.{type_of}
use ch32v303rct6_rtt_mrs.Flash.Config.{
  set_factory_rtc_time, factory_time, expiration_time, time_of, get_time_limit, set_time_limit,
  init, init_value,
}
use ch32v303rct6_rtt_mrs.Flash.Config.Limits.{limit_frame, get-set_time_limit}
use ch32v303rct6_rtt_mrs.Flash.Config.Start.{Started, init-Started}

abbrev pub sim_erase : Bool → ℕ → Mem → Mem
sim_erase ok page m addr =
    if ok && (leb page addr && ltb addr (page + 256)) then erased_byte addr else m addr

abbrev pub sim_program : Bool → ℕ → ℕ → Mem → Mem
sim_program ok addr value m a =
    if ok && (a == addr) then value % 256 else if ok && (a == addr + 1) then value / 256 else m a

pub sim_erased :
    (page addr : ℕ) (m : Mem)
    → page % 256 ≡ 0
    → page ≤ addr
    → addr < page + 256
    → sim_erase true page m addr ≡ erased_byte addr
sim_erased page addr m e lo hi = ground arith

pub sim_erase_frame :
    (page addr : ℕ) (m : Mem)
    → page % 256 ≡ 0
    → (addr < page) ⊎ (page + 256 ≤ addr)
    → sim_erase true page m addr ≡ m addr
sim_erase_frame page addr m e away = ground arith

pub sim_programmed :
    (addr value : ℕ) (m : Mem)
    → addr % 2 ≡ 0
    → value < 65536
    → m addr ≡ 0x39
    → m (addr + 1) ≡ 0xE3
    → (sim_program true addr value m addr ≡ value % 256)
      × (sim_program true addr value m (addr + 1) ≡ value / 256)
sim_programmed addr value m e small lo hi = ground arith

pub sim_program_frame :
    (addr value a : ℕ) (m : Mem) → a ≢ addr → a ≢ addr + 1 → sim_program true addr value m a ≡ m a
sim_program_frame addr value a m p q = ground arith

-- A controller that erases and programs only while it is unlocked.
abbrev pub sim : FlashHal
sim = record {
  unlock = λ c. record c { unlocked = true };
  lock = λ c. record c { unlocked = false };
  unlock_fast = λ c. record c { unlocked = true; fast_unlocked = true };
  lock_fast = λ c. record c { fast_unlocked = false };
  erase_page_fast = sim_erase;
  program_half_word = sim_program;
  unlock_lem = λ c. refl;
  lock_lem = λ c. refl;
  unlock_fast_lem = λ c. refl;
  lock_fast_lem = λ c. refl;
  erased = sim_erased;
  erase_frame = sim_erase_frame;
  programmed = sim_programmed;
  program_frame = sim_program_frame;
}

abbrev pub new_chip : Chip
new_chip = record {
  mem = erased_byte;
  unlocked = false;
  fast_unlocked = false;
  interrupts = 7;
  interrupt_value = 0;
}

pub new-IsBytes : IsBytes new_chip.mem
new-IsBytes a = ground arith

abbrev pub read_clock : Clock
read_clock = record afternoon { daycnt = day_number 2024 7 19; date_time = stamp 2024 7 19 49000 }

pub power_on-IsRing : IsRing power_on
unfolding pages max_num
power_on-IsRing = omega arith

-- The log of `n` starts.
pub log_of : (n : ℕ) → n ≤ 60 → (c : Chip) × IsLog c.mem power_on n (max_num power_on) n
log_of zero h = (new_chip, IsErased-IsLog erased_byte power_on (max_num power_on) (λ a p q. refl))
log_of (suc n) h =
    let (c, v) = log_of n (omega arith) in
    let w : World = record { chip = c; clock = afternoon } in
    let (c', e, a) =
      write_record-Appended sim power_on n w read_clock power_on-IsRing (omega arith) v
        get-afternoon in
    let next : n + 1 ≡ suc n = omega arith in (c', rw next at a.log)

abbrev pub log60 : (c : Chip) × IsLog c.mem power_on 60 (max_num power_on) 60
log60 = log_of 60 (omega arith)

abbrev pub world60 : World
world60 = record { chip = log60.0; clock = afternoon }

write_record-Appended_example :
    (c' : Chip) × (write_record sim power_on world60
      ≡ some (record { chip = c'; clock = read_clock }))
    × Appended power_on 60 world60.chip read_clock.date_time c'
write_record-Appended_example =
    write_record-Appended sim power_on 60 world60 read_clock power_on-IsRing (omega arith) log60.1
      get-afternoon

power_on_full : max_num power_on < 60
unfolding max_num
power_on_full = omega arith

read_record_beyond_example :
    (frame_of (read_record log60.0.mem power_on 55 (λ i. 0))).header ≡ 0xE339
read_record_beyond_example =
    read_record_beyond log60.0.mem power_on 60 55 (λ i. 0) power_on-IsRing log60.1 power_on_full
      (omega arith) (omega arith) (omega arith) (omega arith)

abbrev greeting : Buf
greeting i = get_or (1 ∷ 2 ∷ 3 ∷ 4 ∷ []) i 0

greeting-IsBytes : IsBytes greeting
greeting-IsBytes zero = omega arith
greeting-IsBytes (suc zero) = omega arith
greeting-IsBytes (suc (suc zero)) = omega arith
greeting-IsBytes (suc (suc (suc zero))) = omega arith
greeting-IsBytes (suc (suc (suc (suc i)))) = omega arith

write-Wrote_example :
    Wrote config_addr 0 4 greeting new_chip 7 (write sim config_addr greeting 4 new_chip)
write-Wrote_example =
    write-Wrote sim config_addr 4 greeting new_chip greeting-IsBytes refl refl (λ a p q. refl)

get-set_time_limit_example :
    let r =
      get_time_limit
        (set_time_limit sim 2028 3 26 9 30 0 expiration_time new_chip).mem
        expiration_time
        (λ i. 0) in
    (r.0 ≡ true) × (time_of r.1 ≡ limit_frame 2028 3 26 9 30 0)
get-set_time_limit_example =
    get-set_time_limit sim new_chip new-IsBytes 2028 3 26 9 30 0 expiration_time (λ i. 0) (λ e. cc)

new_flag : load16 new_chip.mem init_flag_addr ≢ init_value
new_flag e = omega arith

init-Started_example : Started (init sim new_chip)
init-Started_example = init-Started sim new_chip new-IsBytes new_flag

-- Of sixty events, the forty-ninth index names the last but one.
get_record-write_records_example :
    (c' : Chip) × (write_records sim power_on (λ i. afternoon) 60 new_chip ≡ some c')
    × (get_record c'.mem (type_of power_on) 49
        ≡ some (u8 (2024 / 256) ∷ 2024 % 256 ∷ 7 ∷ 19 ∷ 13 ∷ 36 ∷ []))
get_record-write_records_example =
    get_record-write_records sim power_on (λ i. afternoon) (λ i. read_clock) 60 49 new_chip
      power_on-IsRing (λ i. get-afternoon) (λ a p q. refl) (omega arith) (omega arith) (omega arith)
      (inr (omega arith))

-- The factory time is taken from the clock.
factory_now :
    set_factory_rtc_time sim (record { chip = new_chip; clock = afternoon })
    ≡ some (record {
      chip = set_time_limit sim 2024 7 19 13 36 40 factory_time new_chip;
      clock = read_clock;
    })
unfolding set_factory_rtc_time
factory_now = rw get-afternoon refl
