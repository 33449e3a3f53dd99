-- ===== src/Flash/Config/Start.antt =====
-- `BSP_Flash_Init`: the first start erases everything and writes the defaults; later ones change
-- nothing.
use mathlib.Core.Path.{refl}
use native.Mathlib.Decide.{dec_lt, ℕ_discrete}
use ch32v303rct6_rtt_mrs.Base.{
  ap, false, ◌==◌, ◌≢◌, [], ◌/◌, ◌∷◌, ◌%◌, u8, ◌-◌, get_or, List, true, ◌∙◌, inl, ℕ, ◌+◌, ◌*◌, ◌≤◌,
  ◌<◌, arith, ◌≡◌,
}
use ch32v303rct6_rtt_mrs.Flash.Hal.{Chip, FlashHal}
use ch32v303rct6_rtt_mrs.Flash.Layout.{
  Record, alarm, pages, start_addr, config_addr, page_size, init_flag_addr,
}
use ch32v303rct6_rtt_mrs.Flash.Driver.{Buf, load16}
use ch32v303rct6_rtt_mrs.Flash.Driver.Write.{Wrote, IsBytes, write-Wrote}
use ch32v303rct6_rtt_mrs.Flash.Config.{
  time_bytes, write, init_value, erase_all, init, factory_time, expiration_time, time_of,
  get_time_limit, set_time_limit,
}
use ch32v303rct6_rtt_mrs.Flash.Config.Page.{Patched}
use ch32v303rct6_rtt_mrs.Flash.Records.Append.{get_or-lt}
use ch32v303rct6_rtt_mrs.Flash.Config.Limits.{filled_limit, limit_frame, set_time_limit-Patched}
use ch32v303rct6_rtt_mrs.Flash.Records.Log.{IsLog}
use ch32v303rct6_rtt_mrs.Flash.Records.Clear.{IsErased-IsLog}
use ch32v303rct6_rtt_mrs.Flash.Layout.{max_num, time_frame_size}
use ch32v303rct6_rtt_mrs.Flash.Config.EraseAll.{erase_all-ErasedArea}

Patched-IsBytes :
    (offset len : ℕ) (bytes : List ℕ) (c c' : Chip)
    → ((k : ℕ) → get_or bytes k 0 < 256)
    → IsBytes c.mem
    → Patched offset len bytes c c'
    → IsBytes c'.mem
Patched-IsBytes offset len bytes c c' small flash p a = elim (dec_lt a (config_addr + offset)) [
  | yes before ↦ rw (p.outside a (inl before)) (flash a)
  | no after ↦ elim (dec_lt a (config_addr + offset + len)) [
    | no past ↦ rw (p.outside a (omega arith)) (flash a)
    | yes here ↦
        let at : a ≡ config_addr + offset + (a - (config_addr + offset)) = omega arith in
        rw at
          (omega (arith, p.inside (a - (config_addr + offset)), small (a - (config_addr + offset))))
  ]
]

-- What stands in the flash after the first start.
pub record Started (c : Chip) : Type 0 where
  pub flag : load16 c.mem init_flag_addr ≡ init_value
  pub logs : (r : Record) → IsLog c.mem r 0 (max_num r) 0
  pub factory : (get_time_limit c.mem factory_time (λ i. 0)).0 ≡ true
  pub factory_frame :
      time_of (get_time_limit c.mem factory_time (λ i. 0)).1 ≡ limit_frame 2023 3 22 13 58 20
  pub expiration : (get_time_limit c.mem expiration_time (λ i. 0)).0 ≡ true
  pub expiration_frame :
      time_of (get_time_limit c.mem expiration_time (λ i. 0)).1 ≡ limit_frame 2028 3 22 13 58 20

start_addr-area :
    (r : Record)
    → (start_addr alarm ≤ start_addr r) × (start_addr r + page_size * pages r ≤ config_addr)
unfolding start_addr pages
start_addr-area r = ground arith

abbrev flag_buf : Buf
flag_buf i = get_or (u8 (init_value % 256) ∷ u8 (init_value / 256) ∷ []) i 0

flag_buf-IsBytes : IsBytes flag_buf
flag_buf-IsBytes i = get_or-lt (u8 (init_value % 256) ∷ u8 (init_value / 256) ∷ []) i (omega arith)

init_again : (hal : FlashHal) (c : Chip) → load16 c.mem init_flag_addr ≡ init_value → init hal c ≡ c
unfolding init
init_again hal c old =
    let e : (load16 c.mem init_flag_addr == init_value) ≡ true = ground arith in rw e refl

-- The chips on the way of the first start.
module _ (hal : FlashHal) (c : Chip) (flash : IsBytes c.mem) where
  abbrev emptied : Chip
  emptied = erase_all hal c

  abbrev flagged : ℕ × Chip
  flagged = write hal init_flag_addr flag_buf 2 emptied

  abbrev with_factory : Chip
  with_factory = set_time_limit hal 2023 3 22 13 58 20 factory_time flagged.1

  abbrev with_both : Chip
  with_both = set_time_limit hal 2028 3 22 13 58 20 expiration_time with_factory

  start_addr-alarm : start_addr alarm ≤ config_addr
  unfolding start_addr
  start_addr-alarm = omega arith

  flag_written : Wrote init_flag_addr 0 2 flag_buf emptied emptied.interrupts flagged
  flag_written =
      write-Wrote hal init_flag_addr 2 flag_buf emptied flag_buf-IsBytes refl refl (λ a p q.
        (erase_all-ErasedArea hal c).blank a (omega (arith, start_addr-alarm)) (omega arith))

  emptied-IsBytes : IsBytes emptied.mem
  emptied-IsBytes a =
      let e = erase_all-ErasedArea hal c in
      elim (dec_lt a (start_addr alarm)) [
        | yes before ↦ rw (e.frame a (inl before)) (flash a)
        | no after ↦ elim (dec_lt a (config_addr + page_size)) [
          | no past ↦ rw (e.frame a (omega arith)) (flash a)
          | yes here ↦ rw (e.blank a (omega arith) here) (ground arith)
        ]
      ]

  flagged-IsBytes : IsBytes flagged.1.mem
  flagged-IsBytes a = elim (dec_lt a init_flag_addr) [
    | yes before ↦ rw (flag_written.outside a (inl before)) (emptied-IsBytes a)
    | no after ↦ elim (dec_lt a (init_flag_addr + 2)) [
      | no past ↦ rw (flag_written.outside a (omega arith)) (emptied-IsBytes a)
      | yes here ↦
          let at : a ≡ init_flag_addr + (a - init_flag_addr) = omega arith in
          rw at (
            omega (
              arith,
              flag_written.inside (a - init_flag_addr),
              flag_buf-IsBytes (a - init_flag_addr),
            ))
    ]
  ]

  factory_set :
      Patched 0 time_frame_size
        (time_bytes (filled_limit 2023 3 22 13 58 20))
        flagged.1
        with_factory
  factory_set = set_time_limit-Patched hal flagged.1 flagged-IsBytes 2023 3 22 13 58 20 factory_time

  with_factory-IsBytes : IsBytes with_factory.mem
  with_factory-IsBytes =
      Patched-IsBytes 0 time_frame_size (time_bytes (filled_limit 2023 3 22 13 58 20)) flagged.1
        with_factory (λ k. get_or-lt (time_bytes (filled_limit 2023 3 22 13 58 20)) k (omega arith))
        flagged-IsBytes factory_set

  expiration_set :
      Patched time_frame_size time_frame_size
        (time_bytes (filled_limit 2028 3 22 13 58 20))
        with_factory
        with_both
  expiration_set =
      set_time_limit-Patched hal with_factory with_factory-IsBytes 2028 3 22 13 58 20
        expiration_time

  -- Below the configuration page all is as the erase left it.
  both_below : (a : ℕ) → a < config_addr → with_both.mem a ≡ emptied.mem a
  both_below a below =
      expiration_set.outside a (omega arith)
      ∙ factory_set.outside a (omega arith)
      ∙ flag_written.outside a (omega arith)

  both-IsLog : (r : Record) → IsLog with_both.mem r 0 (max_num r) 0
  both-IsLog r = IsErased-IsLog with_both.mem r (max_num r) (λ a lo hi.
      both_below a (omega (arith, start_addr-area r))
      ∙ (erase_all-ErasedArea hal c).blank a (omega (arith, start_addr-area r))
          (omega (arith, start_addr-area r)))

  both_flag : load16 with_both.mem init_flag_addr ≡ init_value
  both_flag =
      let a = init_flag_addr in
      ground (
        arith,
        expiration_set.outside a,
        expiration_set.outside (a + 1),
        factory_set.outside a,
        factory_set.outside (a + 1),
        flag_written.inside 0,
        flag_written.inside 1,
      )

  factory_kept :
      (i : ℕ) → i < 8 → with_both.mem (config_addr + i) ≡ with_factory.mem (config_addr + i)
  factory_kept i below = expiration_set.outside (config_addr + i) (omega arith)

  both-Started : Started with_both
  unfolding get_time_limit
  both-Started = record {
    flag = both_flag;
    logs = both-IsLog;
    factory = ground (arith, factory_kept 0, factory_set.inside 0);
    factory_frame = ground (
      arith,
      factory_kept 0,
      factory_kept 1,
      factory_kept 2,
      factory_kept 3,
      factory_kept 4,
      factory_kept 5,
      factory_kept 6,
      factory_kept 7,
      factory_set.inside 0,
      factory_set.inside 1,
      factory_set.inside 2,
      factory_set.inside 3,
      factory_set.inside 4,
      factory_set.inside 5,
      factory_set.inside 6,
      factory_set.inside 7,
    );
    expiration = ground (arith, expiration_set.inside 0);
    expiration_frame = ground (
      arith,
      expiration_set.inside 0,
      expiration_set.inside 1,
      expiration_set.inside 2,
      expiration_set.inside 3,
      expiration_set.inside 4,
      expiration_set.inside 5,
      expiration_set.inside 6,
      expiration_set.inside 7,
    );
  }

  -- Where the flag does not stand in a flash of bytes, BSP_Flash_Init leaves the flag, seven logs
  -- of no records, and the factory and expiration limits 2023-03-22 and 2028-03-22, 13:58:20,
  -- both with their header.
  pub init-Started : load16 c.mem init_flag_addr ≢ init_value → Started (init hal c)
  unfolding init
  init-Started new =
      let e : (load16 c.mem init_flag_addr == init_value) ≡ false = ground arith in
      rw e both-Started

  -- On a flash of bytes, BSP_Flash_Init a second time changes nothing.
  pub init_twice : init hal (init hal c) ≡ init hal c
  init_twice = elim (ℕ_discrete (load16 c.mem init_flag_addr) init_value) [
    | yes old ↦ ap (init hal) (init_again hal c old)
    | no new ↦ init_again hal (init hal c) (init-Started new).flag
  ]
