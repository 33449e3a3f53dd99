-- ===== src/Can/Control/Timing.antt =====
-- The bit timing that a CAN object records and runs with, and its filters against the frames that are
-- sent: libraries/hal_drivers/drv_can.c.
use ch32v303rct6_rtt_mrs.Base.{
  ap, sym, ◌∙◌, ◌⊎◌, Bool-cases, inl, inr, ◌||◌, ℕ, ◌+◌, ◌*◌, ◌/◌, ◌^◌, ◌<◌, ◌≢◌, arith, ◌≡◌, refl,
  Bool, true, if◌then◌else◌, ◌==◌, List, [], ◌∷◌, none, some,
}
use ch32v303rct6_rtt_mrs.Can.{
  can1, can2, Status, ok, error, Base, other, Msg, fill_mailbox, Mailbox,
}
use ch32v303rct6_rtt_mrs.Can.Control.{
  is_mode, Init, Obj, Item, Cmd, set_filter, set_mode, set_baud, set_priv, get_status, find_baud,
  init_of, item_filter, is_baud, set_items, filter_config, config, control,
}

-- The APB1 clock of 72 MHz over the time quanta of a bit.
abbrev pub HasBitRate : Init → ℕ → Type 0
HasBitRate i baud = 72000000 ≡ baud * ((i.sjw + 1 + (i.bs1 + 1) + (i.bs2 + 1)) * i.prescaler)

pub record IsConfigured (o : Obj) : Type 0 where
  pub chip : o.base ≢ other
  pub known : is_baud o.baud_rate ≡ true
  pub current : o.can_init ≡ init_of o.mode o.baud_rate

IsConfigured-bit_rate : (o : Obj) → IsConfigured o → HasBitRate o.can_init o.baud_rate
unfolding find_baud
IsConfigured-bit_rate o h = ground (arith, h.current)

-- The controller runs with the settings that the device records.
abbrev pub IsRunning : Obj → Type 0
IsRunning o = o.inited ≡ some o.can_init

set_items-kept :
    (i : ℕ) (items : List Item) (o : Obj)
    → let o' = set_items i items o in
      (o'.base ≡ o.base)
      × (o'.baud_rate ≡ o.baud_rate)
      × (o'.mode ≡ o.mode)
      × (o'.can_init ≡ o.can_init)
      × (o'.inited ≡ o.inited)
unfolding set_items filter_config
set_items-kept i [] o = (refl, refl, refl, refl, refl)
set_items-kept i (item ∷ items) o =
    let o' = (filter_config (record o { filter = item_filter i item })).1 in
    ground (arith, set_items-kept (i + 1) items o')

-- What a command leaves: either the controller runs, or it is reset, with an error.
abbrev pub Leaves : Status × Obj → Type 0
Leaves r = IsRunning r.1 ⊎ ((r.0 ≡ error) × (r.1.inited ≡ none))

module _ (hal_init : Base → Init → Bool) where
  config-IsConfigured :
      (o : Obj) → o.base ≢ other → is_baud o.baud_rate ≡ true → IsConfigured (config hal_init o).1
  unfolding config filter_config
  config-IsConfigured o b k = ground arith

  -- The mode, the rate and the privilege are not touched.
  config-kept :
      (o : Obj)
      → let o' = (config hal_init o).1 in
        (o'.mode ≡ o.mode) × (o'.baud_rate ≡ o.baud_rate) × (o'.privmode ≡ o.privmode)
  unfolding config filter_config
  config-kept o = ground arith

  config_at : (b : Base) (o : Obj) → o.base ≡ b → b ≢ other → Leaves (config hal_init o)
  unfolding config filter_config
  config_at can1 o e n =
      let set = init_of o.mode o.baud_rate in
      rw e (elim (Bool-cases (hal_init can1 set)) [
        | inl good ↦ rw good (inl refl)
        | inr bad ↦ rw bad (inr (refl, refl))
      ])
  config_at can2 o e n =
      let set = init_of o.mode o.baud_rate in
      rw e (elim (Bool-cases (hal_init can2 set)) [
        | inl good ↦ rw good (inl refl)
        | inr bad ↦ rw bad (inr (refl, refl))
      ])
  config_at other o e n = absurd (n refl)

  config-Leaves : (o : Obj) → o.base ≢ other → Leaves (config hal_init o)
  config-Leaves o n = config_at o.base o refl n

  control-kept : (c : Cmd) (o : Obj) → IsConfigured o → IsConfigured (control hal_init c o).1
  unfolding control filter_config
  control-kept (set_filter none) o h = ground (arith, h.current)
  control-kept (set_filter (some items)) o h =
      let (base, baud, mode, init, inited) = set_items-kept 0 items o in ground (arith, h.current)
  control-kept (set_mode m) o h = elim (Bool-cases (is_mode m)) [
    | inr bad ↦ rw bad h
    | inl good ↦ elim (Bool-cases (m == o.mode)) [
      | inl same ↦ rw (good, same) h
      | inr new ↦ rw (good, new) (config-IsConfigured (record o { mode = m }) h.chip h.known)
    ]
  ]
  control-kept (set_baud b) o h = elim (Bool-cases (is_baud b)) [
    | inr bad ↦ rw bad h
    | inl good ↦ elim (Bool-cases (b == o.baud_rate)) [
      | inl same ↦ rw (good, same) h
      | inr new ↦ rw (good, new) (config-IsConfigured (record o { baud_rate = b }) h.chip good)
    ]
  ]
  control-kept (set_priv p) o h = elim (Bool-cases ((p == 0) || (p == 1))) [
    | inr bad ↦ rw bad h
    | inl good ↦ elim (Bool-cases (p == o.privmode)) [
      | inl same ↦ rw (good, same) h
      | inr new ↦ rw (good, new) (config-IsConfigured (record o { privmode = p }) h.chip h.known)
    ]
  ]
  control-kept (get_status e) o h = record { chip = h.chip; known = h.known; current = h.current }

  -- Where the settings of a command fail, the same command again does nothing and succeeds.
  abbrev pub Left : Cmd → Status × Obj → Type 0
  Left c r =
      IsRunning r.1 ⊎ ((r.0 ≡ error) × (r.1.inited ≡ none) × (control hal_init c r.1 ≡ (ok, r.1)))

  control-Left : (c : Cmd) (o : Obj) → IsConfigured o → IsRunning o → Left c (control hal_init c o)
  unfolding control filter_config
  control-Left (set_filter none) o h run =
      let left : IsRunning (filter_config o).1 = ground (arith, run) in inl left
  control-Left (set_filter (some items)) o h run =
      let (base, baud, mode, init, inited) = set_items-kept 0 items o in
      inl (inited ∙ run ∙ ap (λ (i : Init). some i) (sym init))
  control-Left (set_mode m) o h run = elim (Bool-cases (is_mode m)) [
    | inr bad ↦ rw bad (inl run)
    | inl good ↦ elim (Bool-cases (m == o.mode)) [
      | inl same ↦ rw (good, same) (inl run)
      | inr new ↦
          let next = record o { mode = m } in
          let o' = (config hal_init next).1 in
          let kept = config-kept next in
          let again : (m == o'.mode) ≡ true = ground (arith, kept) in
          rw (good, new)
            (elim (config-Leaves next h.chip) [
              | inl running ↦ inl running
              | inr (failed, reset) ↦ inr (failed, reset, rw again refl)
            ])
    ]
  ]
  control-Left (set_baud b) o h run = elim (Bool-cases (is_baud b)) [
    | inr bad ↦ rw bad (inl run)
    | inl good ↦ elim (Bool-cases (b == o.baud_rate)) [
      | inl same ↦ rw (good, same) (inl run)
      | inr new ↦
          let next = record o { baud_rate = b } in
          let o' = (config hal_init next).1 in
          let kept = config-kept next in
          let again : (b == o'.baud_rate) ≡ true = ground (arith, kept) in
          rw (good, new)
            (elim (config-Leaves next h.chip) [
              | inl running ↦ inl running
              | inr (failed, reset) ↦ inr (failed, reset, rw again refl)
            ])
    ]
  ]
  control-Left (set_priv p) o h run = elim (Bool-cases ((p == 0) || (p == 1))) [
    | inr bad ↦ rw bad (inl run)
    | inl good ↦ elim (Bool-cases (p == o.privmode)) [
      | inl same ↦ rw (good, same) (inl run)
      | inr new ↦
          let next = record o { privmode = p } in
          let o' = (config hal_init next).1 in
          let kept = config-kept next in
          let again : (p == o'.privmode) ≡ true = ground (arith, kept) in
          rw (good, new)
            (elim (config-Leaves next h.chip) [
              | inl running ↦ inl running
              | inr (failed, reset) ↦ inr (failed, reset, rw again refl)
            ])
    ]
  ]
  control-Left (get_status e) o h run = inl run

  -- For a device of CAN1 or CAN2 that records a rate of the table and the settings of its mode
  -- and rate, and a controller whose last CAN_Init succeeded with these settings: after every
  -- command of _can_control, those for the interrupts aside, the settings that the driver records
  -- are again those of the mode and the rate that it records, the rate one of the table, and over
  -- their time quanta a clock of 72 MHz gives that rate exactly. Either the last CAN_Init
  -- succeeded with them, or the command answers -RT_ERROR and no CAN_Init has succeeded since
  -- CAN_DeInit; then the same command, given again, answers RT_EOK and changes nothing.
  pub control-IsConfigured :
      (c : Cmd) (o : Obj)
      → IsConfigured o
      → IsRunning o
      → let r = control hal_init c o in
        IsConfigured r.1
        × HasBitRate r.1.can_init r.1.baud_rate
        × (IsRunning r.1
            ⊎ ((r.0 ≡ error) × (r.1.inited ≡ none) × (control hal_init c r.1 ≡ (ok, r.1))))
  control-IsConfigured c o h run =
      let kept = control-kept c o h in
      (kept, IsConfigured-bit_rate (control hal_init c o).1 kept, control-Left c o h run)

-- For an identifier in range, the two halves of the identifier that _can_control gives to a
-- filter bank are the identifier field, without its lowest bit, that _can_send_rtmsg writes for a
-- message with that identifier and those two flags.
pub item_filter-tx_id :
    (i : ℕ) (item : Item) (m : Msg) (box : Mailbox)
    → m.id ≡ item.id
    → m.ide ≡ item.ide
    → m.rtr ≡ item.rtr
    → item.ide < 2
    → item.rtr < 2
    → item.id < (if item.ide == 0 then 2 ^ 11 else 2 ^ 29)
    → let f = item_filter i item in
      (fill_mailbox m box).txmir / 2 * 2 ≡ f.id_high * 2 ^ 16 + f.id_low
unfolding fill_mailbox
item_filter-tx_id i item m box a b c d e f = ground arith
