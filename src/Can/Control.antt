-- ===== src/Can/Control.antt =====
-- `_can_config` and `_can_control` of libraries/hal_drivers/drv_can.c, and the interrupt of errors.
pub mod Timing
use ch32v303rct6_rtt_mrs.Base.{
  ℕ, zero, suc, ◌+◌, ◌*◌, ◌/◌, ◌%◌, ◌^◌, Bool, true, false, ◌&&◌, ◌||◌, not, List, [], ◌∷◌, ◌++◌,
  ◌==◌, if◌then◌else◌, u32, get_elem?, Option, none, some,
}
use ch32v303rct6_rtt_mrs.Can.{Status, ok, error, invalid, Base, can1, can2, other, bit}

-- A row of `can_baud_rate_tab`; the three times are the register's values, one less than the count
-- of time quanta.
pub record BaudInfo : Type 0 where
  pub baud_rate : ℕ
  pub prescaler : ℕ
  pub tsjw : ℕ
  pub tbs1 : ℕ
  pub tbs2 : ℕ

abbrev pub baud_row : ℕ → ℕ → ℕ → BaudInfo
baud_row baud bs1 prescaler = record {
  baud_rate = baud;
  prescaler = prescaler;
  tsjw = 0;
  tbs1 = bs1;
  tbs2 = 1;
}

abbrev pub baud_1m : BaudInfo
baud_1m = baud_row 1000000 14 4

abbrev pub baud_table : List BaudInfo
baud_table =
    baud_1m
    ∷ baud_row 800000 11 6
    ∷ baud_row 500000 14 8
    ∷ baud_row 250000 14 16
    ∷ baud_row 125000 14 32
    ∷ baud_row 100000 14 40
    ∷ baud_row 50000 14 80
    ∷ baud_row 20000 14 200
    ∷ baud_row 10000 14 400
    ∷ []

-- The row that `get_can_baud_index` finds in the rows left; row 0 where it finds none.
pub find_baud : List BaudInfo → ℕ → BaudInfo
find_baud [] baud = baud_1m
find_baud (row ∷ rows) baud =
    let later = find_baud rows baud in if row.baud_rate == baud then row else later

-- `get_can_mode_rtt2n32`: listen is silent, and the two modes swap their numbers.
pub mode_of : ℕ → ℕ
mode_of mode =
    if mode == 0
    then 0
    else if mode == 1
    then 2
    else if mode == 2
    then 1
    else if mode == 3
    then 3
    else 0

-- `CAN_InitTypeDef` as `_can_config` fills it: of the flags, only NART and TXFP are set.
pub record Init : Type 0 where
  pub mode : ℕ
  pub sjw : ℕ
  pub bs1 : ℕ
  pub bs2 : ℕ
  pub prescaler : ℕ
  pub nart : Bool
  pub txfp : Bool

-- `CAN_FilterInitTypeDef`.
pub record Filter : Type 0 where
  pub number : ℕ
  pub mode : ℕ
  pub scale : ℕ
  pub id_high : ℕ
  pub id_low : ℕ
  pub mask_high : ℕ
  pub mask_low : ℕ
  pub fifo : ℕ
  pub activation : Bool

-- `rt_can_filter_item`; `none` is the bank -1.
pub record Item : Type 0 where
  pub id : ℕ
  pub ide : ℕ
  pub rtr : ℕ
  pub mode : ℕ
  pub mask : ℕ
  pub hdr_bank : Option ℕ

-- The counters of `rt_can_status` that the driver writes.
pub record Errors : Type 0 where
  pub rcverrcnt : ℕ
  pub snderrcnt : ℕ
  pub errcode : ℕ
  pub bitpaderrcnt : ℕ
  pub formaterrcnt : ℕ
  pub ackerrcnt : ℕ
  pub biterrcnt : ℕ
  pub crcerrcnt : ℕ
  pub lasterrtype : ℕ

-- A `ch32v307x_can_obj`, with the calls of the vendor's `CAN_FilterInit` so far, the last one first, and
-- the settings of the last call of its `CAN_Init` that succeeded, `none` after a `CAN_DeInit`.
pub record Obj : Type 0 where
  pub base : Base
  pub mode : ℕ
  pub baud_rate : ℕ
  pub privmode : ℕ
  pub can_init : Init
  pub filter : Filter
  pub errors : Errors
  pub filter_calls : List Filter
  pub inited : Option Init

-- `_can_filter_config`.
pub filter_config : Obj → Status × Obj
filter_config o = elim o.base [
  | other ↦ (invalid, o)
  | can1 ↦ (ok, record o { filter_calls = o.filter ∷ o.filter_calls })
  | can2 ↦ (ok, record o { filter_calls = o.filter ∷ o.filter_calls })
]

abbrev pub init_of : ℕ → ℕ → Init
init_of mode baud =
    let row = find_baud baud_table baud in
    record {
      mode = mode_of mode;
      sjw = row.tsjw;
      bs1 = row.tbs1;
      bs2 = row.tbs2;
      prescaler = row.prescaler;
      nart = true;
      txfp = true;
    }

-- The identifier and mask registers of an item, as the bits of a 32-bit filter.
abbrev pub item_high : Item → ℕ
item_high i = if i.ide == 0 then u32 (i.id * 2 ^ 18) / 2 ^ 13 % 2 ^ 16 else i.id / 2 ^ 13 % 2 ^ 16

abbrev pub item_low : Item → ℕ
item_low i =
    if i.ide == 0
    then (u32 (i.id * 2 ^ 18) + i.ide * 4 + i.rtr * 2) % 2 ^ 16
    else (u32 (i.id * 2 ^ 3) + i.ide * 4 + i.rtr * 2) % 2 ^ 16

abbrev pub item_mask : Item → ℕ
item_mask i = if i.ide == 0 then u32 (i.mask * 2 ^ 21) else u32 (i.mask * 2 ^ 3)

abbrev pub bank_of : Option ℕ → ℕ → ℕ
bank_of none i = i
bank_of (some bank) i = bank

abbrev pub item_filter : ℕ → Item → Filter
item_filter i item = record {
  number = bank_of item.hdr_bank i;
  mode = if item.mode == 0 then 0 else 1;
  scale = 1;
  id_high = item_high item;
  id_low = item_low item;
  mask_high = item_mask item / 2 ^ 16 % 2 ^ 16;
  mask_low = item_mask item % 2 ^ 16;
  fifo = 0;
  activation = true;
}

-- The loop of `RT_CAN_CMD_SET_FILTER` over the items left, from index `i`.
pub set_items : ℕ → List Item → Obj → Obj
unfolding filter_config
set_items i [] o = o
set_items i (item ∷ items) o =
    set_items (i + 1) items (filter_config (record o { filter = item_filter i item })).1

-- The error counters that `ERRSR` holds, as `RT_CAN_CMD_GET_STATUS` and the handler copy them.
abbrev pub copy_errors : ℕ → Errors → Errors
copy_errors errval e = record e {
  rcverrcnt = errval / 2 ^ 24;
  snderrcnt = errval / 2 ^ 16 % 256;
  lasterrtype = errval / 16 % 8 * 16;
  errcode = errval % 8;
}

-- The commands of `_can_control` that concern the object; `set_filter none` is a null argument.
pub data Cmd : Type 0 where
  set_filter : Option (List Item) → Cmd
  set_mode set_baud set_priv get_status : ℕ → Cmd

abbrev pub is_baud : ℕ → Bool
is_baud b =
    (b == 1000000)
    || (b == 800000)
    || (b == 500000)
    || (b == 250000)
    || (b == 125000)
    || (b == 100000)
    || (b == 50000)
    || (b == 20000)
    || (b == 10000)

abbrev pub is_mode : ℕ → Bool
is_mode m = (m == 0) || (m == 1) || (m == 2) || (m == 3)

-- `CAN_Init`, the vendor's, by whether it succeeds.
module _ (hal_init : Base → Init → Bool) where
  -- `_can_config`. The filter's status is not looked at.
  pub config : Obj → Status × Obj
  unfolding find_baud mode_of filter_config
  config o =
      let reset = record o { inited = none } in
      let o' = record reset { can_init = init_of o.mode o.baud_rate } in
      let running = record o' { inited = some o'.can_init } in
      elim o.base [
        | other ↦ (invalid, reset)
        | can1 ↦ if hal_init can1 o'.can_init then (ok, (filter_config running).1) else (error, o')
        | can2 ↦ if hal_init can2 o'.can_init then (ok, (filter_config running).1) else (error, o')
      ]

  -- `_can_control` of those commands; `get_status` is given `ERRSR`.
  pub control : Cmd → Obj → Status × Obj
  unfolding config filter_config set_items
  control (set_filter none) o = (ok, (filter_config o).1)
  control (set_filter (some items)) o = (ok, set_items 0 items o)
  control (set_mode m) o =
      if not (is_mode m)
      then (error, o)
      else if m == o.mode
      then (ok, o)
      else config (record o { mode = m })
  control (set_baud b) o =
      if not (is_baud b)
      then (error, o)
      else if b == o.baud_rate
      then (ok, o)
      else config (record o { baud_rate = b })
  control (set_priv p) o =
      if not ((p == 0) || (p == 1))
      then (error, o)
      else if p == o.privmode
      then (ok, o)
      else config (record o { privmode = p })
  control (get_status errval) o = (ok, record o { errors = copy_errors errval o.errors })

-- The counter that the last error code of `ERRSR` steps, of 32 bits.
abbrev pub count_error : ℕ → Errors → Errors
count_error code e =
    if code == 1
    then record e { bitpaderrcnt = u32 (e.bitpaderrcnt + 1) }
    else if code == 2
    then record e { formaterrcnt = u32 (e.formaterrcnt + 1) }
    else if code == 3
    then record e { ackerrcnt = u32 (e.ackerrcnt + 1) }
    else if (code == 4) || (code == 5)
    then record e { biterrcnt = u32 (e.biterrcnt + 1) }
    else if code == 6
    then record e { crcerrcnt = u32 (e.crcerrcnt + 1) }
    else e

-- The calls of `rt_hw_can_isr`, by the number of the mailbox or the FIFO.
pub data Event : Type 0 where
  tx_done tx_fail rx_ind rx_overrun : ℕ → Event

-- `CAN_TSTATR_TXOK0` to `TXOK2` are the bits 1, 9 and 17.
abbrev pub failed_box : ℕ → List Event
failed_box tstatr =
    if bit tstatr 1
    then tx_fail 0 ∷ []
    else if bit tstatr 9
    then tx_fail 1 ∷ []
    else if bit tstatr 17
    then tx_fail 2 ∷ []
    else []

-- `CAN1_SCE_IRQHandler` and `CAN2_SCE_IRQHandler`, of the registers ERRSR, TSTATR and STATR: the
-- calls, the counters, and what STATR is written with, its bit ERRI set.
pub sce_handler : ℕ → ℕ → ℕ → Errors → List Event × Errors × ℕ
sce_handler errval tstatr statr e =
    let code = errval / 16 % 8 in
    (
      if code == 3 then failed_box tstatr else [],
      copy_errors errval (count_error code e),
      if bit statr 2 then statr else statr + 4,
    )
