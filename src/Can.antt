-- ===== src/Can.antt =====
-- libraries/hal_drivers/drv_can.c: frames to and from the mailboxes of a CAN controller, its
-- filters, its bit timing and the counters of its errors. A register is a number below 2^32; where
-- the source joins fields that share no bit with `|`, the model adds them.
pub mod Control
pub mod Frames
pub mod Interrupts
pub mod Tests
use ch32v303rct6_rtt_mrs.Base.{
  ℕ, ◌+◌, ◌*◌, ◌/◌, ◌%◌, ◌^◌, Bool, true, false, List, [], ◌∷◌, ◌==◌, if◌then◌else◌, u32, get_elem?,
  Option, none, some, ◌≡◌,
}

-- `RT_EOK`, `-RT_ERROR` and `-RT_EINVAL`.
pub data Status : Type 0 where
  ok error invalid : Status

-- Which controller `can_base` is; a third one is no controller of the chip.
pub data Base : Type 0 where
  can1 can2 other : Base

-- `data[8]`.
pub record Payload : Type 0 where
  pub d0 : ℕ
  pub d1 : ℕ
  pub d2 : ℕ
  pub d3 : ℕ
  pub d4 : ℕ
  pub d5 : ℕ
  pub d6 : ℕ
  pub d7 : ℕ

-- What the driver reads and writes of `rt_can_msg`.
pub record Msg : Type 0 where
  pub id : ℕ
  pub ide : ℕ
  pub rtr : ℕ
  pub len : ℕ
  pub content : Payload
  pub hdr_index : ℕ

-- A transmit mailbox: TXMIR, TXMDTR, TXMDLR and TXMDHR.
pub record Mailbox : Type 0 where
  pub txmir : ℕ
  pub txmdtr : ℕ
  pub txmdlr : ℕ
  pub txmdhr : ℕ

-- The head of a receive FIFO: RXMIR, RXMDTR, RXMDLR and RXMDHR.
pub record Fifo : Type 0 where
  pub rxmir : ℕ
  pub rxmdtr : ℕ
  pub rxmdlr : ℕ
  pub rxmdhr : ℕ

pub record Regs : Type 0 where
  pub tstatr : ℕ
  pub mailbox : ℕ → Mailbox
  pub fifo : ℕ → Fifo

abbrev pub bit : ℕ → ℕ → Bool
bit x k = x / 2 ^ k % 2 == 1

-- Four bytes of a frame in one register, and the register of the other four.
abbrev pub low_word : Payload → ℕ
low_word p = p.d3 * 2 ^ 24 + p.d2 * 2 ^ 16 + p.d1 * 2 ^ 8 + p.d0

abbrev pub high_word : Payload → ℕ
high_word p = p.d7 * 2 ^ 24 + p.d6 * 2 ^ 16 + p.d5 * 2 ^ 8 + p.d4

-- `CAN_RTR_Data` and `CAN_RTR_Remote`.
abbrev pub tx_rtr : ℕ → ℕ
tx_rtr rtr = if rtr == 0 then 0 else 2

-- The identifier field that goes into TXMIR beside its lowest bit.
abbrev pub tx_id : Msg → ℕ
tx_id m =
    if m.ide == 0 then u32 (m.id * 2 ^ 21) + tx_rtr m.rtr else u32 (m.id * 2 ^ 3) + 4 + tx_rtr m.rtr

-- The writes of `_can_send_rtmsg` to an empty mailbox, up to the request of the transmission.
pub fill_mailbox : Msg → Mailbox → Mailbox
fill_mailbox m box =
    let kept = box.txmir % 2 + tx_id m in
    record {
      txmir = kept / 2 * 2 + 1;
      txmdtr = box.txmdtr / 16 * 16 + m.len % 16;
      txmdlr = low_word m.content;
      txmdhr = high_word m.content;
    }

abbrev pub put_mailbox : (ℕ → Mailbox) → ℕ → Mailbox → ℕ → Mailbox
put_mailbox boxes k box i = if i == k then box else boxes i

send_to : ℕ → Bool → Msg → Regs → Status × Regs
unfolding fill_mailbox
send_to k false m r = (error, r)
send_to k true m r =
    (ok, record r { mailbox = put_mailbox r.mailbox k (fill_mailbox m (r.mailbox k)) })

-- `_can_send_rtmsg`. An index over 2 is an assertion, and an error where assertions are off.
pub send_rtmsg : Msg → ℕ → Regs → Status × Regs
unfolding send_to
send_rtmsg m k r =
    if k == 0
    then send_to k (bit r.tstatr 26) m r
    else if k == 1
    then send_to k (bit r.tstatr 27) m r
    else if k == 2
    then send_to k (bit r.tstatr 28) m r
    else (error, r)

abbrev pub payload_of : Fifo → Payload
payload_of f = record {
  d0 = f.rxmdlr % 256;
  d1 = f.rxmdlr / 2 ^ 8 % 256;
  d2 = f.rxmdlr / 2 ^ 16 % 256;
  d3 = f.rxmdlr / 2 ^ 24 % 256;
  d4 = f.rxmdhr % 256;
  d5 = f.rxmdhr / 2 ^ 8 % 256;
  d6 = f.rxmdhr / 2 ^ 16 % 256;
  d7 = f.rxmdhr / 2 ^ 24 % 256;
}

abbrev pub hdr_of : Base → ℕ → ℕ → ℕ
hdr_of can1 fmi old = (fmi + 1) / 2
hdr_of can2 fmi old = fmi / 2 + 14
hdr_of other fmi old = old

-- The message that `_can_recv_rtmsg` reads from the head of a FIFO.
pub read_fifo : Base → Fifo → Msg → Msg
read_fifo base f m = record {
  id = if f.rxmir / 4 % 2 == 0 then f.rxmir / 2 ^ 21 % 2 ^ 11 else f.rxmir / 2 ^ 3 % 2 ^ 29;
  ide = if f.rxmir / 4 % 2 == 0 then 0 else 1;
  rtr = if f.rxmir / 2 % 2 == 0 then 0 else 1;
  len = f.rxmdtr % 16;
  content = payload_of f;
  hdr_index = hdr_of base (f.rxmdtr / 2 ^ 8 % 256) m.hdr_index;
}

-- `CAN_MessagePending` and `CAN_FIFORelease` are the vendor's.
module _ (message_pending : Regs → ℕ → ℕ) (fifo_release : Regs → ℕ → Regs) where
  -- `_can_recv_rtmsg`.
  pub recv_rtmsg : Base → ℕ → Msg → Regs → Status × Msg × Regs
  unfolding read_fifo
  recv_rtmsg base k m r =
      if message_pending r k == 0
      then (error, m, r)
      else (ok, read_fifo base (r.fifo k) m, fifo_release r k)
