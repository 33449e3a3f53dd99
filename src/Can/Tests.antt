-- ===== src/Can/Tests.antt =====
-- A concrete frame and a concrete controller.
use ch32v303rct6_rtt_mrs.Base.{ℕ, ◌+◌, ◌*◌, ◌^◌, arith, ◌≡◌, refl, Bool, true, [], none}
use ch32v303rct6_rtt_mrs.Can.{
  ok, Base, can1, can2, other, Msg, Mailbox, Fifo, Regs, fill_mailbox, send_rtmsg, recv_rtmsg,
}
use ch32v303rct6_rtt_mrs.Can.Frames.{IsDelivered, received, recv_rtmsg-send_rtmsg}
use ch32v303rct6_rtt_mrs.Can.Control.{Obj, Item, Init, set_baud, init_of, item_filter, control}
use ch32v303rct6_rtt_mrs.Can.Control.Timing.{
  IsRunning, IsConfigured, HasBitRate, control-IsConfigured,
}
use ch32v303rct6_rtt_mrs.Can.Control.{tx_done}
use ch32v303rct6_rtt_mrs.Can.Interrupts.{Reg, tx_handler, rx_isr}
use ch32v303rct6_rtt_mrs.Can.Interrupts.Events.{IsOneClear, of_mailboxes, tx_handler-first}
use ch32v303rct6_rtt_mrs.Can.Interrupts.Fifo.{of_fifo, fifo_calls, rx_isr_lem}
use ch32v303rct6_rtt_mrs.Can.{error}
use ch32v303rct6_rtt_mrs.Base.{some, ◌⊎◌, leb, false, ◌&&◌, ◌||◌, not, ◌==◌, ◌∷◌}

abbrev frame : Msg
frame = record {
  id = 291;
  ide = 0;
  rtr = 0;
  len = 8;
  content = record { d0 = 1; d1 = 2; d2 = 3; d3 = 4; d4 = 5; d5 = 6; d6 = 7; d7 = 255 };
  hdr_index = 0;
}

abbrev empty_box : Mailbox
empty_box = record { txmir = 0; txmdtr = 0; txmdlr = 0; txmdhr = 0 }

abbrev idle_fifo : Fifo
idle_fifo = record { rxmir = 0; rxmdtr = 0; rxmdlr = 0; rxmdhr = 0 }

abbrev idle_regs : Regs
idle_regs = record { tstatr = 7 * 2 ^ 26; mailbox = λ i. empty_box; fifo = λ i. idle_fifo }

-- Filter 3 of the receiver let the frame in.
abbrev full_fifo : Fifo
full_fifo = record {
  rxmir = 291 * 2 ^ 21;
  rxmdtr = 3 * 2 ^ 8 + 8;
  rxmdlr = 67305985;
  rxmdhr = 4278650373;
}

abbrev full_regs : Regs
full_regs = record { tstatr = 7 * 2 ^ 26; mailbox = λ i. empty_box; fifo = λ i. full_fifo }

abbrev pending_one : Regs → ℕ → ℕ
pending_one r k = 1

abbrev released : Regs → ℕ → Regs
released r k = idle_regs

frame_sent : IsDelivered ((send_rtmsg frame 1 idle_regs).1.mailbox 1) (full_regs.fifo 0)
unfolding send_rtmsg fill_mailbox
frame_sent = omega arith

recv_rtmsg-send_rtmsg_example :
    ((send_rtmsg frame 1 idle_regs).0 ≡ ok)
    × (recv_rtmsg pending_one released can2 0 frame full_regs
        ≡ (ok, received can2 frame full_fifo 0, idle_regs))
recv_rtmsg-send_rtmsg_example =
    recv_rtmsg-send_rtmsg pending_one released can2 frame frame 1 0 idle_regs full_regs
      (omega arith) (omega arith) refl frame_sent (omega arith)

abbrev item_one : Item
item_one = record { id = 291; ide = 0; rtr = 0; mode = 0; mask = 2047; hdr_bank = none }

controller : Init → Obj
controller init = record {
  base = can1;
  mode = 0;
  baud_rate = 1000000;
  privmode = 0;
  can_init = init;
  filter = item_filter 0 item_one;
  errors = record {
    rcverrcnt = 0;
    snderrcnt = 0;
    errcode = 0;
    bitpaderrcnt = 0;
    formaterrcnt = 0;
    ackerrcnt = 0;
    biterrcnt = 0;
    crcerrcnt = 0;
    lasterrtype = 0;
  };
  filter_calls = [];
  inited = some init;
}

controller-IsConfigured : IsConfigured (controller (init_of 0 1000000))
unfolding controller
controller-IsConfigured = record { chip = λ (e : can1 ≡ other). cc; known = refl; current = refl }

controller-IsRunning : IsRunning (controller (init_of 0 1000000))
unfolding controller
controller-IsRunning = refl

-- The controller takes the fast rates alone.
abbrev fast_only : Base → Init → Bool
fast_only base i = leb i.prescaler 8

control-IsConfigured_example :
    let r = control fast_only (set_baud 250000) (controller (init_of 0 1000000)) in
    IsConfigured r.1
    × HasBitRate r.1.can_init r.1.baud_rate
    × (IsRunning r.1
        ⊎ ((r.0 ≡ error)
            × (r.1.inited ≡ none)
            × (control fast_only (set_baud 250000) r.1 ≡ (ok, r.1))))
control-IsConfigured_example =
    control-IsConfigured fast_only (set_baud 250000) (controller (init_of 0 1000000))
      controller-IsConfigured controller-IsRunning

-- A register whose every bit is cleared by a 1.
abbrev cleared_by_ones : Reg → Reg → Reg
cleared_by_ones r v x = r x && not (v x)

ones-IsOneClear : (is_status : ℕ → Bool) → IsOneClear is_status cleared_by_ones
ones-IsOneClear is_status = record { clears = λ r v x s. refl }

-- The interrupts are all enabled, and the mailboxes 0 and 1 have sent.
abbrev all_on : Reg
all_on i = true

abbrev two_sent : Reg
two_sent i = (i == 0) || (i == 1) || (i == 8) || (i == 9)

tx_handler-first_example :
    let (calls, r') = tx_handler cleared_by_ones (λ s. s) all_on two_sent in
    (calls ≡ tx_done 0 ∷ []) × (r' 0 ≡ false) × (r' 8 ≡ false) × (r' 16 ≡ false)
tx_handler-first_example =
    tx_handler-first cleared_by_ones (ones-IsOneClear of_mailboxes) (λ s. s) all_on two_sent
      (λ s x e. e) refl

-- A FIFO with messages that is full and has lost one.
abbrev overrun : Reg
overrun i = true

rx_isr_lem_example :
    let (calls, r') = rx_isr cleared_by_ones 1 1 all_on overrun in
    (calls ≡ fifo_calls 1 4 all_on overrun) × (r' 3 ≡ false) × (r' 4 ≡ false)
rx_isr_lem_example =
    rx_isr_lem cleared_by_ones (ones-IsOneClear of_fifo) 0 1 all_on overrun (omega arith)
