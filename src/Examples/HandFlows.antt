-- ===== src/Examples/HandFlows.antt =====
-- The flow control of the driver: com0com/sys/handflow.c.
use com0com.Base.{List, false, arith, ◌≡◌, true, [], ◌∷◌, some, refl}
use com0com.Driver.HandFlow.{
  off, control, handshake, other, HandFlow, Port, xchar_none, set_hand_flow,
}
use com0com.Driver.HandFlow.Settings.{Outcome, set_hand_flow-Outcome}
use com0com.Driver.HandFlow.Hysteresis.{Call, Side, Told, held_by, calls, calls-Told}
use com0com.Driver.HandFlow.Update.{IdleAfter, set_hand_flow-IdleAfter}

-- RTS handshake and XON/XOFF.
abbrev flow : HandFlow
flow = record {
  rts = handshake;
  dtr = control;
  cts_handshake = true;
  dsr_handshake = false;
  dcd_handshake = false;
  dsr_sensitivity = false;
  error_char = false;
  auto_transmit = true;
  auto_receive = true;
  xoff_continue = false;
  xon_limit = 2;
  xoff_limit = 2;
}

-- A buffer of eight bytes with seven in it.
abbrev filled : Port
filled = record {
  hand_flow = flow;
  busy = 7;
  size = 8;
  escapes = false;
  write_holding = record { cts = false; dsr = false; dcd = false; xon = false; on_break = false };
  remote = record { cts = false; dsr = false; xon = false };
  send_xon_xoff = xchar_none;
  try_write = false;
  pending = true;
  msb_cts = true;
  msb_dsr = true;
  msb_rlsd = true;
}

abbrev waiting : Port
waiting = record filled { remote = record { cts = true; dsr = false; xon = true } }

-- Before anything is held, with both pins high.
abbrev side : Side
side = record { port = filled; rts = true; dtr = true; stopped = false }

-- The buffer fills up, XOFF goes out, and the buffer is read.
abbrev filling : List Call
filling =
    record { freed = false; busy = 7; sent = false }
    ∷ record { freed = true; busy = 3; sent = true }
    ∷ record { freed = true; busy = 2; sent = false }
    ∷ []

side-Told : Told false side
side-Told = record { by_rts = (refl, refl); by_dtr = (refl, refl); by_xoff = (refl, refl) }

filling_freed : held_by flow 8 false filling ≡ false
filling_freed = refl

calls-Told_example : Told (held_by flow 8 false filling) (calls filling side)
calls-Told_example = calls-Told filling side false (omega arith) side-Told

set_hand_flow-Outcome_example :
    Outcome
      (some (record flow { rts = off }))
      waiting
      false
      true
      (set_hand_flow (some (record flow { rts = off })) waiting)
set_hand_flow-Outcome_example =
    set_hand_flow-Outcome (some (record flow { rts = off })) waiting false true refl refl refl refl

-- Everything is read, and then the buffer fills up.
set_hand_flow-IdleAfter_example :
    IdleAfter ((true, 0) ∷ []) 8 (set_hand_flow (some (record flow { rts = other })) waiting)
set_hand_flow-IdleAfter_example = set_hand_flow-IdleAfter flow waiting ((true, 0) ∷ []) 8 refl refl
