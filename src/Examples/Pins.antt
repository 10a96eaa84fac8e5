-- ===== src/Examples/Pins.antt =====
-- The pins of the driver: com0com/sys/pinouts.c.
use com0com.Base.{ℕ, Bool, true, false, ◌∷◌, [], some, ◌≡◌, refl}
use com0com.Driver.Pins.{
  Out, rts, dtr, Msb, cts, dsr, rlsd, ring, Port, Pair, Source, on, pin, source_of, pin_map,
  set_modem_control, none_set,
}
use com0com.Driver.Pins.Wiring.{Shows, Wired, set_modem_control-Wired}
use com0com.Driver.Pins.Map.{pin_map-Wired}
use com0com.Setup.Params.{pin_of, find_pin}
use com0com.Setup.Params.Values.{eq_fold}
use com0com.Setup.Params.Sources.{Sourced, pin_of-Sourced}

-- The defaults of com0com.h: CTS from the remote RTS, DSR and DCD from the remote DTR, RI never.
abbrev codes : Msb → ℕ
codes cts = 0x00000001
codes dsr = 0x00000002
codes rlsd = 0x00000002
codes ring = 0x90000000

abbrev sources : Msb → Source × Bool
sources cts = (pin true rts, false)
sources dsr = (pin true dtr, false)
sources rlsd = (pin true dtr, false)
sources ring = (on, true)

codes-sources : (d : Msb) → source_of (codes d) ≡ some (sources d)
unfolding source_of
codes-sources cts = refl
codes-sources dsr = refl
codes-sources rlsd = refl
codes-sources ring = refl

abbrev all_on : Msb → Source × Bool
all_on d = (on, false)

abbrev blank : Port
blank = record {
  modem_control = λ o. false;
  modem_status = λ d. true;
  pin_outs = λ o. record {
    remote_positive = none_set;
    remote_negative = none_set;
    local_positive = none_set;
    local_negative = none_set;
  };
  wait_mask = none_set;
  event_mask = none_set;
}

abbrev pair : Pair
pair = record { local = blank; remote = blank }

blank-Shows : Shows all_on blank blank
blank-Shows = record {
  status = λ d. refl;
  near_positive = λ o d. refl;
  near_negative = λ o d. refl;
  far_positive = λ o d. refl;
  far_negative = λ o d. refl;
}

pin_map-Wired_example : Wired sources all_on (pin_map codes pair)
pin_map-Wired_example = pin_map-Wired codes sources all_on pair codes-sources blank-Shows

-- The same state, for the next witness.
mapped-Wired : Wired sources all_on (pin_map codes pair)
mapped-Wired = pin_map-Wired codes sources all_on pair codes-sources blank-Shows

-- RTS and DTR are raised.
abbrev raised : Out → Bool
raised rts = true
raised dtr = true
raised _ = false

set_modem_control-Wired_example :
    Wired sources all_on (set_modem_control raised raised (pin_map codes pair))
set_modem_control-Wired_example =
    set_modem_control-Wired sources all_on raised raised (pin_map codes pair) mapped-Wired

-- `!lRTS`.
negative_read : pin_of eq_fold (33 ∷ 108 ∷ 82 ∷ 84 ∷ 83 ∷ []) ≡ some 0x80000100
unfolding pin_of find_pin
negative_read = refl

pin_of-Sourced_example : Sourced 0x80000100
pin_of-Sourced_example =
    pin_of-Sourced eq_fold (33 ∷ 108 ∷ 82 ∷ 84 ∷ 83 ∷ []) 0x80000100 negative_read
