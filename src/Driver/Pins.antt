-- ===== src/Driver/Pins.antt =====
-- The pins of two ports that are joined: com0com/sys/pinouts.c, and `SetModemStatus` of
-- com0com/sys/io.c as far as the status and the events go. A byte of flags is a function from its
-- flags; C0C_MCR_LOOP, which no pin follows, is left out.
pub mod Wiring
pub mod Map
use com0com.Base.{
  ℕ, ◌-◌, leb, Bool, true, false, not, ◌&&◌, ◌||◌, ◌==◌, if◌then◌else◌, Option, none, some,
}

-- C0C_MCR_ flags, and C0C_MSB_ flags.
pub data Out : Type 0 where
  rts dtr out1 out2 open_pin : Out

pub data Msb : Type 0 where
  cts dsr rlsd ring : Msb

pub record PinOuts : Type 0 where
  pub remote_positive : Msb → Bool
  pub remote_negative : Msb → Bool
  pub local_positive : Msb → Bool
  pub local_negative : Msb → Bool

pub record Port : Type 0 where
  pub modem_control : Out → Bool
  pub modem_status : Msb → Bool
  pub pin_outs : Out → PinOuts
  pub wait_mask : Msb → Bool
  pub event_mask : Msb → Bool

-- `pIoPort` and `pIoPort->pIoPortRemote`.
pub record Pair : Type 0 where
  pub local : Port
  pub remote : Port

abbrev pub same : Bool → Bool → Bool
same true b = b
same false b = not b

abbrev pub same_out : Out → Out → Bool
same_out rts rts = true
same_out dtr dtr = true
same_out out1 out1 = true
same_out out2 out2 = true
same_out open_pin open_pin = true
same_out _ _ = false

abbrev pub same_msb : Msb → Msb → Bool
same_msb cts cts = true
same_msb dsr dsr = true
same_msb rlsd rlsd = true
same_msb ring ring = true
same_msb _ _ = false

-- The bits in the mask are taken over.
abbrev pub masked : {A : Type 0} → (A → Bool) → (A → Bool) → (A → Bool) → A → Bool
masked bits mask old a = if mask a then bits a else old a

-- The masks and the bits that the changed pins make, one pin after the other.
abbrev pub any_out : (Out → Bool) → Bool
any_out f = f rts || f dtr || f out1 || f out2 || f open_pin

abbrev pub either : (Msb → Bool) → (Msb → Bool) → Msb → Bool
either f g d = f d || g d

abbrev pub mask_of : (Out → Bool) → (Out → Msb → Bool) → (Out → Msb → Bool) → Msb → Bool
mask_of changed pos neg d = any_out (λ o. changed o && (pos o d || neg o d))

abbrev pub bits_of :
    (Out → Bool) → (Out → Bool) → (Out → Msb → Bool) → (Out → Msb → Bool) → Msb → Bool
bits_of changed new pos neg d = any_out (λ o. changed o && (if new o then pos o d else neg o d))

unfoldable pub set_modem_status : (Msb → Bool) → (Msb → Bool) → Port → Port
set_modem_status bits mask p =
    let new = masked bits mask p.modem_status in
    record p {
      modem_status = new;
      event_mask = λ d. p.event_mask d || (not (same (p.modem_status d) (new d)) && p.wait_mask d);
    }

unfoldable pub set_modem_control : (Out → Bool) → (Out → Bool) → Pair → Pair
unfolding set_modem_status
set_modem_control bits mask s =
    let p = s.local in
    let new = masked bits mask p.modem_control in
    let changed = λ (o : Out). not (same (p.modem_control o) (new o)) in
    let rp = λ (o : Out). (p.pin_outs o).remote_positive in
    let rn = λ (o : Out). (p.pin_outs o).remote_negative in
    let lp = λ (o : Out). (p.pin_outs o).local_positive in
    let ln = λ (o : Out). (p.pin_outs o).local_negative in
    record {
      local =
          set_modem_status (bits_of changed new lp ln) (mask_of changed lp ln)
            (record p { modem_control = new });
      remote = set_modem_status (bits_of changed new rp rn) (mask_of changed rp rn) s.remote;
    }

-- A pin source of com0com.h: C0C_PIN_ON, or a pin of the remote or of the local port.
pub data Source : Type 0 where
  on : Source
  pin : Bool → Out → Source

-- A flag that is put into a mask, for the pin `o` with this sign.
abbrev pub with_flag : Bool → Msb → (Msb → Bool) → Msb → Bool
with_flag here dst f d = f d || (here && same_msb dst d)

abbrev pub with_status : Msb → Bool → Port → Port
with_status dst v p = record p {
  modem_status = λ d. if same_msb dst d then v else p.modem_status d;
}

abbrev tap_remote : Bool → Out → Msb → Port → Port
tap_remote neg o dst p = record p {
  pin_outs = λ o'.
      let r = p.pin_outs o' in
      record r {
        remote_positive = with_flag (same_out o o' && same neg false) dst r.remote_positive;
        remote_negative = with_flag (same_out o o' && same neg true) dst r.remote_negative;
      };
}

abbrev tap_local : Bool → Out → Msb → Port → Port
tap_local neg o dst p = record p {
  pin_outs = λ o'.
      let r = p.pin_outs o' in
      record r {
        local_positive = with_flag (same_out o o' && same neg false) dst r.local_positive;
        local_negative = with_flag (same_out o o' && same neg true) dst r.local_negative;
      };
}

-- The `switch` of PinWire, on a source and whether it is C0C_PIN_NEGATIVE.
unfoldable pub pin_wire : Source → Bool → Msb → Pair → Pair
pin_wire on neg dst s = record s { local = with_status dst (not neg) s.local }
pin_wire (pin true o) neg dst s = record {
  local = with_status dst (not (same neg (s.remote.modem_control o))) s.local;
  remote = tap_remote neg o dst s.remote;
}
pin_wire (pin false o) neg dst s = record s {
  local = with_status dst (not (same neg (s.local.modem_control o))) (tap_local neg o dst s.local);
}

-- The source that a ULONG stands for: C0C_PIN_ON, C0C_PIN_R and C0C_PIN_L.
abbrev source_by : ℕ → Option Source
source_by v =
    if v == 0x10000000
    then some on
    else if v == 0x0001
    then some (pin true rts)
    else if v == 0x0002
    then some (pin true dtr)
    else if v == 0x0004
    then some (pin true out1)
    else if v == 0x0008
    then some (pin true out2)
    else if v == 0x0080
    then some (pin true open_pin)
    else if v == 0x0100
    then some (pin false rts)
    else if v == 0x0200
    then some (pin false dtr)
    else if v == 0x0400
    then some (pin false out1)
    else if v == 0x0800
    then some (pin false out2)
    else if v == 0x8000
    then some (pin false open_pin)
    else none

abbrev with_sign : Bool → Option Source → Option (Source × Bool)
with_sign neg none = none
with_sign neg (some s) = some (s, neg)

-- C0C_PIN_NEGATIVE is the top bit.
unfoldable pub source_of : ℕ → Option (Source × Bool)
source_of v =
    if leb 0x80000000 v
    then with_sign true (source_by (v - 0x80000000))
    else with_sign false (source_by v)

abbrev pub wire_source : Msb → Option (Source × Bool) → Pair → Pair
wire_source dst none s = s
wire_source dst (some r) s = pin_wire r.0 r.1 dst s

abbrev pub none_set : Msb → Bool
none_set d = false

abbrev pub clear_local : Port → Port
clear_local p = record p {
  pin_outs = λ o. record (p.pin_outs o) { local_positive = none_set; local_negative = none_set };
}

abbrev pub clear_remote : Port → Port
clear_remote p = record p {
  pin_outs = λ o. record (p.pin_outs o) { remote_positive = none_set; remote_negative = none_set };
}

-- `PinMap`, on the codes of the sources of the four pins of the status.
unfoldable pub pin_map : (Msb → ℕ) → Pair → Pair
unfolding pin_wire source_of
pin_map codes s =
    let wire = λ (d : Msb) (t : Pair). wire_source d (source_of (codes d)) t in
    wire ring (
      wire rlsd (
        wire dsr
          (wire cts (record { local = clear_local s.local; remote = clear_remote s.remote }))))
