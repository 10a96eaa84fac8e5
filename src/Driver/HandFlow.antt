-- ===== src/Driver/HandFlow.antt =====
-- The flow control of com0com/sys/handflow.c. A word of SERIAL_ flags is the record of the flags that
-- are used, and a field of two bits has its four values. `writeHoldingRemote` has just the three flags
-- that are ever set in it. SetHandFlow is modelled as far as its call of SetModemControl, which
-- gets the pins in `Lines`.
pub mod Hysteresis
pub mod Remote
pub mod Settings
pub mod Update
use com0com.Base.{
  ℕ, ◌-◌, Bool, true, false, not, ◌&&◌, ◌||◌, ltb, leb, if◌then◌else◌, Option, none, some,
}

-- SERIAL_RTS_MASK and SERIAL_DTR_MASK; `other` is SERIAL_TRANSMIT_TOGGLE or the unused value.
pub data Line : Type 0 where
  off control handshake other : Line

-- SERIAL_HANDFLOW.
pub record HandFlow : Type 0 where
  pub rts : Line
  pub dtr : Line
  pub cts_handshake : Bool
  pub dsr_handshake : Bool
  pub dcd_handshake : Bool
  pub dsr_sensitivity : Bool
  pub error_char : Bool
  pub auto_transmit : Bool
  pub auto_receive : Bool
  pub xoff_continue : Bool
  pub xon_limit : ℕ
  pub xoff_limit : ℕ

-- The SERIAL_TX_WAITING_ flags of `writeHolding` and of `writeHoldingRemote`.
pub record Holding : Type 0 where
  pub cts : Bool
  pub dsr : Bool
  pub dcd : Bool
  pub xon : Bool
  pub on_break : Bool

pub record HoldingRemote : Type 0 where
  pub cts : Bool
  pub dsr : Bool
  pub xon : Bool

-- `sendXonXoff`: nothing, C0C_XCHAR_ON or C0C_XCHAR_OFF.
pub data Xchar : Type 0 where
  xchar_none xchar_on xchar_off : Xchar

-- `busy` and `size` are those of `readBuf`, `pending` is whether a write request is current, and
-- `msb_` are the flags of `modemStatus`.
pub record Port : Type 0 where
  pub hand_flow : HandFlow
  pub busy : ℕ
  pub size : ℕ
  pub escapes : Bool
  pub write_holding : Holding
  pub remote : HoldingRemote
  pub send_xon_xoff : Xchar
  pub try_write : Bool
  pub pending : Bool
  pub msb_cts : Bool
  pub msb_dsr : Bool
  pub msb_rlsd : Bool

-- The pins in the mask of SetModemControl, with their bits.
pub record Lines : Type 0 where
  pub rts : Option Bool
  pub dtr : Option Bool

abbrev pub full : HandFlow → Port → Bool
full f p = ltb (p.size - f.xoff_limit) p.busy

abbrev pub drained : HandFlow → Port → Bool
drained f p = leb p.busy f.xon_limit

abbrev pub any : HoldingRemote → Bool
any h = h.cts || h.dsr || h.xon

abbrev pub is_handshake : Line → Bool
is_handshake handshake = true
is_handshake _ = false

abbrev pub same_line : Line → Line → Bool
same_line off off = true
same_line control control = true
same_line handshake handshake = true
same_line other other = true
same_line _ _ = false

abbrev pub same : Bool → Bool → Bool
same true b = b
same false b = not b

-- Nothing waits, but for XON.
abbrev no_signal : Holding → Bool
no_signal h = not (h.cts || h.dsr || h.dcd || h.on_break)

abbrev is_xchar : Xchar → Bool
is_xchar xchar_none = false
is_xchar _ = true

unfoldable pub set_modem_status_holding : Port → Port
set_modem_status_holding p =
    let f = p.hand_flow in
    let h = record (p.write_holding) {
      cts = f.cts_handshake && not p.msb_cts;
      dsr = f.dsr_handshake && not p.msb_dsr;
      dcd = f.dcd_handshake && not p.msb_rlsd;
    } in
    let free = no_signal h && not (no_signal p.write_holding) in
    let wanted = is_xchar p.send_xon_xoff || (not h.xon && p.pending) in
    record p { write_holding = h; try_write = p.try_write || (free && wanted) }

-- `SetXonXoffHolding` for C0C_XCHAR_ON and for C0C_XCHAR_OFF.
unfoldable pub set_xon_holding : Port → Port
set_xon_holding p =
    let h = record (p.write_holding) { xon = false } in
    if p.write_holding.xon
    then record p { write_holding = h; try_write = p.try_write || (no_signal h && p.pending) }
    else p

unfoldable pub set_xoff_holding : Port → Port
set_xoff_holding p = record p { write_holding = record (p.write_holding) { xon = true } }

-- The `switch` of SetHandFlow on a pin: the flag that waits for it, and what the pin becomes.
unfoldable pub switch : Line → Bool → Bool → Bool → Bool × Option Bool
switch off waits f d = (false, some false)
switch control waits f d = (false, some true)
switch handshake waits f d =
    if f
    then (true, some false)
    else if waits
    then (if d then (false, some true) else (true, none))
    else (false, some true)
switch other waits f d = (waits, none)

abbrev pub switch_if : Bool → Line → Bool → Bool → Bool → Bool × Option Bool
switch_if c l waits f d = if c then switch l waits f d else (waits, none)

-- XOFF is sent, and unless SERIAL_XOFF_CONTINUE is set nothing more.
abbrev send_xoff : HandFlow → Port → Port
send_xoff f p = record p {
  remote = record (p.remote) { xon = true };
  write_holding = record (p.write_holding) { xon = p.write_holding.xon || not f.xoff_continue };
  send_xon_xoff = xchar_off;
  try_write = true;
}

abbrev is_off : Xchar → Bool
is_off xchar_off = true
is_off _ = false

-- XON is sent, or the XOFF that was not sent is cancelled.
abbrev cancel_xoff : Port → Port
cancel_xoff p =
    let unsent = is_off p.send_xon_xoff in
    record p {
      remote = record (p.remote) { xon = false };
      write_holding = record (p.write_holding) { xon = false };
      send_xon_xoff = if unsent then xchar_none else xchar_on;
      try_write = p.try_write || not unsent;
    }

unfoldable pub auto_receive : HandFlow → Port → Port
auto_receive f p =
    if f.auto_receive
    then (if full f p then send_xoff f p else p)
    else if p.remote.xon
    then cancel_xoff p
    else p

abbrev pins : Bool → Bool → HandFlow → Port → (Bool × Option Bool) × (Bool × Option Bool)
pins r d f p = (
  switch_if r f.rts p.remote.cts (full f p) (drained f p),
  switch_if d f.dtr p.remote.dsr (full f p) (drained f p),
)

abbrev pub wired : Bool → Bool → HandFlow → Port → Port
wired r d f p =
    let w = pins r d f p in record p { remote = record (p.remote) { cts = (w.0).0; dsr = (w.1).0 } }

-- The remote side: the two pins, and XON and XOFF.
unfoldable pub set_remote : Bool → Bool → Bool → HandFlow → Port → Port × Lines
unfolding switch auto_receive
set_remote r d a f p =
    let w = pins r d f p in
    let q = wired r d f p in
    (if a then auto_receive f q else q, record { rts = (w.0).1; dtr = (w.1).1 })

abbrev same_out : HandFlow → HandFlow → Bool
same_out f g =
    same f.cts_handshake g.cts_handshake
    && same f.dsr_handshake g.dsr_handshake
    && same f.dcd_handshake g.dcd_handshake
    && same f.dsr_sensitivity g.dsr_sensitivity

abbrev pub invalid : HandFlow → Port → Bool
invalid f p = (p.escapes && f.error_char) || ltb p.size f.xon_limit || ltb p.size f.xoff_limit

-- With no settings, those of the port are set up anew.
unfoldable pub renew_hand_flow : Port → Port × Lines
unfolding set_remote set_modem_status_holding
renew_hand_flow p =
    let q = record p { write_holding = record (p.write_holding) { xon = false } } in
    let r = set_remote true true true p.hand_flow q in (set_modem_status_holding r.0, r.1)

unfoldable pub change_hand_flow : HandFlow → Port → Port × Lines
unfolding set_remote set_modem_status_holding set_xon_holding
change_hand_flow f p =
    let g = p.hand_flow in
    let q = if g.auto_transmit && not f.auto_transmit then set_xon_holding p else p in
    let r =
      set_remote (not (same_line g.rts f.rts)) (not (same_line g.dtr f.dtr))
        (not (same g.auto_receive f.auto_receive)) f q in
    let s = record (r.0) { hand_flow = f } in
    (if same_out g f then s else set_modem_status_holding s, r.1)

-- `SetHandFlow`; `none` for STATUS_INVALID_PARAMETER.
unfoldable pub set_hand_flow : Option HandFlow → Port → Option (Port × Lines)
set_hand_flow none p = some (renew_hand_flow p)
set_hand_flow (some f) p = if invalid f p then none else some (change_hand_flow f p)

abbrev pub no_lines : Lines
no_lines = record { rts = none; dtr = none }

-- The remote side is held, or let go, on every way that is set up.
abbrev pub hold : Port → Port × Lines
hold p =
    let f = p.hand_flow in
    let r = is_handshake f.rts in
    let d = is_handshake f.dtr in
    (
      record p {
        remote = record {
          cts = p.remote.cts || r;
          dsr = p.remote.dsr || d;
          xon = p.remote.xon || f.auto_receive;
        };
        write_holding = record (p.write_holding) {
          xon = p.write_holding.xon || (f.auto_receive && not f.xoff_continue);
        };
        send_xon_xoff = if f.auto_receive then xchar_off else p.send_xon_xoff;
        try_write = p.try_write || f.auto_receive;
      },
      record { rts = if r then some false else none; dtr = if d then some false else none },
    )

abbrev pub release : Port → Port × Lines
release p =
    let f = p.hand_flow in
    let r = is_handshake f.rts in
    let d = is_handshake f.dtr in
    (
      record p {
        remote = record {
          cts = p.remote.cts && not r;
          dsr = p.remote.dsr && not d;
          xon = p.remote.xon && not f.auto_receive;
        };
        write_holding = record (p.write_holding) {
          xon = p.write_holding.xon && not f.auto_receive;
        };
        send_xon_xoff = if f.auto_receive then xchar_on else p.send_xon_xoff;
        try_write = p.try_write || f.auto_receive;
      },
      record { rts = if r then some true else none; dtr = if d then some true else none },
    )

unfoldable pub update_hand_flow : Bool → Port → Port × Lines
update_hand_flow freed p =
    if any p.remote
    then (if freed && drained p.hand_flow p then release p else (p, no_lines))
    else if not freed && full p.hand_flow p
    then hold p
    else (p, no_lines)
