-- ===== src/Plugins/ComPort.antt =====
-- The COM-PORT option of telnet, RFC 2217: hub4com/plugins/telnet/opt_comport.cpp and opt_comport.h.
-- A method gives the parameters that it hands to SendSubNegotiation and the message that it inserts;
-- `perform` puts them into the streams of the protocol. `goMask` and `soMask`, which the filter
-- owns, are `Masks`. The constants of winbase.h are the parameter `Winbase`.
pub mod Client
pub mod Server
pub mod BaudRate
pub mod LineControl
pub mod Malformed
pub mod Suspension
use com0com.Base.{
  ℕ, ◌+◌, ◌-◌, ◌*◌, ◌/◌, ◌%◌, ◌^◌, Bool, true, false, List, [], ◌∷◌, ◌==◌, if◌then◌else◌, Option,
  some, none,
}
use com0com.Hub.Word.{byte}
use com0com.Hub.Msg
use com0com.Hub.Msg.{Msg, new}
use com0com.Hub.Chain.{Chain, insert, insert_buf}
use com0com.Plugins.Telnet.{Protocol, send_sub_negotiation}

pub record Winbase : Type 0 where
  pub no_parity : ℕ
  pub odd_parity : ℕ
  pub even_parity : ℕ
  pub mark_parity : ℕ
  pub space_parity : ℕ
  pub one_stop_bit : ℕ
  pub one5_stop_bits : ℕ
  pub two_stop_bits : ℕ

abbrev pub cpc_signature : ℕ
cpc_signature = 0

abbrev pub cpc_set_baud_rate : ℕ
cpc_set_baud_rate = 1

abbrev pub cpc_set_data_size : ℕ
cpc_set_data_size = 2

abbrev pub cpc_set_parity : ℕ
cpc_set_parity = 3

abbrev pub cpc_set_stop_size : ℕ
cpc_set_stop_size = 4

abbrev pub cpc_set_control : ℕ
cpc_set_control = 5

abbrev pub cpc_notify_line_state : ℕ
cpc_notify_line_state = 6

abbrev pub cpc_notify_modem_state : ℕ
cpc_notify_modem_state = 7

abbrev pub cpc_flow_control_suspend : ℕ
cpc_flow_control_suspend = 8

abbrev pub cpc_flow_control_resume : ℕ
cpc_flow_control_resume = 9

abbrev pub cpc_set_line_state_mask : ℕ
cpc_set_line_state_mask = 10

abbrev pub cpc_set_modem_state_mask : ℕ
cpc_set_modem_state_mask = 11

abbrev pub cpc_purge_data : ℕ
cpc_purge_data = 12

abbrev pub cpc_server_base : ℕ
cpc_server_base = 100

-- The values of SET-CONTROL that are used here, and those of PURGE-DATA.
abbrev pub sc_set_break_on : ℕ
sc_set_break_on = 5

abbrev pub sc_set_break_off : ℕ
sc_set_break_off = 6

abbrev pub sc_set_dtr_on : ℕ
sc_set_dtr_on = 8

abbrev pub sc_set_dtr_off : ℕ
sc_set_dtr_off = 9

abbrev pub sc_set_rts_on : ℕ
sc_set_rts_on = 11

abbrev pub sc_set_rts_off : ℕ
sc_set_rts_off = 12

abbrev pub pd_tx_buf : ℕ
pd_tx_buf = 2

abbrev pub lbr_status : ℕ
lbr_status = 0x2040012

abbrev pub llc_status : ℕ
llc_status = 0x2050013

abbrev pub add_xoff_xon_type : ℕ
add_xoff_xon_type = 0x2028015

abbrev pub go0_lbr_status : ℕ
go0_lbr_status = 2

abbrev pub go0_llc_status : ℕ
go0_llc_status = 4

abbrev pub pin_state_dtr : ℕ
pin_state_dtr = 1

abbrev pub pin_state_rts : ℕ
pin_state_rts = 2

abbrev pub modem_status_cts : ℕ
modem_status_cts = 0x10

abbrev pub modem_status_dsr : ℕ
modem_status_dsr = 0x20

pub record Masks : Type 0 where
  pub go0 : ℕ
  pub go1 : ℕ
  pub so : ℕ

-- `TelnetOptionComPort`; the class of the client adds nothing to it. `count_xoff` is an int, here as
-- the DWORD with its bits.
pub record ComPort : Type 0 where
  pub is_client : Bool
  pub count_xoff : ℕ
  pub suspended : Bool

abbrev pub new_com_port : Bool → ComPort
new_com_port c = record { is_client = c; count_xoff = 0; suspended = false }

-- What a method of an option with the state `S` does.
pub record Answer (S : Type 0) : Type 0 where
  pub state : S
  pub sent : List (List ℕ)
  pub inserted : Option Msg
  pub ok : Bool

abbrev pub val_msg : ℕ → ℕ → Msg
val_msg t v = record new { type = t; val = v }

unfoldable pub send_each : List (List ℕ) → Protocol → Protocol
send_each [] p = p
send_each (ps ∷ pss) p = send_each pss (send_sub_negotiation 44 ps p)

-- `FlushDecodedStream` behind a message.
unfoldable pub flush_decoded_stream : Protocol → Chain → Protocol × Chain
flush_decoded_stream p c = elim p.stream_decoded [
  | [] ↦ (p, c)
  | b ∷ bs ↦ (record p { stream_decoded = [] }, insert_buf Msg.line_data (b ∷ bs) c)
]

-- The effects of a method: each insertion follows a FlushDecodedStream.
unfoldable pub perform : {S : Type 0} → Answer S → Protocol → Chain → Protocol × Chain
perform a p c =
    let q = send_each a.sent p in
    elim a.inserted [
      | none ↦ (q, c)
      | some m ↦ let r = flush_decoded_stream q c in (r.0, insert m r.1)
    ]

-- The code of a message of this side.
abbrev side_code : Bool → ℕ → ℕ
side_code c code = if c then code else code + cpc_server_base

unfoldable pub add_xoff_xon : Bool → ComPort → ComPort × List (List ℕ)
add_xoff_xon true p = (
  record p { count_xoff = (p.count_xoff + 1) % 2 ^ 32 },
  if p.count_xoff == 0 then (side_code p.is_client cpc_flow_control_suspend ∷ []) ∷ [] else [],
)
add_xoff_xon false p =
    let count = (p.count_xoff + (2 ^ 32 - 1)) % 2 ^ 32 in
    (
      record p { count_xoff = count },
      if count == 0 then (side_code p.is_client cpc_flow_control_resume ∷ []) ∷ [] else [],
    )

abbrev bool_val : Bool → ℕ
bool_val true = 1
bool_val false = 0

abbrev same : Bool → Bool → Bool
same true b = b
same false b = elim b [ true ↦ false | false ↦ true ]

unfoldable pub on_suspend_resume : Bool → ComPort → ComPort × Option Msg
on_suspend_resume suspend p =
    if same p.suspended suspend
    then (p, none)
    else (record p { suspended = suspend }, some (val_msg add_xoff_xon_type (bool_val suspend)))

-- The parameters of SET-BAUDRATE, and the rate in them.
abbrev pub br_params : ℕ → ℕ → List ℕ
br_params code br = code ∷ byte (br / 2 ^ 24) ∷ byte (br / 2 ^ 16) ∷ byte (br / 256) ∷ byte br ∷ []

abbrev pub par_br : ℕ → ℕ → ℕ → ℕ → ℕ
par_br a b c d = a * 2 ^ 24 + b * 2 ^ 16 + c * 256 + d

-- p2v_dataSize and v2p_dataSize are the identity.
module _ (w : Winbase) where
  unfoldable pub p2v_parity : ℕ → ℕ
  p2v_parity par =
      if par == 2
      then w.odd_parity
      else if par == 3
      then w.even_parity
      else if par == 4
      then w.mark_parity
      else if par == 5
      then w.space_parity
      else w.no_parity

  unfoldable pub v2p_parity : ℕ → ℕ
  v2p_parity val =
      if val == w.no_parity
      then 1
      else if val == w.odd_parity
      then 2
      else if val == w.even_parity
      then 3
      else if val == w.mark_parity
      then 4
      else if val == w.space_parity
      then 5
      else 1

  unfoldable pub p2v_stop_size : ℕ → ℕ
  p2v_stop_size par =
      if par == 2 then w.two_stop_bits else if par == 3 then w.one5_stop_bits else w.one_stop_bit

  unfoldable pub v2p_stop_size : ℕ → ℕ
  v2p_stop_size val =
      if val == w.one_stop_bit
      then 1
      else if val == w.two_stop_bits
      then 2
      else if val == w.one5_stop_bits
      then 3
      else 1
