-- ===== src/Plugins/Telnet.antt =====
-- hub4com/plugins/telnet/telnet.cpp and telnet.h, with the terminal type option of opt_termtype.cpp.
-- What is printed is left out. `options` has BYTE(-1) = 255 entries, so index 255 lies behind it: a
-- read there, which C leaves undefined, is `none`. A TELNET command that no enumerator names keeps
-- its number.
pub mod Code
pub mod Transfer
pub mod Negotiation
pub mod Bounds
use com0com.Base.{
  ℕ, ◌+◌, Bool, true, false, not, ◌&&◌, ◌||◌, List, [], ◌∷◌, ◌++◌, ◌==◌, if◌then◌else◌, Option,
  none, some, get_elem?, set, replicate,
}
use com0com.Hub.Msg
use com0com.Hub.Msg.{Msg}
use com0com.Hub.Chain.{Chain, start, replace_buf, insert_buf, new_buf}
use Code.{cd_se, cd_nop, cd_sb, cd_will, cd_wont, cd_do, cd_dont, cd_iac}

pub data OptionState : Type 0 where
  os_cant os_no os_yes : OptionState

-- The class of an option: only the terminal type answers a sub-negotiation here.
pub data Kind : Type 0 where
  plain : Kind
  terminal_type : List ℕ → Kind

pub record TelnetOption : Type 0 where
  pub kind : Kind
  pub state_local : OptionState
  pub state_remote : OptionState

pub data Phase : Type 0 where
  st_data st_code st_option st_sub_params st_sub_code : Phase

pub record Protocol : Type 0 where
  pub state : Phase
  pub code : ℕ
  pub option : ℕ
  pub params : List ℕ
  pub options : List (Option TelnetOption)
  pub ascii_cr_padding : List ℕ
  pub stream_encoded : List ℕ
  pub stream_decoded : List ℕ

-- The constructor; `code` and `option` are not set there, and are read only after a write.
abbrev pub new_protocol : Protocol
new_protocol = record {
  state = st_data;
  code = 0;
  option = 0;
  params = [];
  options = replicate 255 none;
  ascii_cr_padding = [];
  stream_encoded = [];
  stream_decoded = [];
}

abbrev pub encoded : List ℕ → Protocol → Protocol
encoded bs p = record p { stream_encoded = p.stream_encoded ++ bs }

abbrev pub to_phase : Phase → Protocol → Protocol
to_phase s p = record p { state = s }

unfoldable pub send_option : ℕ → ℕ → Protocol → Protocol
send_option code option p = encoded (cd_iac ∷ code ∷ option ∷ []) p

-- The bytes of a sub-negotiation, IAC doubled.
unfoldable pub escape_params : List ℕ → List ℕ
escape_params [] = []
escape_params (b ∷ bs) =
    let rest = escape_params bs in if b == cd_iac then b ∷ b ∷ rest else b ∷ rest

unfoldable pub send_sub_negotiation : ℕ → List ℕ → Protocol → Protocol
unfolding send_option escape_params
send_sub_negotiation option params p =
    encoded (escape_params params ++ cd_iac ∷ cd_se ∷ []) (send_option cd_sb option p)

abbrev send_if_yes : OptionState → ℕ → ℕ → Protocol → Protocol
send_if_yes os_yes code option p = send_option code option p
send_if_yes _ code option p = p

-- `TelnetProtocol::Start`: `TelnetOption::Start` of the entries from index `i` on.
unfoldable pub start_from : ℕ → List (Option TelnetOption) → Protocol → Protocol
unfolding send_option
start_from i [] p = p
start_from i (none ∷ os) p = start_from (i + 1) os p
start_from i (some o ∷ os) p =
    start_from (i + 1) os
      (send_if_yes o.state_remote cd_do i (send_if_yes o.state_local cd_will i p))

-- `TelnetProtocol::KeepActive`.
unfoldable pub keep_active : Protocol → Protocol
keep_active p = encoded (cd_iac ∷ cd_nop ∷ []) p

abbrev pub set_options : ℕ → TelnetOption → Protocol → Protocol
set_options ch o p = record p { options = set p.options ch (some o) }

-- IAC WILL ch, on the entry `options[ch]`.
unfoldable pub on_will : ℕ → Option TelnetOption → Protocol → Protocol
unfolding send_option
on_will ch none p = send_option cd_dont ch p
on_will ch (some o) p = elim o.state_remote [
  | os_cant ↦ send_option cd_dont ch p
  | os_no ↦ send_option cd_do ch (set_options ch (record o { state_remote = os_yes }) p)
  | os_yes ↦ p
]

unfoldable pub on_wont : ℕ → Option TelnetOption → Protocol → Protocol
unfolding send_option
on_wont ch none p = p
on_wont ch (some o) p = elim o.state_remote [
  | os_yes ↦ send_option cd_dont ch (set_options ch (record o { state_remote = os_no }) p)
  | _ ↦ p
]

unfoldable pub on_do : ℕ → Option TelnetOption → Protocol → Protocol
unfolding send_option
on_do ch none p = send_option cd_wont ch p
on_do ch (some o) p = elim o.state_local [
  | os_cant ↦ send_option cd_wont ch p
  | os_no ↦ send_option cd_will ch (set_options ch (record o { state_local = os_yes }) p)
  | os_yes ↦ p
]

unfoldable pub on_dont : ℕ → Option TelnetOption → Protocol → Protocol
unfolding send_option
on_dont ch none p = p
on_dont ch (some o) p = elim o.state_local [
  | os_yes ↦ send_option cd_wont ch (set_options ch (record o { state_local = os_no }) p)
  | _ ↦ p
]

-- `OnSubNegotiation`: TERMINAL-TYPE SEND (1) is answered by IS (0) and the name.
unfoldable pub on_sub_negotiation : Kind → ℕ → List ℕ → Protocol → Protocol
unfolding send_sub_negotiation
on_sub_negotiation plain option params p = p
on_sub_negotiation (terminal_type name) option [] p = p
on_sub_negotiation (terminal_type name) option (b ∷ bs) p =
    if b == 1 then send_sub_negotiation option (0 ∷ name) p else p

-- `case stData`.
unfoldable pub in_data : ℕ → Protocol → Protocol
in_data ch p =
    if ch == cd_iac
    then to_phase st_code p
    else record p { stream_decoded = p.stream_decoded ++ ch ∷ [] }

-- `case stCode`.
unfoldable pub in_code : ℕ → Protocol → Protocol
in_code ch p =
    if ch == cd_iac
    then record p { stream_decoded = p.stream_decoded ++ ch ∷ []; state = st_data }
    else if ch == cd_nop
    then to_phase st_data p
    else if ch == cd_sb || ch == cd_will || ch == cd_wont || ch == cd_do || ch == cd_dont
    then record p { code = ch; state = st_option }
    else to_phase st_data p

abbrev pub with_option :
    ℕ → (Option TelnetOption → Protocol → Protocol) → Protocol → Option Protocol
with_option i f p = elim (get_elem? p.options i) [
  | none ↦ none
  | some e ↦ some (to_phase st_data (f e p))
]

-- `case stOption`.
unfoldable pub in_option : ℕ → Protocol → Option Protocol
unfolding on_will on_wont on_do on_dont
in_option ch p =
    if p.code == cd_sb
    then some (record p { option = ch; params = []; state = st_sub_params })
    else if p.code == cd_will
    then with_option ch (on_will ch) p
    else if p.code == cd_wont
    then with_option ch (on_wont ch) p
    else if p.code == cd_do
    then with_option ch (on_do ch) p
    else if p.code == cd_dont
    then with_option ch (on_dont ch) p
    else some (to_phase st_data p)

-- `case stSubParams`.
unfoldable pub in_sub_params : ℕ → Protocol → Protocol
in_sub_params ch p =
    if ch == cd_iac then to_phase st_sub_code p else record p { params = p.params ++ ch ∷ [] }

abbrev pub sub_end : Option TelnetOption → Protocol → Protocol
sub_end none p = p
sub_end (some o) p = on_sub_negotiation o.kind p.option p.params p

-- `case stSubCode`.
unfoldable pub in_sub_code : ℕ → Protocol → Option Protocol
unfolding on_sub_negotiation
in_sub_code ch p =
    if ch == cd_iac
    then some (record p { params = p.params ++ ch ∷ []; state = st_sub_params })
    else if ch == cd_se
    then with_option p.option sub_end p
    else some (to_phase st_data p)

unfoldable pub decode_in : Phase → ℕ → Protocol → Option Protocol
unfolding in_data in_code in_option in_sub_params in_sub_code
decode_in st_data ch p = some (in_data ch p)
decode_in st_code ch p = some (in_code ch p)
decode_in st_option ch p = in_option ch p
decode_in st_sub_params ch p = some (in_sub_params ch p)
decode_in st_sub_code ch p = in_sub_code ch p

-- The loop of `Decode`.
unfoldable pub decode_bytes : Protocol → List ℕ → Option Protocol
unfolding decode_in
decode_bytes p [] = some p
decode_bytes p (ch ∷ bs) = elim (decode_in p.state ch p) [
  | none ↦ none
  | some q ↦ decode_bytes q bs
]

-- `Flush` of a stream behind the emptied message.
abbrev flushed : List ℕ → Msg → Chain
flushed [] m = replace_buf Msg.line_data [] (start m)
flushed (b ∷ bs) m = insert_buf Msg.line_data (b ∷ bs) (replace_buf Msg.line_data [] (start m))

unfoldable pub decode : Protocol → Msg → Option (Protocol × Chain)
unfolding decode_bytes replace_buf
decode p m = elim (decode_bytes p m.buf) [
  | none ↦ none
  | some q ↦ some (record q { stream_decoded = [] }, flushed q.stream_decoded m)
]

-- Whether the padding goes behind a CR: there is one, and TRANSMIT-BINARY is not on.
unfoldable pub pads : Protocol → Bool
pads p = elim p.ascii_cr_padding [
  | [] ↦ false
  | b ∷ bs ↦ elim (get_elem? p.options 0) [
    | some (some o) ↦ elim o.state_local [ os_yes ↦ false | _ ↦ true ]
    | _ ↦ true
  ]
]

-- The loop of `Encode`: what it appends to `streamEncoded`.
unfoldable pub encode_bytes : Protocol → List ℕ → List ℕ
unfolding pads
encode_bytes p [] = []
encode_bytes p (ch ∷ bs) =
    let escaped = if ch == cd_iac then ch ∷ ch ∷ [] else ch ∷ [] in
    let padding = if ch == 13 && pads p then p.ascii_cr_padding else [] in
    escaped ++ (padding ++ encode_bytes p bs)

unfoldable pub encode : Protocol → Msg → Protocol × Chain
unfolding encode_bytes replace_buf
encode p m =
    (record p { stream_encoded = [] }, flushed (p.stream_encoded ++ encode_bytes p m.buf) m)

-- `FlushEncodedStream(HUB_MSG **ppEchoMsg)`.
unfoldable pub flush_encoded_stream : Option Chain → Protocol → Protocol × Option Chain
flush_encoded_stream e p = elim p.stream_encoded [
  | [] ↦ (p, e)
  | b ∷ bs ↦ (
    record p { stream_encoded = [] },
    elim e [
      | none ↦ some (start (new_buf Msg.line_data (b ∷ bs)))
      | some c ↦ some (insert_buf Msg.line_data (b ∷ bs) c)
    ],
  )
]
