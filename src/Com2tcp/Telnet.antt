-- ===== src/Com2tcp/Telnet.antt =====
-- com2tcp/telnet.cpp and telnet.h: TelnetProtocol. The two streams of the base class are the bytes
-- that SendRaw and WriteRaw have put into them. `options` has an entry for each byte. Its fields are
-- `int : 2`, which C++ lets the compiler take as signed or not (`signed_fields`): signed, a field that
-- was set to osYes, 2, reads as -2. What is printed is left out.
pub mod Transfer
pub mod Negotiation
use com0com.Base.{
  ℕ, Bool, true, false, not, ◌&&◌, ◌||◌, List, [], ◌∷◌, ◌++◌, ◌==◌, if◌then◌else◌, Option, none,
  some,
}
use com0com.Plugins.Telnet.{
  OptionState, os_cant, os_no, os_yes, Phase, st_data, st_code, st_option, st_sub_params,
  st_sub_code,
}
use com0com.Plugins.Telnet.Code.{cd_se, cd_sb, cd_will, cd_wont, cd_do, cd_dont, cd_iac}

abbrev pub op_echo : ℕ
op_echo = 1

abbrev pub op_terminal_type : ℕ
op_terminal_type = 24

pub record Protocol : Type 0 where
  pub state : Phase
  pub code : ℕ
  pub option : ℕ
  pub params : List ℕ
  pub local_option_state : ℕ → OptionState
  pub remote_option_state : ℕ → OptionState
  pub terminal_type : List ℕ
  pub stream_send_read : List ℕ
  pub stream_write_recv : List ℕ

abbrev pub set_at : (ℕ → OptionState) → ℕ → OptionState → ℕ → OptionState
set_at f i s j = if i == j then s else f j

-- `Clean`.
unfoldable pub clean : Protocol → Protocol
clean p = record p {
  state = st_data;
  local_option_state = set_at (λ i. os_cant) op_terminal_type os_no;
  remote_option_state = set_at (λ i. os_cant) op_echo os_no;
  stream_send_read = [];
  stream_write_recv = [];
}

-- `SetTerminalType`, on the bytes before the closing zero; NULL stands for "UNKNOWN".
unfoldable pub set_terminal_type : Option (List ℕ) → Protocol → Protocol
set_terminal_type none p = record p { terminal_type = 85 ∷ 78 ∷ 75 ∷ 78 ∷ 79 ∷ 87 ∷ 78 ∷ [] }
set_terminal_type (some name) p = record p { terminal_type = name }

-- The constructor; `code`, `option` and `params` are not set there.
abbrev pub blank : Protocol
blank = record {
  state = st_data;
  code = 0;
  option = 0;
  params = [];
  local_option_state = λ i. os_cant;
  remote_option_state = λ i. os_cant;
  terminal_type = [];
  stream_send_read = [];
  stream_write_recv = [];
}

unfoldable pub new_protocol : Protocol
unfolding set_terminal_type clean
new_protocol = clean (set_terminal_type none blank)

abbrev pub send_raw : List ℕ → Protocol → Protocol
send_raw bs p = record p { stream_send_read = p.stream_send_read ++ bs }

abbrev pub write_raw : List ℕ → Protocol → Protocol
write_raw bs p = record p { stream_write_recv = p.stream_write_recv ++ bs }

-- The loop of `Send`: what it puts into the stream.
unfoldable pub send_bytes : List ℕ → List ℕ
send_bytes [] = []
send_bytes (ch ∷ bs) =
    let rest = send_bytes bs in if ch == cd_iac then ch ∷ ch ∷ rest else ch ∷ rest

unfoldable pub send : List ℕ → Protocol → Protocol
unfolding send_bytes
send bs p = send_raw (send_bytes bs) p

unfoldable pub send_option : ℕ → ℕ → Protocol → Protocol
send_option code option p = send_raw (cd_iac ∷ code ∷ option ∷ []) p

unfoldable pub send_sub_negotiation : ℕ → List ℕ → Protocol → Protocol
unfolding send_option
send_sub_negotiation option params p =
    send_raw (params ++ cd_iac ∷ cd_se ∷ []) (send_option cd_sb option p)

-- What `switch` finds in a field: `none` where it is none of the three values.
abbrev pub seen : Bool → OptionState → Option OptionState
seen true os_yes = none
seen false os_yes = some os_yes
seen _ os_cant = some os_cant
seen _ os_no = some os_no

unfoldable pub on_will : Bool → ℕ → Protocol → Protocol
unfolding send_option
on_will signed_fields ch p = elim (seen signed_fields (p.remote_option_state ch)) [
  | some os_cant ↦ send_option cd_dont ch p
  | some os_no ↦
      send_option cd_do ch
        (record p { remote_option_state = set_at p.remote_option_state ch os_yes })
  | some os_yes ↦ p
  | none ↦ p
]

unfoldable pub on_wont : Bool → ℕ → Protocol → Protocol
unfolding send_option
on_wont signed_fields ch p = elim (seen signed_fields (p.remote_option_state ch)) [
  | some os_yes ↦
      send_option cd_dont ch
        (record p { remote_option_state = set_at p.remote_option_state ch os_no })
  | some os_cant ↦ p
  | some os_no ↦ p
  | none ↦ p
]

unfoldable pub on_do : Bool → ℕ → Protocol → Protocol
unfolding send_option
on_do signed_fields ch p = elim (seen signed_fields (p.local_option_state ch)) [
  | some os_cant ↦ send_option cd_wont ch p
  | some os_no ↦
      send_option cd_will ch
        (record p { local_option_state = set_at p.local_option_state ch os_yes })
  | some os_yes ↦ p
  | none ↦ p
]

unfoldable pub on_dont : Bool → ℕ → Protocol → Protocol
unfolding send_option
on_dont signed_fields ch p = elim (seen signed_fields (p.local_option_state ch)) [
  | some os_yes ↦
      send_option cd_wont ch
        (record p { local_option_state = set_at p.local_option_state ch os_no })
  | some os_cant ↦ p
  | some os_no ↦ p
  | none ↦ p
]

abbrev to_phase : Phase → Protocol → Protocol
to_phase s p = record p { state = s }

-- `case stData`.
unfoldable pub in_data : ℕ → Protocol → Protocol
in_data ch p = if ch == cd_iac then to_phase st_code p else write_raw (ch ∷ []) p

-- `case stCode`.
unfoldable pub in_code : ℕ → Protocol → Protocol
in_code ch p =
    if ch == cd_iac
    then to_phase st_data (write_raw (ch ∷ []) p)
    else if ch == cd_sb || ch == cd_will || ch == cd_wont || ch == cd_do || ch == cd_dont
    then record p { code = ch; state = st_option }
    else to_phase st_data p

-- `case stOption`.
unfoldable pub in_option : Bool → ℕ → Protocol → Protocol
unfolding on_will on_wont on_do on_dont
in_option signed_fields ch p =
    if p.code == cd_sb
    then record p { option = ch; params = []; state = st_sub_params }
    else if p.code == cd_will
    then to_phase st_data (on_will signed_fields ch p)
    else if p.code == cd_wont
    then to_phase st_data (on_wont signed_fields ch p)
    else if p.code == cd_do
    then to_phase st_data (on_do signed_fields ch p)
    else if p.code == cd_dont
    then to_phase st_data (on_dont signed_fields ch p)
    else to_phase st_data p

-- `case stSubParams`.
unfoldable pub in_sub_params : ℕ → Protocol → Protocol
in_sub_params ch p =
    if ch == cd_iac then to_phase st_sub_code p else record p { params = p.params ++ ch ∷ [] }

-- `case stSubCode`.
unfoldable pub in_sub_code : ℕ → Protocol → Protocol
unfolding send_sub_negotiation
in_sub_code ch p =
    let answer = 0 ∷ p.terminal_type in
    if ch == cd_iac
    then to_phase st_sub_params p
    else if ch == cd_se
    then if p.option == op_terminal_type
      then to_phase st_data (send_sub_negotiation p.option answer (record p { params = answer }))
      else to_phase st_data p
    else to_phase st_data p

unfoldable pub write_byte : Bool → Phase → ℕ → Protocol → Protocol
unfolding in_data in_code in_option in_sub_params in_sub_code
write_byte signed_fields st_data ch p = in_data ch p
write_byte signed_fields st_code ch p = in_code ch p
write_byte signed_fields st_option ch p = in_option signed_fields ch p
write_byte signed_fields st_sub_params ch p = in_sub_params ch p
write_byte signed_fields st_sub_code ch p = in_sub_code ch p

-- The loop of `Write`.
unfoldable pub write : Bool → List ℕ → Protocol → Protocol
unfolding write_byte
write signed_fields [] p = p
write signed_fields (ch ∷ bs) p = write signed_fields bs (write_byte signed_fields p.state ch p)
