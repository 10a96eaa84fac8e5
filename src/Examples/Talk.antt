-- ===== src/Examples/Talk.antt =====
-- TELNET: hub4com/plugins/telnet and com2tcp/telnet.cpp.
use com0com.Base.{true, [], ◌∷◌, ◌≡◌, refl, arith, none, some, set, replicate}
use com0com.Plugins.Telnet
use com0com.Plugins.Telnet.{
  TelnetOption, plain, terminal_type, os_cant, os_no, os_yes, st_data, st_option, st_sub_params,
  st_sub_code, new_protocol, decode_bytes, encode_bytes, decode_in, escape_params,
}
use com0com.Plugins.Telnet.Transfer.{decode-encode}
use com0com.Plugins.Telnet.Bounds.{Outcome, past, decode_in-Outcome}
use com0com.Plugins.Telnet.Negotiation.{command, cmd_will}
use com0com.Plugins.Telnet.Negotiation.Talk.{Settled, Agree, talk, talk_will}
use com0com.Com2tcp.Telnet as Tcp
use com0com.Com2tcp.Telnet.{write, send_bytes}
use com0com.Com2tcp.Telnet.Transfer.{write-escape_params, without_iac}
use com0com.Com2tcp.Telnet.Negotiation.{write-wont_signed}

abbrev padding : Telnet.Protocol
padding = record new_protocol { ascii_cr_padding = 10 ∷ [] }

-- A doubled IAC, and a line feed behind the carriage return.
decode-encode_example :
    decode_bytes new_protocol (encode_bytes padding (255 ∷ 13 ∷ 65 ∷ []))
    ≡ some (record new_protocol { stream_decoded = 255 ∷ 13 ∷ 10 ∷ 65 ∷ [] })
unfolding Telnet.pads
decode-encode_example =
    decode-encode (255 ∷ 13 ∷ 65 ∷ []) padding new_protocol ((λ e. omega (arith, e)), tt) refl

-- A server that has ECHO on, and a client that can take it.
abbrev echoing : TelnetOption
echoing = record { kind = plain; state_local = os_yes; state_remote = os_cant }

abbrev taking : TelnetOption
taking = record { kind = plain; state_local = os_cant; state_remote = os_no }

abbrev server : Telnet.Protocol
server = record new_protocol { options = set (replicate 255 none) 1 (some echoing) }

abbrev client : Telnet.Protocol
client = record new_protocol { options = set (replicate 255 none) 1 (some taking) }

talk_will_example : Settled (Agree 1) (talk 2 (command cmd_will 1) server client)
talk_will_example =
    talk_will 1 echoing (some taking) server client (refl, refl, refl) refl (refl, refl, refl)

abbrev asking : Telnet.Protocol
asking = record new_protocol {
  options = set (replicate 255 none) 1 (some (record taking { state_remote = os_yes }));
}

abbrev negotiating : Telnet.Protocol
negotiating = record new_protocol { state = st_option; code = 251 }

decode_in-Outcome_example :
    Outcome (past st_option 255 negotiating) (decode_in st_option 255 negotiating)
decode_in-Outcome_example = decode_in-Outcome st_option 255 negotiating refl

abbrev other_end : Tcp.Protocol
other_end = record Tcp.blank { terminal_type = 86 ∷ 84 ∷ [] }

write-escape_params_example :
    write true (escape_params (7 ∷ 255 ∷ 8 ∷ [])) (record other_end { state = st_sub_params })
    ≡ record other_end { state = st_sub_params; params = 7 ∷ 8 ∷ [] }
unfolding without_iac
write-escape_params_example =
    write-escape_params true (7 ∷ 255 ∷ 8 ∷ []) (record other_end { state = st_sub_params }) refl

abbrev echo_on : Tcp.Protocol
echo_on = record other_end { remote_option_state = λ i. os_yes; local_option_state = λ i. os_yes }

write-wont_signed_example :
    (write true (255 ∷ 252 ∷ 1 ∷ []) echo_on ≡ record echo_on { code = 252 })
    × (write true (255 ∷ 254 ∷ 1 ∷ []) echo_on ≡ record echo_on { code = 254 })
write-wont_signed_example = write-wont_signed 1 echo_on refl
