-- ===== src/Plugins/ComPort/Client.antt =====
-- `TelnetOptionComPortClient` of hub4com/plugins/telnet/opt_comport.cpp.
use com0com.Base.{
  ℕ, ◌+◌, Bool, true, false, ◌||◌, List, [], ◌∷◌, ◌++◌, ◌==◌, nonzero, if◌then◌else◌, Option, some,
  none, bit_and, bit_or,
}
use com0com.Hub.Word.{
  val2mask, go1_o2v_modem_status, go1_o2v_line_status, lc_mask_bytesize, lc_mask_parity,
  lc_mask_stopbits, lc2val_bytesize, lc2val_parity, lc2val_stopbits, val2lc_bytesize, val2lc_parity,
  val2lc_stopbits,
}
use com0com.Hub.Msg
use com0com.Hub.Msg.{Msg}
use com0com.Plugins.ComPort.{
  Winbase, Masks, ComPort, Answer, val_msg, on_suspend_resume, br_params, par_br, p2v_parity,
  v2p_parity, p2v_stop_size, v2p_stop_size, cpc_set_baud_rate, cpc_set_data_size, cpc_set_parity,
  cpc_set_stop_size, cpc_set_control, cpc_notify_line_state, cpc_notify_modem_state,
  cpc_flow_control_suspend, cpc_flow_control_resume, cpc_set_line_state_mask,
  cpc_set_modem_state_mask, cpc_purge_data, cpc_server_base, sc_set_break_on, sc_set_break_off,
  sc_set_dtr_on, sc_set_dtr_off, sc_set_rts_on, sc_set_rts_off, pd_tx_buf, lbr_status, llc_status,
  go0_lbr_status, go0_llc_status, pin_state_dtr, pin_state_rts,
}

unfoldable pub set_br : ℕ → List (List ℕ)
set_br br = br_params cpc_set_baud_rate br ∷ []

-- What is there only under a condition.
abbrev pub when : {A : Type 0} → Bool → A → List A
when c ps = if c then ps ∷ [] else []

unfoldable pub set_lc : Winbase → ℕ → List (List ℕ)
set_lc w lc =
    when (nonzero (bit_and lc lc_mask_bytesize)) (cpc_set_data_size ∷ lc2val_bytesize lc ∷ [])
    ++ (when (nonzero (bit_and lc lc_mask_parity))
          (cpc_set_parity ∷ v2p_parity w (lc2val_parity lc) ∷ [])
        ++ when (nonzero (bit_and lc lc_mask_stopbits))
            (cpc_set_stop_size ∷ v2p_stop_size w (lc2val_stopbits lc) ∷ []))

abbrev control : Bool → ℕ → ℕ → List ℕ
control c on off = cpc_set_control ∷ (if c then on else off) ∷ []

unfoldable pub set_mcr : ℕ → ℕ → List (List ℕ)
set_mcr mcr mask =
    when (nonzero (bit_and mask pin_state_dtr))
      (control (nonzero (bit_and mcr pin_state_dtr)) sc_set_dtr_on sc_set_dtr_off)
    ++ when (nonzero (bit_and mask pin_state_rts))
        (control (nonzero (bit_and mcr pin_state_rts)) sc_set_rts_on sc_set_rts_off)

unfoldable pub set_break : Bool → List (List ℕ)
set_break on = control on sc_set_break_on sc_set_break_off ∷ []

unfoldable pub purge_tx : List (List ℕ)
purge_tx = (cpc_purge_data ∷ pd_tx_buf ∷ []) ∷ []

-- The client answers nothing.
abbrev client_answer : ComPort → Option Msg → Bool → Answer ComPort
client_answer p m ok = record { state = p; sent = []; inserted = m; ok = ok }

abbrev pub refuses : ComPort → Answer ComPort
refuses p = client_answer p none false

abbrev accepts : ComPort → Answer ComPort
accepts p = client_answer p none true

abbrev says : ComPort → Msg → Answer ComPort
says p m = client_answer p (some m) true

abbrev resumes : ComPort × Option Msg → Answer ComPort
resumes r = client_answer r.0 r.1 true

-- The cases with four, with one and with no parameter byte.
unfoldable pub on_br : Masks → ℕ → ComPort → Answer ComPort
on_br m par p =
    if par == 0
    then refuses p
    else if nonzero (bit_and m.go0 go0_lbr_status)
    then says p (val_msg lbr_status par)
    else accepts p

abbrev on_llc : Masks → ℕ → ℕ → ComPort → Answer ComPort
on_llc m par lc_val p =
    if par == 0
    then refuses p
    else if nonzero (bit_and m.go0 go0_llc_status)
    then says p (val_msg llc_status lc_val)
    else accepts p

abbrev is_control : ℕ → Bool
is_control par =
    par == sc_set_break_on
    || par == sc_set_break_off
    || par == sc_set_dtr_on
    || par == sc_set_dtr_off
    || par == sc_set_rts_on
    || par == sc_set_rts_off

abbrev on_line_state : ℕ → ℕ → ComPort → Answer ComPort
on_line_state mask par p =
    if mask == 0
    then refuses p
    else if bit_and par mask == 0
    then accepts p
    else says p (val_msg Msg.line_status (bit_or par (val2mask mask)))

abbrev on_modem_state : ℕ → ℕ → ComPort → Answer ComPort
on_modem_state mask par p =
    if mask == 0 then refuses p else says p (val_msg Msg.modem_status (bit_or par (val2mask mask)))

unfoldable pub on_par : Winbase → Masks → ℕ → ℕ → ComPort → Answer ComPort
on_par w m code par p =
    if code == cpc_set_data_size + cpc_server_base
    then on_llc m par (bit_or (val2lc_bytesize par) lc_mask_bytesize) p
    else if code == cpc_set_parity + cpc_server_base
    then on_llc m par (bit_or (val2lc_parity (p2v_parity w par)) lc_mask_parity) p
    else if code == cpc_set_stop_size + cpc_server_base
    then on_llc m par (bit_or (val2lc_stopbits (p2v_stop_size w par)) lc_mask_stopbits) p
    else if code == cpc_set_control + cpc_server_base
    then (if is_control par then accepts p else refuses p)
    else if code == cpc_notify_line_state + cpc_server_base
    then on_line_state (go1_o2v_line_status m.go1) par p
    else if code == cpc_notify_modem_state + cpc_server_base
    then on_modem_state (go1_o2v_modem_status m.go1) par p
    else refuses p

unfoldable pub on_none : ℕ → ComPort → Answer ComPort
on_none code p =
    if code == cpc_flow_control_suspend + cpc_server_base
    then resumes (on_suspend_resume true p)
    else if code == cpc_flow_control_resume + cpc_server_base
    then resumes (on_suspend_resume false p)
    else refuses p

-- The answers that are taken with any parameters.
abbrev pub any_params : ℕ → Bool
any_params code =
    code == cpc_set_line_state_mask + cpc_server_base
    || code == cpc_set_modem_state_mask + cpc_server_base
    || code == cpc_purge_data + cpc_server_base

abbrev four_params : Masks → ℕ → ℕ → ComPort → Answer ComPort
four_params m code par p =
    if code == cpc_set_baud_rate + cpc_server_base then on_br m par p else refuses p

abbrev sized : Winbase → Masks → List ℕ → ComPort → Answer ComPort
sized w m (code ∷ []) p = on_none code p
sized w m (code ∷ par ∷ []) p = on_par w m code par p
sized w m (code ∷ a ∷ b ∷ c ∷ d ∷ []) p = four_params m code (par_br a b c d) p
sized w m _ p = refuses p

unfoldable pub on_sub_negotiation : Winbase → Masks → List ℕ → ComPort → Answer ComPort
on_sub_negotiation w m [] p = refuses p
on_sub_negotiation w m (code ∷ ps) p =
    if any_params code then accepts p else sized w m (code ∷ ps) p
