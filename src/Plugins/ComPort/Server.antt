-- ===== src/Plugins/ComPort/Server.antt =====
-- `TelnetOptionComPortServer` of hub4com/plugins/telnet/opt_comport.cpp. PurgeTx does nothing there.
use com0com.Base.{
  ℕ, ◌+◌, ◌-◌, Bool, true, false, not, ◌&&◌, ◌||◌, List, [], ◌∷◌, ◌++◌, ◌==◌, nonzero,
  if◌then◌else◌, Option, some, none, bit_and, bit_or, bit_xor,
}
use com0com.Hub.Word.{
  byte, clear_bits, val2mask, go1_rbr_status, go1_rlc_status, go1_break_status, go1_purge_tx_in,
  so_o2v_pin_state, so_o2v_line_status, so_set_br, so_set_lc, sps_p2v_mst, lc_mask_bytesize,
  lc_mask_parity, lc_mask_stopbits, lc2val_bytesize, lc2val_parity, lc2val_stopbits,
  val2lc_bytesize, val2lc_parity, val2lc_stopbits,
}
use com0com.Hub.Msg
use com0com.Hub.Msg.{Msg, new}
use com0com.Plugins.ComPort.{
  Winbase, Masks, ComPort, new_com_port, Answer, val_msg, on_suspend_resume, br_params, par_br,
  p2v_parity, v2p_parity, p2v_stop_size, v2p_stop_size, cpc_set_baud_rate, cpc_set_data_size,
  cpc_set_parity, cpc_set_stop_size, cpc_set_control, cpc_notify_line_state, cpc_notify_modem_state,
  cpc_flow_control_suspend, cpc_flow_control_resume, cpc_set_line_state_mask,
  cpc_set_modem_state_mask, cpc_purge_data, cpc_server_base, sc_set_break_on, sc_set_break_off,
  sc_set_dtr_on, sc_set_dtr_off, sc_set_rts_on, sc_set_rts_off, pin_state_dtr, pin_state_rts,
  modem_status_cts, modem_status_dsr,
}

pub record Server : Type 0 where
  pub port : ComPort
  pub br : ℕ
  pub br_send : Bool
  pub lc : ℕ
  pub lc_send : ℕ
  pub mst : ℕ
  pub mst_mask : ℕ
  pub lsr_mask : ℕ
  pub mcr : ℕ
  pub mcr_mask : ℕ
  pub mcr_send : ℕ
  pub brk : Bool
  pub brk_send : Bool

abbrev pub new_server : Masks → Server
new_server m = record {
  port = new_com_port false;
  br = 0;
  br_send = false;
  lc = 0;
  lc_send = 0;
  mst = 0;
  mst_mask = bit_and 255 (sps_p2v_mst (so_o2v_pin_state m.so));
  lsr_mask = 0;
  mcr = 0;
  mcr_mask = 0;
  mcr_send = 0;
  brk = false;
  brk_send = false;
}

-- `a & ~b` of two BYTEs.
abbrev clear_byte : ℕ → ℕ → ℕ
clear_byte a b = bit_and a (255 - byte b)

unfoldable pub set_br : ℕ → Server → Server × List (List ℕ)
set_br br s =
    if nonzero br && s.br_send
    then (
      record s { br = br; br_send = false },
      br_params (cpc_set_baud_rate + cpc_server_base) br ∷ [],
    )
    else (record s { br = br }, [])

-- A part of `SetLC`: one field of `lc`, with its code and its parameter.
abbrev lc_part : ℕ → ℕ → ℕ → Server × List (List ℕ) → Server × List (List ℕ)
lc_part mask code par r =
    let s = r.0 in
    if nonzero (bit_and (bit_and s.lc s.lc_send) mask)
    then (
      record s { lc_send = clear_bits s.lc_send mask },
      r.1 ++ ((code + cpc_server_base) ∷ par ∷ []) ∷ [],
    )
    else r

unfoldable pub set_lc : Winbase → ℕ → Server → Server × List (List ℕ)
set_lc w lc s = lc_part lc_mask_stopbits cpc_set_stop_size (v2p_stop_size w (lc2val_stopbits lc)) (
    lc_part lc_mask_parity cpc_set_parity (v2p_parity w (lc2val_parity lc))
      (lc_part lc_mask_bytesize cpc_set_data_size (lc2val_bytesize lc) (record s { lc = lc }, [])))

unfoldable pub notify_mst : ℕ → Server → Server × List (List ℕ)
notify_mst mst s =
    let now = bit_and mst s.mst_mask in
    if nonzero (bit_and (bit_xor s.mst mst) s.mst_mask)
    then (record s { mst = now }, ((cpc_notify_modem_state + cpc_server_base) ∷ now ∷ []) ∷ [])
    else (s, [])

unfoldable pub notify_lsr : ℕ → Server → List (List ℕ)
notify_lsr lsr s =
    let now = bit_and lsr s.lsr_mask in
    if nonzero now then ((cpc_notify_line_state + cpc_server_base) ∷ now ∷ []) ∷ [] else []

abbrev control : Bool → ℕ → ℕ → List ℕ
control c on off = (cpc_set_control + cpc_server_base) ∷ (if c then on else off) ∷ []

-- A part of `SetMCR`: one pin.
abbrev mcr_part : ℕ → ℕ → ℕ → Server × List (List ℕ) → Server × List (List ℕ)
mcr_part pin on off r =
    let s = r.0 in
    if nonzero (bit_and (bit_and s.mcr_mask s.mcr_send) pin)
    then (
      record s { mcr_send = clear_byte s.mcr_send pin },
      r.1 ++ control (nonzero (bit_and s.mcr pin)) on off ∷ [],
    )
    else r

unfoldable pub set_mcr : ℕ → ℕ → Server → Server × List (List ℕ)
set_mcr mcr mask s = mcr_part pin_state_rts sc_set_rts_on sc_set_rts_off (
    mcr_part pin_state_dtr sc_set_dtr_on sc_set_dtr_off (
      record s {
        mcr = bit_or (clear_byte s.mcr mask) (bit_and mcr mask);
        mcr_mask = bit_or s.mcr_mask mask;
      },
      [],
    ))

unfoldable pub set_break : Bool → Server → Server × List (List ℕ)
set_break on s =
    if s.brk_send
    then (record s { brk = on; brk_send = false }, control on sc_set_break_on sc_set_break_off ∷ [])
    else (record s { brk = on }, [])

abbrev pub refuses : Server → Answer Server
refuses s = record { state = s; sent = []; inserted = none; ok = false }

abbrev answers : Server × List (List ℕ) → Option Msg → Bool → Answer Server
answers r m ok = record { state = r.0; sent = r.1; inserted = m; ok = ok }

-- `case cpcSetBaudRate`: a new rate is passed on as RBR_STATUS, and the answer is left to the
-- SET_BR that comes back, or is given at once.
unfoldable pub on_br : Masks → ℕ → Server → Answer Server
unfolding set_br
on_br m par s =
    let asked = record s { br_send = true } in
    if nonzero par && not (s.br == par)
    then if nonzero (bit_and m.go1 go1_rbr_status)
      then (let waiting = record asked { br = 0 } in
          let msg = some (val_msg Msg.rbr_status par) in
          if nonzero (bit_and m.so so_set_br)
          then answers (waiting, []) msg true
          else answers (set_br par waiting) msg false)
      else answers (set_br par asked) none false
    else answers (set_br s.br asked) none true

-- `case cpcSetDataSize`, `cpcSetParity` and `cpcSetStopSize`, on the bits `field` of the value.
unfoldable pub on_lc : Winbase → Masks → ℕ → ℕ → ℕ → ℕ → Server → Answer Server
unfolding set_lc
on_lc w m mask field par lc_val s =
    let asked = record s { lc_send = bit_or s.lc_send mask } in
    if nonzero par && not (bit_and s.lc field == lc_val)
    then (let waiting = record asked { lc = clear_bits s.lc field } in
        let msg = some (val_msg Msg.rlc_status lc_val) in
        if nonzero (bit_and m.go1 go1_rlc_status)
        then if nonzero (bit_and m.so so_set_lc)
          then answers (waiting, []) msg true
          else answers (set_lc w lc_val waiting) msg false
        else answers (set_lc w lc_val waiting) none false)
    else answers (set_lc w s.lc asked) none true

abbrev fixed : ℕ → ℕ → Bool → Server → Answer Server
fixed code val ok s = answers (s, ((code + cpc_server_base) ∷ val ∷ []) ∷ []) none ok

-- The flow control requests: scUseNoFCO or scUseNoFCI is the answer to all of them.
abbrev is_fco : ℕ → Bool
is_fco val = val == 0 || val == 1 || val == 2 || val == 3 || val == 17 || val == 19

abbrev is_fci : ℕ → Bool
is_fci val = val == 13 || val == 14 || val == 15 || val == 16 || val == 18

-- What follows a change of a signal: the message, where the filter's owner asked for it.
abbrev signals : ℕ → Msg → Server × List (List ℕ) → Answer Server
signals wanted msg r = if nonzero wanted then answers r (some msg) true else answers r none false

unfoldable pub on_break : Masks → Bool → Server → Answer Server
unfolding set_break
on_break m on s =
    signals (bit_and m.go1 go1_break_status) (val_msg Msg.break_status (if on then 1 else 0))
      (set_break on (record s { brk_send = true }))

unfoldable pub on_pin : Masks → ℕ → ℕ → Bool → Server → Answer Server
unfolding set_mcr
on_pin m pin status on s =
    signals (bit_and m.go1 status)
      (val_msg Msg.modem_status (bit_or (if on then status else 0) (val2mask status)))
      (set_mcr (if on then pin else 0) pin (record s { mcr_send = bit_or s.mcr_send pin }))

abbrev asked_pin : ℕ → Server → Answer Server
asked_pin pin s =
    answers (set_mcr s.mcr s.mcr_mask (record s { mcr_send = bit_or s.mcr_send pin })) none true

unfoldable pub on_control : Masks → ℕ → Server → Answer Server
unfolding set_break set_mcr on_break on_pin
on_control m val s =
    if is_fco val
    then fixed cpc_set_control 1 (val == 0) s
    else if is_fci val
    then fixed cpc_set_control 14 (val == 13) s
    else if val == 4
    then answers (set_break s.brk (record s { brk_send = true })) none true
    else if val == sc_set_break_on || val == sc_set_break_off
    then on_break m (val == sc_set_break_on) s
    else if val == 7
    then asked_pin pin_state_dtr s
    else if val == sc_set_dtr_on || val == sc_set_dtr_off
    then on_pin m pin_state_dtr modem_status_dsr (val == sc_set_dtr_on) s
    else if val == 10
    then asked_pin pin_state_rts s
    else if val == sc_set_rts_on || val == sc_set_rts_off
    then on_pin m pin_state_rts modem_status_cts (val == sc_set_rts_on) s
    else refuses s

-- `case cpcPurgeData`: pdRxBuf is 1, pdTxBuf 2 and pdRxTxBuf 3.
unfoldable pub on_purge : Masks → ℕ → Server → Answer Server
on_purge m val s =
    if val == 1 || val == 2 || val == 3
    then if nonzero (bit_and m.go1 go1_purge_tx_in) && not (val == 1)
      then record (fixed cpc_purge_data val true s) {
        inserted = some (record new { type = Msg.purge_tx_in });
      }
      else fixed cpc_purge_data val false s
    else refuses s

unfoldable pub on_par : Winbase → Masks → ℕ → ℕ → Server → Answer Server
unfolding on_control on_purge on_lc
on_par w m code par s =
    if code == cpc_set_data_size
    then on_lc w m lc_mask_bytesize (val2lc_bytesize 255 + lc_mask_bytesize) par
        (bit_or (val2lc_bytesize par) lc_mask_bytesize) s
    else if code == cpc_set_parity
    then on_lc w m lc_mask_parity (val2lc_parity 255 + lc_mask_parity) par
        (bit_or (val2lc_parity (p2v_parity w par)) lc_mask_parity) s
    else if code == cpc_set_stop_size
    then on_lc w m lc_mask_stopbits (val2lc_stopbits 255 + lc_mask_stopbits) par
        (bit_or (val2lc_stopbits (p2v_stop_size w par)) lc_mask_stopbits) s
    else if code == cpc_set_control
    then on_control m par s
    else if code == cpc_set_line_state_mask
    then (let mask = bit_and par (so_o2v_line_status m.so) in
        fixed code mask true (record s { lsr_mask = mask }))
    else if code == cpc_set_modem_state_mask
    then (let mask = bit_and par (sps_p2v_mst (so_o2v_pin_state m.so)) in
        fixed code mask true (record s { mst_mask = mask }))
    else if code == cpc_purge_data
    then on_purge m par s
    else refuses s

abbrev resumes : Server → ComPort × Option Msg → Answer Server
resumes s r = answers (record s { port = r.0 }, []) r.1 true

unfoldable pub on_none : ℕ → Server → Answer Server
on_none code s =
    if code == cpc_flow_control_suspend
    then resumes s (on_suspend_resume true s.port)
    else if code == cpc_flow_control_resume
    then resumes s (on_suspend_resume false s.port)
    else refuses s

abbrev four_params : Masks → ℕ → ℕ → Server → Answer Server
four_params m code par s = if code == cpc_set_baud_rate then on_br m par s else refuses s

unfoldable pub on_sub_negotiation : Winbase → Masks → List ℕ → Server → Answer Server
unfolding on_br on_par on_none
on_sub_negotiation w m (code ∷ []) s = on_none code s
on_sub_negotiation w m (code ∷ par ∷ []) s = on_par w m code par s
on_sub_negotiation w m (code ∷ a ∷ b ∷ c ∷ d ∷ []) s = four_params m code (par_br a b c d) s
on_sub_negotiation w m _ s = refuses s
