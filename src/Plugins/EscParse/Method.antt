-- ===== src/Plugins/EscParse/Method.antt =====
-- `InMethod` of hub4com/plugins/escparse/filter.cpp, with its part in the negotiation of the input
-- options. `own` is the address of the field `intercepted_options` of the object, which the filter
-- gives to the filters behind it in a message: its value is `mem own`. What is printed is left out.
use com0com.Base.{
  ℕ, ◌+◌, ◌*◌, Bool, true, false, ◌&&◌, List, [], ◌∷◌, ◌==◌, nonzero, if◌then◌else◌, bit_and,
  bit_or,
}
use com0com.Hub.Word.{
  byte, dword, t2n, go_o2i, go_i2o, go0_escape_mode, val2mask, clear_bits, go1_rbr_status,
  go1_rlc_status, go1_break_status, go1_o2v_modem_status, go1_o2v_line_status,
}
use com0com.Hub.Memory.{Memory, write}
use com0com.Hub.Msg
use com0com.Hub.Msg.{Msg}
use com0com.Hub.Chain.{start, messages, replace_none, insert_none}
use com0com.Plugins.Lsrmst.{Lsrmst}
use com0com.Plugins.EscParse.{State, Run, options_add, options_del, convert}

pub record Filter : Type 0 where
  pub request_esc_mode : Bool
  pub escape_char : ℕ
  pub acceptable_options : ℕ

-- The constructor without options.
abbrev pub new_filter : Filter
new_filter = record { request_esc_mode = true; escape_char = 0xff; acceptable_options = 0x7ffff }

pub record Outcome : Type 0 where
  pub st : State
  pub mem : Memory
  pub msgs : List Msg

abbrev esc_opts_map : ℕ → ℕ
esc_opts_map e = bit_and e 0xffffff

abbrev esc_opts_v2o_escchar : ℕ → ℕ
esc_opts_v2o_escchar v = byte v * 0x1000000

-- GO_I2O(-1).
abbrev set_id_mask : ℕ
set_id_mask = 0xc0000000

abbrev unchanged : State → Memory → Msg → Outcome
unchanged s mem m = record { st = s; mem = mem; msgs = m ∷ [] }

abbrev replaced : State → Memory → Msg → Outcome
replaced s mem m = record { st = s; mem = mem; msgs = messages (replace_none Msg.empty (start m)) }

-- `case HUB_MSG_TYPE_GET_IN_OPTS`, set 0.
unfoldable pub get_in_opts_0 : ℕ → Filter → State → Msg → Memory → Outcome
unfolding options_add
get_in_opts_0 own f s m mem =
    let s1 = options_add (bit_and (mem own) f.acceptable_options) s in
    let m1 = record m { pv_val = clear_bits m.pv_val go0_escape_mode } in
    let on = unchanged (record s1 { esc_mode = true }) mem m1 in
    if f.request_esc_mode
    then if nonzero s1.options && nonzero (bit_and m.pv_val go0_escape_mode)
      then record on { mem = write mem m.p_val (bit_or (mem m.p_val) go0_escape_mode) }
      else unchanged s1 mem m1
    else on

-- The same, set 1: the options that the filter can take over are asked for in a message of its own.
unfoldable pub get_in_opts_1 : ℕ → Filter → State → Msg → Memory → Outcome
unfolding insert_none
get_in_opts_1 own f s m mem =
    let io = clear_bits (bit_and m.pv_val f.acceptable_options) set_id_mask in
    let c = insert_none Msg.empty (start (record m { pv_val = clear_bits m.pv_val io })) in
    let asks : Msg = record (c.here) {
      type = Msg.get_in_opts;
      p_val = own;
      pv_val = bit_or io (go_i2o 1);
    } in
    record { st = s; mem = mem; msgs = messages (record c { here = asks }) }

unfoldable pub get_in_opts : ℕ → Filter → State → Msg → Memory → Outcome
unfolding get_in_opts_0 get_in_opts_1
get_in_opts own f s m mem =
    let i = go_o2i m.pv_val in
    if i == 0
    then get_in_opts_0 own f s m mem
    else if i == 1
    then get_in_opts_1 own f s m mem
    else unchanged s mem m

unfoldable pub count_repeats : State → Msg → Memory → Outcome
count_repeats s m mem =
    if t2n m.pv_val == t2n Msg.get_in_opts
    then unchanged s (write mem m.p_val (dword (mem m.p_val + 1))) m
    else unchanged s mem m

unfoldable pub get_esc_opts : Filter → State → Msg → Memory → Outcome
unfolding replace_none
get_esc_opts f s m mem =
    replaced s
      (write mem m.p_val (bit_or (esc_opts_map s.options) (esc_opts_v2o_escchar f.escape_char))) m

unfoldable pub fail_esc_opts : State → Msg → Memory → Outcome
unfolding options_del replace_none
fail_esc_opts s m mem =
    let failed = bit_and m.pv_val (esc_opts_map s.options) in
    if nonzero failed
    then replaced (options_del (esc_opts_map failed) s)
        (write mem m.p_val (bit_or (mem m.p_val) (esc_opts_map failed))) m
    else replaced s mem m

-- The test reads the set-ID from `u.pv.val`, and the options from `u.val`.
unfoldable pub fail_in_opts : Filter → State → Msg → Memory → Outcome
unfolding options_del
fail_in_opts f s m mem =
    let off = options_del 0xffffffff (record s { esc_mode = false }) in
    let m1 = record m { val = clear_bits m.val go0_escape_mode } in
    if go_o2i m.pv_val == 0
    then if nonzero (bit_and m.val go0_escape_mode) && f.request_esc_mode
      then unchanged off mem m1
      else unchanged s mem m1
    else unchanged s mem m

unfoldable pub in_line_data : Lsrmst → Filter → State → Msg → Memory → Outcome
unfolding convert
in_line_data sc f s m mem = elim m.buf [
  | [] ↦ unchanged s mem m
  | b ∷ bs ↦
      let r : Run = convert sc f.escape_char s m in
      record { st = r.st; mem = mem; msgs = messages r.chain }
]

-- A status of a kind that the filter reports itself is dropped.
abbrev unless_wanted : ℕ → State → Msg → Memory → Outcome
unless_wanted flag s m mem =
    if nonzero (bit_and s.options flag) then replaced s mem m else unchanged s mem m

unfoldable pub in_method : Lsrmst → ℕ → Filter → State → Msg → Memory → Outcome
unfolding count_repeats get_in_opts get_esc_opts fail_esc_opts fail_in_opts in_line_data
    replace_none
in_method sc own f s m mem =
    let n = t2n m.type in
    let masked = λ (v : ℕ). record m { val = clear_bits m.val (val2mask v) } in
    if n == 11
    then count_repeats s m mem
    else if n == 6
    then get_in_opts own f s m mem
    else if n == 12
    then get_esc_opts f s m mem
    else if n == 13
    then fail_esc_opts s m mem
    else if n == 7
    then fail_in_opts f s m mem
    else if n == 1
    then in_line_data sc f s m mem
    else if n == 3
    then unchanged s mem (masked (go1_o2v_modem_status s.options))
    else if n == 4
    then unchanged s mem (masked (go1_o2v_line_status s.options))
    else if n == 9
    then unless_wanted go1_rbr_status s m mem
    else if n == 10
    then unless_wanted go1_rlc_status s m mem
    else if n == 14
    then unless_wanted go1_break_status s m mem
    else unchanged s mem m
