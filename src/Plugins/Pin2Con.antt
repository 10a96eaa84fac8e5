-- ===== src/Plugins/Pin2Con.antt =====
-- hub4com/plugins/pin2con/filter.cpp: CONNECT from the level of a pin, with a delay before the pin's
-- fall counts. `u.hv2` of a message is a parameter of its own. The timers are the hub's: TimerCreate
-- gives the next handle. What is printed is left out, and so is FAIL_IN_OPTS, which only prints.
pub mod Connection
pub mod Level
pub mod Run
use com0com.Base.{
  ℕ, ◌+◌, Bool, true, false, not, ◌&&◌, List, [], ◌∷◌, ◌==◌, nonzero, if◌then◌else◌, Option, some,
  none, bit_and, bit_or,
}
use com0com.Hub.Word.{t2n, go_o2i, mask2val, go1_o2v_modem_status, go1_break_status}
use com0com.Hub.Memory.{Memory, write}
use com0com.Hub.Msg
use com0com.Hub.Msg.{Msg}
use com0com.Hub.Chain.{Chain, start, messages, insert_val, replace_none}

pub record Filter : Type 0 where
  pub pin : ℕ
  pub negative : Bool
  pub delay_disconnect : ℕ

-- `id` is the handle of the instance, and `next_timer` that of the next timer.
pub record State : Type 0 where
  pub id : ℕ
  pub connect : Bool
  pub last_connect : Bool
  pub timer : Option ℕ
  pub next_timer : ℕ

abbrev pub new_state : ℕ → ℕ → State
new_state id next = record {
  id = id;
  connect = false;
  last_connect = false;
  timer = none;
  next_timer = next;
}

abbrev pub same : Bool → Bool → Bool
same true b = b
same false b = not b

abbrev pub bool_val : Bool → ℕ
bool_val true = 1
bool_val false = 0

abbrev pub with_timer : State → State
with_timer s = elim s.timer [
  | none ↦ record s { timer = some s.next_timer; next_timer = s.next_timer + 1 }
  | some t ↦ s
]

-- CONNECT with the new state of the connection.
abbrev pub changed : State → Chain → State × Chain
changed s c =
    (record s { connect = s.last_connect }, insert_val Msg.connect (bool_val s.last_connect) c)

abbrev pub without_timer : State × Chain → State × Chain
without_timer r = (record (r.0) { timer = none }, r.1)

-- `InsertConnectState` behind the assignment of `last_connect`.
unfoldable pub insert_last : Filter → State → Chain → Bool → State × Chain
insert_last f s c timeout =
    if same s.connect s.last_connect
    then (record s { timer = none }, c)
    else if not s.last_connect && nonzero f.delay_disconnect
    then if timeout then without_timer (changed s c) else (with_timer s, c)
    else changed s c

unfoldable pub insert_connect_state : Filter → State → Chain → Bool → State × Chain
unfolding insert_last
insert_connect_state f s c pin_state =
    insert_last f (record s { last_connect = if f.negative then not pin_state else pin_state }) c
      false

abbrev pub is_timer : Option ℕ → ℕ → Bool
is_timer none h = h == 0
is_timer (some t) h = h == t

abbrev unchanged : State → Msg → Memory → (State × List Msg) × Memory
unchanged s m mem = ((s, m ∷ []), mem)

abbrev chained : Memory → State × Chain → (State × List Msg) × Memory
chained mem r = ((r.0, messages r.1), mem)

-- The timer's message of this instance, and the others.
unfoldable pub on_tick : Filter → State → Msg → ℕ × ℕ → Memory → (State × List Msg) × Memory
unfolding insert_last replace_none
on_tick f s m hv mem =
    if hv.0 == s.id
    then (let c = replace_none Msg.empty (start m) in
        if is_timer s.timer hv.1
        then chained mem (insert_last f s c true)
        else ((s, messages c), mem))
    else unchanged s m mem

unfoldable pub in_method : Filter → State → Msg → ℕ × ℕ → Memory → (State × List Msg) × Memory
unfolding insert_connect_state on_tick replace_none
in_method f s m hv mem =
    let n = t2n m.type in
    let pin = go1_o2v_modem_status f.pin in
    if n == 6
    then if go_o2i m.pv_val == 1
      then ((s, m ∷ []), write mem m.p_val (bit_or (mem m.p_val) (bit_and f.pin m.pv_val)))
      else unchanged s m mem
    else if n == 2
    then ((s, messages (replace_none Msg.empty (start m))), mem)
    else if n == 24
    then on_tick f s m hv mem
    else if n == 3
    then if nonzero (bit_and pin (mask2val m.val))
      then chained mem (insert_connect_state f s (start m) (nonzero (bit_and m.val pin)))
      else unchanged s m mem
    else if n == 14
    then if nonzero (bit_and f.pin go1_break_status)
      then chained mem (insert_connect_state f s (start m) (nonzero m.val))
      else unchanged s m mem
    else unchanged s m mem
