-- ===== src/Plugins/Pin2Con/Level.antt =====
-- The level of the pin that hub4com/plugins/pin2con/filter.cpp keeps in `last_connect`.
use com0com.Base.{
  if_either, ℕ, Bool, true, false, not, ◌&&◌, List, ◌==◌, nonzero, if◌then◌else◌, Option, some,
  none, bit_and, ◌≡◌, refl, ◌∙◌, Bool-cases, inl, inr, arith,
}
use com0com.Hub.Word.{t2n, go_o2i, mask2val, go1_o2v_modem_status, go1_break_status}
use com0com.Hub.Memory.{Memory}
use com0com.Hub.Msg.{Msg}
use com0com.Hub.Chain.{Chain, start}
use com0com.Plugins.Pin2Con.{
  Filter, State, same, with_timer, insert_last, is_timer, insert_connect_state, on_tick, in_method,
}

-- The level of the pin behind a message, the sense of the option in it.
abbrev pub level : Filter → Bool → Msg → Bool
level f b m =
    let pin = go1_o2v_modem_status f.pin in
    if t2n m.type == 3 && nonzero (bit_and pin (mask2val m.val))
    then not (same f.negative (nonzero (bit_and m.val pin)))
    else if t2n m.type == 14 && nonzero (bit_and f.pin go1_break_status)
    then not (same f.negative (nonzero m.val))
    else b

with_timer-last_connect :
    (s : State) (o : Option ℕ) → s.timer ≡ o → (with_timer s).last_connect ≡ s.last_connect
with_timer-last_connect s none e = rw (e) refl
with_timer-last_connect s (some t) e = rw (e) refl

insert_last-last_connect :
    (f : Filter) (s : State) (c : Chain) (timeout : Bool)
    → (insert_last f s c timeout).0.last_connect ≡ s.last_connect
unfolding insert_last
insert_last-last_connect f s c timeout =
    let P : State × Chain → Type 0 = λ r. r.0.last_connect ≡ s.last_connect in
    if_either P (same s.connect s.last_connect) refl (
      if_either P (not s.last_connect && nonzero f.delay_disconnect)
        (if_either P timeout refl (with_timer-last_connect s s.timer refl)) refl)

sense : (n b : Bool) → (if n then not b else b) ≡ not (same n b)
sense true b = refl
sense false true = refl
sense false false = refl

insert_connect_state-last_connect :
    (f : Filter) (s : State) (c : Chain) (b : Bool)
    → (insert_connect_state f s c b).0.last_connect ≡ not (same f.negative b)
unfolding insert_connect_state
insert_connect_state-last_connect f s c b =
    insert_last-last_connect f (record s { last_connect = if f.negative then not b else b }) c false
    ∙ sense f.negative b

on_tick-last_connect :
    (f : Filter) (s : State) (m : Msg) (hv : ℕ × ℕ) (mem : Memory)
    → (on_tick f s m hv mem).0.0.last_connect ≡ s.last_connect
unfolding on_tick
on_tick-last_connect f s m hv mem =
    let P : (State × List Msg) × Memory → Type 0 = λ r. r.0.0.last_connect ≡ s.last_connect in
    if_either P (hv.0 == s.id)
      (if_either P (is_timer s.timer hv.1) (insert_last-last_connect f s _ true) refl) refl

abbrev Keeps : State → (State × List Msg) × Memory → Type 0
Keeps s r = r.0.0.last_connect ≡ s.last_connect

pub in_method-last_connect :
    (f : Filter) (s : State) (m : Msg) (hv : ℕ × ℕ) (mem : Memory)
    → (in_method f s m hv mem).0.0.last_connect ≡ level f s.last_connect m
unfolding in_method
in_method-last_connect f s m hv mem = elim (Bool-cases (t2n m.type == 3)) [
  | inl e ↦
      (let a : (t2n m.type == 6) ≡ false = ground arith in
        let b : (t2n m.type == 2) ≡ false = ground arith in
        let t : (t2n m.type == 24) ≡ false = ground arith in
        let k : (t2n m.type == 14) ≡ false = ground arith in
        elim (Bool-cases (nonzero (bit_and (go1_o2v_modem_status f.pin) (mask2val m.val)))) [
          | inl d ↦ rw (a, b, t, k, e, d) (insert_connect_state-last_connect f s (start m) _)
          | inr d ↦ rw (a, b, t, k, e, d) refl
        ])
  | inr e ↦ elim (Bool-cases (t2n m.type == 14)) [
    | inl k ↦
        (let a : (t2n m.type == 6) ≡ false = ground arith in
          let b : (t2n m.type == 2) ≡ false = ground arith in
          let t : (t2n m.type == 24) ≡ false = ground arith in
          elim (Bool-cases (nonzero (bit_and f.pin go1_break_status))) [
            | inl d ↦ rw (a, b, t, k, e, d) (insert_connect_state-last_connect f s (start m) _)
            | inr d ↦ rw (a, b, t, k, e, d) refl
          ])
    | inr k ↦
        rw (e, k)
          (if_either (Keeps s) (t2n m.type == 6)
            (if_either (Keeps s) (go_o2i m.pv_val == 1) refl refl)
            (if_either (Keeps s) (t2n m.type == 2) refl
              (if_either (Keeps s) (t2n m.type == 24) (on_tick-last_connect f s m hv mem) refl)))
  ]
]
