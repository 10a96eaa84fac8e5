-- ===== src/Plugins/Pin2Con/Connection.antt =====
-- The connections that hub4com/plugins/pin2con/filter.cpp reports.
use com0com.Base.{
  if_either, ℕ, Bool, true, false, not, ◌&&◌, ◌||◌, List, [], ◌∷◌, ◌==◌, nonzero, if◌then◌else◌,
  Option, some, none, ◌≡◌, refl, ap, Bool-cases, inl, inr, arith,
}
use com0com.Hub.Word.{t2n, go_o2i}
use com0com.Hub.Memory.{Memory}
use com0com.Hub.Msg.{Msg, clean}
use com0com.Hub.Chain.{start, messages, insert_val, replace_none}
use com0com.Plugins.Pin2Con.{
  Filter, State, same, bool_val, with_timer, insert_last, is_timer, insert_connect_state, on_tick,
  in_method,
}

-- The connections that a chain reports.
abbrev pub reports : List Msg → List Bool
reports [] = []
reports (m ∷ ms) = if t2n m.type == 2 then nonzero m.val ∷ reports ms else reports ms

-- The state behind some reports, where each is another than the one before.
abbrev pub alternate : Bool → List Bool → Option Bool
alternate b [] = some b
alternate b (x ∷ xs) = if same b x then none else alternate x xs

abbrev is_some : Option ℕ → Bool
is_some none = false
is_some (some t) = true

-- The connection is as the pin, or the pin has fallen and the timer for that runs.
abbrev pub up_to_date : Filter → State → Bool
up_to_date f s =
    same s.connect s.last_connect
    || ((not s.last_connect && nonzero f.delay_disconnect) && is_some s.timer)

abbrev Right : Filter → State → State × List Msg → Type 0
Right f s r = (alternate s.connect (reports r.1) ≡ some r.0.connect) × (up_to_date f r.0 ≡ true)

pub same_refl : (b : Bool) → same b b ≡ true
same_refl true = refl
same_refl false = refl

same-flip :
    (c l : Bool)
    → same c l ≡ false
    → (if same c (nonzero (bool_val l)) then none else some (nonzero (bool_val l))) ≡ some l
same-flip true true e = ground arith
same-flip true false e = refl
same-flip false true e = refl
same-flip false false e = ground arith

or_left : {a : Bool} (b : Bool) → a ≡ true → (a || b) ≡ true
or_left b e = ap (λ x. x || b) e

or_right : (a : Bool) {b : Bool} → b ≡ true → (a || b) ≡ true
or_right true e = refl
or_right false e = e

flip-Right :
    (f : Filter) (s : State)
    → same s.connect s.last_connect ≡ false
    → (t : Bool)
    → ((if same s.connect (nonzero (bool_val s.last_connect))
          then none
          else some (nonzero (bool_val s.last_connect)))
        ≡ some s.last_connect)
      × ((same s.last_connect s.last_connect || t) ≡ true)
flip-Right f s e t = (same-flip s.connect s.last_connect e, or_left t (same_refl s.last_connect))

with_timer-Right :
    (f : Filter) (s : State) (o : Option ℕ)
    → s.timer ≡ o
    → (not s.last_connect && nonzero f.delay_disconnect) ≡ true
    → Right f s (with_timer s, [])
with_timer-Right f s none e d = rw (e, d) (refl, or_right (same s.connect s.last_connect) refl)
with_timer-Right f s (some t) e d = rw (e, d) (refl, or_right (same s.connect s.last_connect) refl)

-- A fall of the pin that is to be delayed, and its time-out.
delayed-Right :
    (f : Filter) (s : State) (m : Msg) (timeout : Bool)
    → (t2n m.type == 2) ≡ false
    → same s.connect s.last_connect ≡ false
    → (not s.last_connect && nonzero f.delay_disconnect) ≡ true
    → Right f s
        ((insert_last f s (start m) timeout).0, messages (insert_last f s (start m) timeout).1)
unfolding insert_last insert_val
delayed-Right f s m true n e d = rw (e, d, n) (flip-Right f s e _)
delayed-Right f s m false n e d = rw (e, d, n) (with_timer-Right f s s.timer refl d)

-- A message with no report in it before.
insert_last-Right :
    (f : Filter) (s : State) (m : Msg) (timeout : Bool)
    → (t2n m.type == 2) ≡ false
    → Right f s
        ((insert_last f s (start m) timeout).0, messages (insert_last f s (start m) timeout).1)
unfolding insert_last insert_val
insert_last-Right f s m timeout n = elim (Bool-cases (same s.connect s.last_connect)) [
  | inl e ↦ rw (e, n) (refl, or_left _ e)
  | inr e ↦ elim (Bool-cases (not s.last_connect && nonzero f.delay_disconnect)) [
    | inl d ↦ delayed-Right f s m timeout n e d
    | inr d ↦ rw (e, d, n) (flip-Right f s e _)
  ]
]

insert_connect_state-Right :
    (f : Filter) (s : State) (m : Msg) (b : Bool)
    → (t2n m.type == 2) ≡ false
    → Right f s (
      (insert_connect_state f s (start m) b).0,
      messages (insert_connect_state f s (start m) b).1,
    )
unfolding insert_connect_state
insert_connect_state-Right f s m b n =
    insert_last-Right f (record s { last_connect = if f.negative then not b else b }) m false n

unchanged-Right :
    (f : Filter) (s : State) (m : Msg)
    → up_to_date f s ≡ true
    → (t2n m.type == 2) ≡ false
    → Right f s (s, m ∷ [])
unchanged-Right f s m u n = rw (n) (refl, u)

on_tick-Right :
    (f : Filter) (s : State) (m : Msg) (hv : ℕ × ℕ) (mem : Memory)
    → up_to_date f s ≡ true
    → (t2n m.type == 2) ≡ false
    → Right f s (on_tick f s m hv mem).0
unfolding on_tick replace_none clean
on_tick-Right f s m hv mem u n = elim (Bool-cases (hv.0 == s.id)) [
  | inl e ↦ elim (Bool-cases (is_timer s.timer hv.1)) [
    | inl t ↦ rw (e, t) (insert_last-Right f s _ true refl)
    | inr t ↦ rw (e, t) (refl, u)
  ]
  | inr e ↦ rw (e) (unchanged-Right f s m u n)
]

pub in_method-Right :
    (f : Filter) (s : State) (m : Msg) (hv : ℕ × ℕ) (mem : Memory)
    → up_to_date f s ≡ true
    → Right f s (in_method f s m hv mem).0
unfolding in_method replace_none clean
in_method-Right f s m hv mem u =
    let P : (State × List Msg) × Memory → Type 0 = λ r. Right f s r.0 in
    elim (Bool-cases (t2n m.type == 2)) [
      | inl e ↦ (let a : (t2n m.type == 6) ≡ false = ground arith in rw (a, e) (refl, u))
      | inr n ↦
          (let w = unchanged-Right f s m u n in
            if_either P (t2n m.type == 6) (if_either P (go_o2i m.pv_val == 1) w w) (
              rw (n) (
                if_either P (t2n m.type == 24) (on_tick-Right f s m hv mem u n) (
                  if_either P (t2n m.type == 3)
                    (if_either P _ (insert_connect_state-Right f s m _ n) w)
                    (if_either P (t2n m.type == 14)
                      (if_either P _ (insert_connect_state-Right f s m _ n) w) w)))))
    ]
