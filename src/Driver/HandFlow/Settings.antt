-- ===== src/Driver/HandFlow/Settings.antt =====
-- `SetHandFlow` of com0com/sys/handflow.c: what it refuses, and what becomes of the pins.
use com0com.Base.{
  if_either, ◌+◌, ◌≤◌, ◌<◌, Bool, true, false, not, ◌&&◌, ◌||◌, ltb, if◌then◌else◌, Option, some,
  none, ◌≡◌, ◌⊎◌, refl, sym, ap₂, subst, Bool-cases, inl, inr, arith,
}
use com0com.Driver.HandFlow.{
  Line, off, control, handshake, other, HandFlow, Port, Lines, full, drained, is_handshake, switch,
  switch_if, set_remote, wired, invalid, renew_hand_flow, change_hand_flow,
  set_modem_status_holding, set_xon_holding, set_hand_flow, same_line, same,
}
use com0com.Driver.HandFlow.Remote.{
  consistent, parts, toggles, Settles, auto_receive-Received, set_hand_flow-Settles,
}
use com0com.Driver.HandFlow.Hysteresis.{level, high_mark, low_mark}

-- An error character is not for a port whose stream is escaped, and the limits fit the buffer.
abbrev pub Refused : HandFlow → Port → Type 0
Refused f p =
    ((p.escapes ≡ true) × (f.error_char ≡ true))
    ⊎ ((p.size < f.xon_limit) ⊎ (p.size < f.xoff_limit))

abbrev pub Accepted : HandFlow → Port → Type 0
Accepted f p =
    ((p.escapes && f.error_char) ≡ false) × (f.xon_limit ≤ p.size) × (f.xoff_limit ≤ p.size)

-- A pin set up for `l`: whether the other side is to wait for it, with `high` and `low` for more in
-- the buffer than the two marks.
abbrev pub waits_for : Line → Bool → Bool → Bool → Bool
waits_for handshake waits high low = high || (waits && low)
waits_for other waits high low = waits
waits_for _ waits high low = false

-- Its level: RTS and DTR are low where the other side is to wait.
abbrev pub shown : Line → Bool → Bool → Bool
shown off waits go = false
shown control waits go = true
shown handshake waits go = not waits
shown other waits go = go

-- A pin that was `waits` and `go` becomes `waits'` and `go'`, if it is set up.
abbrev pub Pin : Bool → Line → (Bool × Bool) → Bool → Bool → Bool → Bool → Type 0
Pin true l marks waits go waits' go' =
    (waits' ≡ waits_for l waits marks.0 marks.1) × (go' ≡ shown l waits' go)
Pin false l marks waits go waits' go' = (waits' ≡ waits) × (go' ≡ go)

abbrev pub marks_of : HandFlow → Port → Bool × Bool
marks_of f p = (ltb p.size (p.busy + f.xoff_limit), ltb f.xon_limit p.busy)

-- What accepted settings do, with `r` and `d` for the pins that are set up.
pub record Applied (r d : Bool) (f : HandFlow) (p : Port) (rts dtr : Bool) (q : Port × Lines)
    : Type 0 where
  pub stored : q.0.hand_flow ≡ f
  pub ends : consistent f q.0 ≡ true
  pub by_rts : Pin r f.rts (marks_of f p) p.remote.cts rts q.0.remote.cts (level q.1.rts rts)
  pub by_dtr : Pin d f.dtr (marks_of f p) p.remote.dsr dtr q.0.remote.dsr (level q.1.dtr dtr)

abbrev pub Outcome : Option HandFlow → Port → Bool → Bool → Option (Port × Lines) → Type 0
Outcome (some f) p rts dtr none = Refused f p
Outcome (some f) p rts dtr (some q) =
    Accepted f p
    × Applied (not (same_line p.hand_flow.rts f.rts)) (not (same_line p.hand_flow.dtr f.dtr)) f p
        rts dtr q
Outcome none p rts dtr none = ⊥
Outcome none p rts dtr (some q) = Applied true true p.hand_flow p rts dtr q

invalid-Refused : (f : HandFlow) (p : Port) → invalid f p ≡ true → Refused f p
invalid-Refused f p e = elim (Bool-cases (p.escapes && f.error_char)) [
  | inl a ↦ inl (ground arith, ground arith)
  | inr a ↦ elim (Bool-cases (ltb p.size f.xon_limit)) [
    | inl b ↦ inr (inl (ground arith))
    | inr b ↦ inr (inr (ground arith))
  ]
]

valid-Accepted : (f : HandFlow) (p : Port) → invalid f p ≡ false → Accepted f p
valid-Accepted f p e = (ground arith, ground arith, ground arith)

-- The `switch`, where a pin that is set up for handshake is low while it is waited for.
switch-Pin :
    (c : Bool) (l : Line) (w h d g : Bool)
    → (not c || not (is_handshake l) || not w || not g) ≡ true
    → Pin c l (h, not d) w g (switch_if c l w h d).0 (level (switch_if c l w h d).1 g)
unfolding switch
switch-Pin false l w h d g e = (refl, refl)
switch-Pin true off w h d g e = (refl, refl)
switch-Pin true control w h d g e = (refl, refl)
switch-Pin true handshake w true d g e = (refl, refl)
switch-Pin true handshake false false d g e = (refl, refl)
switch-Pin true handshake true false true g e = (refl, refl)
switch-Pin true handshake true false false true e = ground arith
switch-Pin true handshake true false false false e = (refl, refl)
switch-Pin true other w h d g e = (refl, refl)

-- The same, with the marks.
marked-Pin :
    (c : Bool) (l : Line) (w g : Bool) (f : HandFlow) (p : Port)
    → f.xoff_limit ≤ p.size
    → (not c || not (is_handshake l) || not w || not g) ≡ true
    → Pin c l
        (marks_of f p)
        w
        g
        (switch_if c l w (full f p) (drained f p)).0
        (level (switch_if c l w (full f p) (drained f p)).1 g)
marked-Pin c l w g f p v e =
    subst
      (λ m.
        Pin c l m w g (switch_if c l w (full f p) (drained f p)).0
          (level (switch_if c l w (full f p) (drained f p)).1 g))
      (ap₂ (λ (a b : Bool). (a, b)) (high_mark p.size f.xoff_limit p.busy v)
        (sym (low_mark f.xon_limit p.busy)))
      (switch-Pin c l w (full f p) (drained f p) g e)

abbrev Pins : Bool → Bool → HandFlow → Port → Bool → Bool → Port → Lines → Type 0
Pins r d f p rts dtr q l =
    Pin r f.rts (marks_of f p) p.remote.cts rts q.remote.cts (level l.rts rts)
    × Pin d f.dtr (marks_of f p) p.remote.dsr dtr q.remote.dsr (level l.dtr dtr)

-- A pin that is set up for handshake is low while it is waited for.
abbrev Low : Bool → Line → Bool → Bool → Type 0
Low c l w g = (not c || not (is_handshake l) || not w || not g) ≡ true

set_remote-Pins :
    (r d a : Bool) (f : HandFlow) (p : Port) (rts dtr : Bool)
    → f.xoff_limit ≤ p.size
    → Low r f.rts p.remote.cts rts
    → Low d f.dtr p.remote.dsr dtr
    → Pins r d f p rts dtr (set_remote r d a f p).0 (set_remote r d a f p).1
unfolding set_remote
set_remote-Pins r d false f p rts dtr v x y =
    (marked-Pin r f.rts p.remote.cts rts f p v x, marked-Pin d f.dtr p.remote.dsr dtr f p v y)
set_remote-Pins r d true f p rts dtr v x y =
    let k = auto_receive-Received f (wired r d f p) in
    (
      subst
          (λ w.
            Pin r f.rts (marks_of f p) p.remote.cts rts w
              (level (switch_if r f.rts p.remote.cts (full f p) (drained f p)).1 rts))
          (sym k.0.0) (marked-Pin r f.rts p.remote.cts rts f p v x),
      subst
          (λ w.
            Pin d f.dtr (marks_of f p) p.remote.dsr dtr w
              (level (switch_if d f.dtr p.remote.dsr (full f p) (drained f p)).1 dtr))
          (sym k.0.1) (marked-Pin d f.dtr p.remote.dsr dtr f p v y),
    )

-- SetXonXoffHolding before it makes no difference.
xon-Pins :
    (c r d a : Bool) (f : HandFlow) (p : Port) (rts dtr : Bool)
    → f.xoff_limit ≤ p.size
    → Low r f.rts p.remote.cts rts
    → Low d f.dtr p.remote.dsr dtr
    → Pins r d f p rts dtr
        (set_remote r d a f (if c then set_xon_holding p else p)).0
        (set_remote r d a f (if c then set_xon_holding p else p)).1
unfolding set_xon_holding
xon-Pins false r d a f p rts dtr v x y = set_remote-Pins r d a f p rts dtr v x y
xon-Pins true r d a f p rts dtr v x y =
    if_either (λ q. Pins r d f p rts dtr (set_remote r d a f q).0 (set_remote r d a f q).1)
      p.write_holding.xon (set_remote-Pins r d a f _ rts dtr v x y)
      (set_remote-Pins r d a f p rts dtr v x y)

-- Nor does SetModemStatusHolding behind it.
held-Pins :
    (c r d : Bool) (f : HandFlow) (p : Port) (rts dtr : Bool) (q : Port) (l : Lines)
    → Pins r d f p rts dtr q l
    → Pins r d f p rts dtr (if c then q else set_modem_status_holding q) l
unfolding set_modem_status_holding
held-Pins true r d f p rts dtr q l h = h
held-Pins false r d f p rts dtr q l h = h

or_true : (a b c : Bool) → (a || true || b || c) ≡ true
or_true true b c = refl
or_true false b c = refl

changed-Low :
    (g l : Line) (w b : Bool) → (is_handshake g || not w) ≡ true → Low (not (same_line g l)) l w b
changed-Low handshake handshake w b h = refl
changed-Low off handshake w b h = rw (h) refl
changed-Low control handshake w b h = rw (h) refl
changed-Low other handshake w b h = rw (h) refl
changed-Low g off w b h = or_true _ (not w) (not b)
changed-Low g control w b h = or_true _ (not w) (not b)
changed-Low g other w b h = or_true _ (not w) (not b)

anew-Low :
    (l : Line) (w b : Bool) → (not (is_handshake l) || same b (not w)) ≡ true → Low true l w b
anew-Low handshake true true h = ground arith
anew-Low handshake true false h = refl
anew-Low handshake false b h = refl
anew-Low off w b h = refl
anew-Low control w b h = refl
anew-Low other w b h = refl

renew-Pins :
    (p : Port) (rts dtr : Bool)
    → p.hand_flow.xoff_limit ≤ p.size
    → (not (is_handshake p.hand_flow.rts) || same rts (not p.remote.cts)) ≡ true
    → (not (is_handshake p.hand_flow.dtr) || same dtr (not p.remote.dsr)) ≡ true
    → Pins true true p.hand_flow p rts dtr (renew_hand_flow p).0 (renew_hand_flow p).1
unfolding renew_hand_flow set_modem_status_holding
renew-Pins p rts dtr v x y =
    set_remote-Pins true true true p.hand_flow
      (record p { write_holding = record (p.write_holding) { xon = false } }) rts dtr v
      (anew-Low p.hand_flow.rts p.remote.cts rts x) (anew-Low p.hand_flow.dtr p.remote.dsr dtr y)

change-Pins :
    (f : HandFlow) (p : Port) (rts dtr : Bool)
    → consistent p.hand_flow p ≡ true
    → f.xoff_limit ≤ p.size
    → Pins
        (not (same_line p.hand_flow.rts f.rts))
        (not (same_line p.hand_flow.dtr f.dtr))
        f
        p
        rts
        dtr
        (change_hand_flow f p).0
        (change_hand_flow f p).1
unfolding change_hand_flow
change-Pins f p rts dtr c v =
    let g = p.hand_flow in
    let h = parts g p c in
    let q = if g.auto_transmit && not f.auto_transmit then set_xon_holding p else p in
    let r =
      set_remote (not (same_line g.rts f.rts)) (not (same_line g.dtr f.dtr))
        (not (same g.auto_receive f.auto_receive)) f q in
    held-Pins _ _ _ f p rts dtr _ r.1 (
      xon-Pins (g.auto_transmit && not f.auto_transmit) _ _ _ f p rts dtr v
        (changed-Low g.rts f.rts p.remote.cts rts h.0)
        (changed-Low g.dtr f.dtr p.remote.dsr dtr h.1))

-- SetHandFlow refuses settings just if they ask for an error character in an escaped stream or have a
-- limit over the size of the buffer. Others become those of the port, and leave the remote side
-- waiting only for what they can end. A pin whose setting changes, and with no new settings each
-- pin, goes low without and high with a _CONTROL setting; for handshake the remote side waits for it just if the
-- buffer is filled above the high mark, or it waited before and the buffer is above the low
-- mark, and the pin is low just while it waits. The other pins stay. This is for a port
-- whose remote side waits only for what its settings can end, with limits up to the size of the
-- buffer and handshake pins low just while waited for, where no pin that is waited for becomes
-- SERIAL_TRANSMIT_TOGGLE.
pub set_hand_flow-Outcome :
    (o : Option HandFlow) (p : Port) (rts dtr : Bool)
    → consistent p.hand_flow p ≡ true
    → (not (is_handshake p.hand_flow.rts) || same rts (not p.remote.cts)) ≡ true
    → (not (is_handshake p.hand_flow.dtr) || same dtr (not p.remote.dsr)) ≡ true
    → toggles o p ≡ false
    → Outcome o p rts dtr (set_hand_flow o p)
unfolding set_hand_flow
set_hand_flow-Outcome none p rts dtr c x y w =
    let s = set_hand_flow-Settles none p c w in
    let h = parts p.hand_flow p c in
    let n = renew-Pins p rts dtr (ground (arith, h.4)) x y in
    record { stored = s.0; ends = s.1; by_rts = n.0; by_dtr = n.1 }
set_hand_flow-Outcome (some f) p rts dtr c x y w = elim (Bool-cases (invalid f p)) [
  | inl v ↦ rw (v) (invalid-Refused f p v)
  | inr v ↦
      (let s : Settles (some f) p (some (change_hand_flow f p)) =
          subst (λ b. Settles (some f) p (if b then none else some (change_hand_flow f p))) v
            (set_hand_flow-Settles (some f) p c w) in
        let a = valid-Accepted f p v in
        let n = change-Pins f p rts dtr c a.2 in
        rw (v) (a, record { stored = s.0; ends = s.1; by_rts = n.0; by_dtr = n.1 }))
]
