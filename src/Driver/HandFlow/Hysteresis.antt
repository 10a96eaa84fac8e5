-- ===== src/Driver/HandFlow/Hysteresis.antt =====
-- `UpdateHandFlow` of com0com/sys/handflow.c over many calls: when the other side is held, and what it
-- has been told by the pins, XON and XOFF.
use com0com.Base.{
  ℕ, ◌+◌, ◌-◌, ◌≤◌, Bool, true, false, not, ◌&&◌, ◌||◌, ltb, leb, List, [], ◌∷◌, if◌then◌else◌,
  Option, some, none, ◌≡◌, refl, sym, subst, Bool-cases, inl, inr, arith,
}
use com0com.Driver.HandFlow.{
  HandFlow, Port, Xchar, xchar_none, xchar_on, xchar_off, full, drained, any, is_handshake, same,
  update_hand_flow, hold, release,
}

-- A call of UpdateHandFlow: whether characters were read or came in, how many are in the buffer then,
-- and whether the XON or XOFF that waited has gone out since the call before.
pub record Call : Type 0 where
  pub freed : Bool
  pub busy : ℕ
  pub sent : Bool

-- A port, the levels of its RTS and DTR, and whether the last of XON and XOFF that went out is XOFF.
pub record Side : Type 0 where
  pub port : Port
  pub rts : Bool
  pub dtr : Bool
  pub stopped : Bool

-- SetModemControl on one pin.
abbrev pub level : Option Bool → Bool → Bool
level none b = b
level (some b) _ = b

-- Whether the other side may send, by what went out or waits to go out.
abbrev pub clear : Xchar → Bool → Bool
clear xchar_none stopped = not stopped
clear xchar_on stopped = true
clear xchar_off stopped = false

abbrev pub call : Call → Side → Side
call c s =
    let x = s.port.send_xon_xoff in
    let p = record (s.port) { busy = c.busy; send_xon_xoff = if c.sent then xchar_none else x } in
    let r = update_hand_flow c.freed p in
    record {
      port = r.0;
      rts = level r.1.rts s.rts;
      dtr = level r.1.dtr s.dtr;
      stopped = if c.sent then not (clear x s.stopped) else s.stopped;
    }

abbrev pub calls : List Call → Side → Side
calls [] s = s
calls (c ∷ cs) s = calls cs (call c s)

-- Held from above the high mark, with XoffLimit bytes free, down to the low mark of XonLimit bytes.
abbrev pub hysteresis : HandFlow → ℕ → Bool → Call → Bool
hysteresis f size held c =
    if c.freed then held && ltb f.xon_limit c.busy else held || ltb size (c.busy + f.xoff_limit)

abbrev pub held_by : HandFlow → ℕ → Bool → List Call → Bool
held_by f size held [] = held
held_by f size held (c ∷ cs) = held_by f size (hysteresis f size held c) cs

-- One way to hold the other side, `on` if the settings ask for it: the port waits on it, and the other
-- side is told to wait, just while it is held.
abbrev pub Way : Bool → Bool → Bool → Bool → Type 0
Way on waits go held = (waits ≡ (held && on)) × ((not on || same go (not held)) ≡ true)

-- RTS, DTR, and XON and XOFF.
pub record Told (held : Bool) (s : Side) : Type 0 where
  pub by_rts : Way (is_handshake s.port.hand_flow.rts) s.port.remote.cts s.rts held
  pub by_dtr : Way (is_handshake s.port.hand_flow.dtr) s.port.remote.dsr s.dtr held
  pub by_xoff :
      Way s.port.hand_flow.auto_receive s.port.remote.xon
        (clear s.port.send_xon_xoff s.stopped)
        held

held-Way :
    (on w g held : Bool)
    → Way on w g held
    → Way on (w || on) (level (if on then some false else none) g) true
held-Way true true g held h = (refl, refl)
held-Way true false g held h = (refl, refl)
held-Way false true g held h = ground arith
held-Way false false g held h = (refl, refl)

freed-Way :
    (on w g held : Bool)
    → Way on w g held
    → Way on (w && not on) (level (if on then some true else none) g) false
freed-Way true true g held h = (refl, refl)
freed-Way true false g held h = (refl, refl)
freed-Way false true g held h = ground arith
freed-Way false false g held h = (refl, refl)

-- What is not waited for is not held.
idle-Way : (on w g held b : Bool) → Way on w g held → w ≡ false → Way on w g (held && b)
idle-Way true w g true b h e = ground arith
idle-Way true w g false b h e = h
idle-Way false w g true b h e = ground arith
idle-Way false w g false b h e = h

held_char :
    (on : Bool) (x : Xchar) (stopped : Bool)
    → level (if on then some false else none) (clear x stopped)
      ≡ clear (if on then xchar_off else x) stopped
held_char true x stopped = refl
held_char false x stopped = refl

freed_char :
    (on : Bool) (x : Xchar) (stopped : Bool)
    → level (if on then some true else none) (clear x stopped)
      ≡ clear (if on then xchar_on else x) stopped
freed_char true x stopped = refl
freed_char false x stopped = refl

-- The side behind a call of UpdateHandFlow.
abbrev updated : Bool → Side → Side
updated freed s =
    let r = update_hand_flow freed s.port in
    record s { port = r.0; rts = level r.1.rts s.rts; dtr = level r.1.dtr s.dtr }

hold-Told :
    (s : Side) (held : Bool)
    → Told held s
    → Told true (record s {
      port = (hold s.port).0;
      rts = level (hold s.port).1.rts s.rts;
      dtr = level (hold s.port).1.dtr s.dtr;
    })
hold-Told s held h =
    let f = s.port.hand_flow in
    let a = f.auto_receive in
    let x = held-Way a s.port.remote.xon _ held h.by_xoff in
    record {
      by_rts = held-Way (is_handshake f.rts) s.port.remote.cts s.rts held h.by_rts;
      by_dtr = held-Way (is_handshake f.dtr) s.port.remote.dsr s.dtr held h.by_dtr;
      by_xoff =
          subst (λ g. Way a (s.port.remote.xon || a) g true)
            (held_char a s.port.send_xon_xoff s.stopped) x;
    }

release-Told :
    (s : Side) (held : Bool)
    → Told held s
    → Told false (record s {
      port = (release s.port).0;
      rts = level (release s.port).1.rts s.rts;
      dtr = level (release s.port).1.dtr s.dtr;
    })
release-Told s held h =
    let f = s.port.hand_flow in
    let a = f.auto_receive in
    let x = freed-Way a s.port.remote.xon _ held h.by_xoff in
    record {
      by_rts = freed-Way (is_handshake f.rts) s.port.remote.cts s.rts held h.by_rts;
      by_dtr = freed-Way (is_handshake f.dtr) s.port.remote.dsr s.dtr held h.by_dtr;
      by_xoff =
          subst (λ g. Way a (s.port.remote.xon && not a) g false)
            (freed_char a s.port.send_xon_xoff s.stopped) x;
    }

idle-Told :
    (s : Side) (held b : Bool) → Told held s → any s.port.remote ≡ false → Told (held && b) s
idle-Told s held b h e =
    let c : s.port.remote.cts ≡ false = ground (arith, e) in
    let d : s.port.remote.dsr ≡ false = ground (arith, e) in
    let x : s.port.remote.xon ≡ false = ground (arith, e) in
    record {
      by_rts = idle-Way _ _ _ held b h.by_rts c;
      by_dtr = idle-Way _ _ _ held b h.by_dtr d;
      by_xoff = idle-Way _ _ _ held b h.by_xoff x;
    }

held_if_any :
    (held c d x r e a : Bool)
    → c ≡ (held && r)
    → d ≡ (held && e)
    → x ≡ (held && a)
    → (c || d || x) ≡ true
    → held ≡ true
held_if_any true c d x r e a hc hd hx h = refl
held_if_any false c d x r e a hc hd hx h = ground arith

Told-held : (s : Side) (held : Bool) → Told held s → any s.port.remote ≡ true → held ≡ true
Told-held s held h e =
    held_if_any held s.port.remote.cts s.port.remote.dsr s.port.remote.xon _ _ _ h.by_rts.0
      h.by_dtr.0 h.by_xoff.0 e

pub high_mark : (size xoff n : ℕ) → xoff ≤ size → ltb (size - xoff) n ≡ ltb size (n + xoff)
high_mark size xoff n e = ground arith

pub low_mark : (xon n : ℕ) → ltb xon n ≡ not (leb n xon)
low_mark xon n = ground arith

update-Told :
    (freed : Bool) (s : Side) (held : Bool)
    → s.port.hand_flow.xoff_limit ≤ s.port.size
    → Told held s
    → Told
        (if freed
          then held && ltb s.port.hand_flow.xon_limit s.port.busy
          else held || ltb s.port.size (s.port.busy + s.port.hand_flow.xoff_limit))
        (updated freed s)
unfolding update_hand_flow
update-Told true s held l h =
    let p = s.port in
    let f = p.hand_flow in
    elim (Bool-cases (any p.remote)) [
      | inl a ↦ elim (Bool-cases (drained f p)) [
        | inl d ↦
            (let k : (held && ltb f.xon_limit p.busy) ≡ false = ground (arith, d) in
              rw (a, d, k) (release-Told s held h))
        | inr d ↦
            (let k : (held && ltb f.xon_limit p.busy) ≡ held = ground (arith, d) in rw (a, d, k) h)
      ]
      | inr a ↦ rw (a) (idle-Told s held (ltb f.xon_limit p.busy) h a)
    ]
update-Told false s held l h =
    let p = s.port in
    let f = p.hand_flow in
    let m = high_mark p.size f.xoff_limit p.busy l in
    elim (Bool-cases (any p.remote)) [
      | inl a ↦
          (let e = Told-held s held h a in
            let k : (held || ltb p.size (p.busy + f.xoff_limit)) ≡ held = ground (arith, e) in
            rw (a, k) h)
      | inr a ↦ elim (Bool-cases (full f p)) [
        | inl d ↦
            (let k : (held || ltb p.size (p.busy + f.xoff_limit)) ≡ true = ground (arith, m, d) in
              rw (a, d, k) (hold-Told s held h))
        | inr d ↦
            (let k : (held || ltb p.size (p.busy + f.xoff_limit)) ≡ held = ground (arith, m, d) in
              rw (a, d, k) h)
      ]
    ]

-- The port as a call finds it.
abbrev found : Call → Side → Side
found c s =
    let x = s.port.send_xon_xoff in
    record s {
      port = record (s.port) { busy = c.busy; send_xon_xoff = if c.sent then xchar_none else x };
      stopped = if c.sent then not (clear x s.stopped) else s.stopped;
    }

gone_out :
    (b : Bool) (x : Xchar) (stopped : Bool)
    → clear x stopped
      ≡ clear (if b then xchar_none else x) (if b then not (clear x stopped) else stopped)
gone_out false x stopped = refl
gone_out true xchar_none true = refl
gone_out true xchar_none false = refl
gone_out true xchar_on stopped = refl
gone_out true xchar_off stopped = refl

found-Told : (c : Call) (s : Side) (held : Bool) → Told held s → Told held (found c s)
found-Told c s held h = record {
  by_rts = h.by_rts;
  by_dtr = h.by_dtr;
  by_xoff =
      subst (λ g. Way s.port.hand_flow.auto_receive s.port.remote.xon g held)
        (gone_out c.sent s.port.send_xon_xoff s.stopped) h.by_xoff;
}

abbrev SameSettings : Port → Port → Type 0
SameSettings p q = (q.hand_flow ≡ p.hand_flow) × (q.size ≡ p.size)

update-SameSettings : (freed : Bool) (p : Port) → SameSettings p (update_hand_flow freed p).0
unfolding update_hand_flow
update-SameSettings freed p = elim (Bool-cases (any p.remote)) [
  | inl a ↦ elim (Bool-cases (freed && drained p.hand_flow p)) [
    | inl d ↦ rw (a, d) (refl, refl)
    | inr d ↦ rw (a, d) (refl, refl)
  ]
  | inr a ↦ elim (Bool-cases (not freed && full p.hand_flow p)) [
    | inl d ↦ rw (a, d) (refl, refl)
    | inr d ↦ rw (a, d) (refl, refl)
  ]
]

-- Over any calls of UpdateHandFlow the other side is held by the rule of hysteresis: from more bytes in
-- the buffer than leave XoffLimit free, as characters come in, until no more than XonLimit are left,
-- as they are read. All along, on each of RTS, DTR and XON/XOFF that the settings ask for, the port
-- waits, and the pin is low or the last of XON and XOFF that went or is to go out is XOFF, just
-- while the other side is held. This is for an XoffLimit up to the size of the buffer, settings that do
-- not change, and a port where that is so before.
pub calls-Told :
    (cs : List Call) (s : Side) (held : Bool)
    → s.port.hand_flow.xoff_limit ≤ s.port.size
    → Told held s
    → Told (held_by s.port.hand_flow s.port.size held cs) (calls cs s)
calls-Told [] s held l h = h
calls-Told (c ∷ cs) s held l h =
    let f = s.port.hand_flow in
    let t = call c s in
    let e = update-SameSettings c.freed (found c s).port in
    let u : Told (hysteresis f s.port.size held c) t =
      update-Told c.freed (found c s) held l (found-Told c s held h) in
    let m : t.port.hand_flow.xoff_limit ≤ t.port.size =
      subst (λ n. t.port.hand_flow.xoff_limit ≤ n) (sym e.1)
        (subst (λ g. g.xoff_limit ≤ s.port.size) (sym e.0) l) in
    let rest = calls-Told cs t (hysteresis f s.port.size held c) m u in
    subst (λ g. Told (held_by g s.port.size (hysteresis f s.port.size held c) cs) (calls cs t)) e.0
      (subst
        (λ n. Told (held_by t.port.hand_flow n (hysteresis f s.port.size held c) cs) (calls cs t))
        e.1 rest)
