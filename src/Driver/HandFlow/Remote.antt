-- ===== src/Driver/HandFlow/Remote.antt =====
-- How com0com/sys/handflow.c holds the remote side and lets it go.
use com0com.Base.{
  Bool, true, false, not, ◌&&◌, ◌||◌, leb, if◌then◌else◌, Option, none, some, ◌≡◌, refl, Bool-cases,
  inl, inr, arith,
}
use com0com.Driver.HandFlow.{
  Line, off, control, handshake, other, HandFlow, Port, Lines, full, drained, is_handshake, switch,
  auto_receive, set_remote, invalid, renew_hand_flow, change_hand_flow, set_modem_status_holding,
  set_xon_holding, set_hand_flow, same_line, same, switch_if, wired,
}

-- The remote side waits only for what the settings can end, and the limits fit the buffer.
abbrev pub consistent : HandFlow → Port → Bool
consistent f p =
    (is_handshake f.rts || not p.remote.cts)
    && ((is_handshake f.dtr || not p.remote.dsr)
        && ((f.auto_receive || not p.remote.xon)
            && (leb f.xon_limit p.size && leb f.xoff_limit p.size)))

abbrev pub is_other : Line → Bool
is_other other = true
is_other _ = false

-- A pin that is waited for gets a setting without a case in the `switch`.
abbrev pub keeps_waiting : HandFlow → Port → Bool
keeps_waiting f p = (is_other f.rts && p.remote.cts) || (is_other f.dtr && p.remote.dsr)

pub and_true : (a b : Bool) → (a && b) ≡ true → (a ≡ true) × (b ≡ true)
and_true true b h = (refl, h)
and_true false b h = cc

-- The parts of `consistent`.
abbrev pub Parts : HandFlow → Port → Type 0
Parts f p =
    ((is_handshake f.rts || not p.remote.cts) ≡ true)
    × ((is_handshake f.dtr || not p.remote.dsr) ≡ true)
    × ((f.auto_receive || not p.remote.xon) ≡ true)
    × (leb f.xon_limit p.size ≡ true)
    × (leb f.xoff_limit p.size ≡ true)

pub joined : (f : HandFlow) (p : Port) → Parts f p → consistent f p ≡ true
joined f p h = rw (h.0, h.1, h.2, h.3, h.4) refl

pub parts : (f : HandFlow) (p : Port) → consistent f p ≡ true → Parts f p
parts f p h =
    let a = and_true _ _ h in
    let b = and_true _ _ a.1 in
    let c = and_true _ _ b.1 in let d = and_true _ _ c.1 in (a.0, b.0, c.0, d.0, d.1)

switched :
    (g l : Line) (waits f d : Bool)
    → (is_handshake g || not waits) ≡ true
    → (is_other l && waits) ≡ false
    → (is_handshake l || not (switch_if (not (same_line g l)) l waits f d).0) ≡ true
unfolding switch
switched g handshake waits f d h o = refl
switched off off waits f d h o = h
switched control off waits f d h o = refl
switched handshake off waits f d h o = refl
switched other off waits f d h o = refl
switched off control waits f d h o = refl
switched control control waits f d h o = h
switched handshake control waits f d h o = refl
switched other control waits f d h o = refl
switched off other waits f d h o = rw o refl
switched control other waits f d h o = rw o refl
switched handshake other waits f d h o = rw o refl
switched other other waits f d h o = h

abbrev pub toggles : Option HandFlow → Port → Bool
toggles none p = false
toggles (some f) p = keeps_waiting f p

switched_anew :
    (l : Line) (waits f d : Bool)
    → (is_handshake l || not waits) ≡ true
    → (is_handshake l || not (switch l waits f d).0) ≡ true
unfolding switch
switched_anew handshake waits f d h = refl
switched_anew off waits f d h = refl
switched_anew control waits f d h = refl
switched_anew other waits f d h = h

-- What XON and XOFF leave as it is.
abbrev pub Keeps : Port → Port → Type 0
Keeps p q =
    (q.remote.cts ≡ p.remote.cts)
    × (q.remote.dsr ≡ p.remote.dsr)
    × (q.size ≡ p.size)
    × (q.hand_flow ≡ p.hand_flow)

abbrev pub Received : HandFlow → Port → Port → Type 0
Received f p q = Keeps p q × ((f.auto_receive || not q.remote.xon) ≡ true)

pub auto_receive-Received : (f : HandFlow) (p : Port) → Received f p (auto_receive f p)
unfolding auto_receive
auto_receive-Received f p = elim (Bool-cases f.auto_receive) [
  | inl a ↦ elim (Bool-cases (full f p)) [
    | inl u ↦ rw (a, u) ((refl, refl, refl, refl), refl)
    | inr u ↦ rw (a, u) ((refl, refl, refl, refl), refl)
  ]
  | inr a ↦ elim (Bool-cases p.remote.xon) [
    | inl x ↦ rw (a, x) ((refl, refl, refl, refl), refl)
    | inr x ↦ rw (a, x) ((refl, refl, refl, refl), refl)
  ]
]

abbrev Limits : HandFlow → Port → Type 0
Limits f p = (leb f.xon_limit p.size ≡ true) × (leb f.xoff_limit p.size ≡ true)

fits :
    (f : HandFlow) (p q : Port)
    → Keeps p q
    → (is_handshake f.rts || not p.remote.cts) ≡ true
    → (is_handshake f.dtr || not p.remote.dsr) ≡ true
    → (f.auto_receive || not q.remote.xon) ≡ true
    → Limits f p
    → consistent f q ≡ true
fits f p q k r d x v = rw (k.0, k.1, k.2, r, d, x, v.0, v.1) refl

-- The whole remote side, where what is waited for has an end in the settings `f` or changes.
abbrev Settled : HandFlow → Port → Port → Type 0
Settled f p q = (consistent f q ≡ true) × (q.hand_flow ≡ p.hand_flow)

remote-Settled :
    (r d a : Bool) (f : HandFlow) (p : Port)
    → (is_handshake f.rts || not (switch_if r f.rts p.remote.cts (full f p) (drained f p)).0) ≡ true
    → (is_handshake f.dtr || not (switch_if d f.dtr p.remote.dsr (full f p) (drained f p)).0) ≡ true
    → (a || f.auto_receive || not p.remote.xon) ≡ true
    → Limits f p
    → Settled f p (set_remote r d a f p).0
unfolding set_remote
remote-Settled r d true f p hr hd hx v =
    let q = wired r d f p in
    let k = auto_receive-Received f q in (fits f q (auto_receive f q) k.0 hr hd k.1 v, k.0.3)
remote-Settled r d false f p hr hd hx v =
    let q = wired r d f p in (fits f q q (refl, refl, refl, refl) hr hd hx v, refl)

-- What SetModemStatusHolding and SetXonXoffHolding leave as it is.
set_modem_status_holding-consistent :
    (f : HandFlow) (p : Port) → consistent f (set_modem_status_holding p) ≡ consistent f p
unfolding set_modem_status_holding
set_modem_status_holding-consistent f p = refl

abbrev pub SameRemote : Port → Port → Type 0
SameRemote p q =
    (q.remote ≡ p.remote)
    × (q.size ≡ p.size)
    × (q.escapes ≡ p.escapes)
    × (q.hand_flow ≡ p.hand_flow)

pub set_xon_holding-SameRemote : (p : Port) → SameRemote p (set_xon_holding p)
unfolding set_xon_holding
set_xon_holding-SameRemote p = elim (Bool-cases p.write_holding.xon) [
  | inl h ↦ rw h (refl, refl, refl, refl)
  | inr h ↦ rw h (refl, refl, refl, refl)
]

-- What SetHandFlow does: invalid settings are refused, and others are stored and leave the remote
-- side waiting only for what they can end; with no settings those of the port stay.
abbrev pub Settles : Option HandFlow → Port → Option (Port × Lines) → Type 0
Settles (some f) p none = invalid f p ≡ true
Settles (some f) p (some r) = (r.0.hand_flow ≡ f) × (consistent f r.0 ≡ true)
Settles none p none = ⊥
Settles none p (some r) = (r.0.hand_flow ≡ p.hand_flow) × (consistent p.hand_flow r.0 ≡ true)

renew-Settles :
    (p : Port) → consistent p.hand_flow p ≡ true → Settles none p (some (renew_hand_flow p))
unfolding renew_hand_flow set_modem_status_holding
renew-Settles p c =
    let f = p.hand_flow in
    let h = parts f p c in
    let s =
      remote-Settled true true true f
        (record p { write_holding = record (p.write_holding) { xon = false } })
        (switched_anew f.rts p.remote.cts (full f p) (drained f p) h.0)
        (switched_anew f.dtr p.remote.dsr (full f p) (drained f p) h.1) refl (h.3, h.4) in
    (s.1, s.0)

-- The flag for XON, where the settings for it change or stay.
xon_kept : (g a x : Bool) → (g || not x) ≡ true → (not (same g a) || a || not x) ≡ true
xon_kept true true x h = refl
xon_kept true false x h = refl
xon_kept false true x h = refl
xon_kept false false x h = h

-- The port before the change from the settings `g` to the settings `f`.
abbrev Ready : HandFlow → HandFlow → Port → Type 0
Ready g f p = Parts g p × (keeps_waiting f p ≡ false) × Limits f p

changed-Settled :
    (g f : HandFlow) (p : Port)
    → Ready g f p
    → Settled f p
        (set_remote
          (not (same_line g.rts f.rts))
          (not (same_line g.dtr f.dtr))
          (not (same g.auto_receive f.auto_receive))
          f
          p).0
changed-Settled g f p r =
    let h = r.0 in
    let w = r.1 in
    let c : (is_other f.rts && p.remote.cts) ≡ false = ground arith in
    let d : (is_other f.dtr && p.remote.dsr) ≡ false = ground arith in
    remote-Settled _ _ _ f p (switched g.rts f.rts p.remote.cts (full f p) (drained f p) h.0 c)
      (switched g.dtr f.dtr p.remote.dsr (full f p) (drained f p) h.1 d)
      (xon_kept g.auto_receive f.auto_receive p.remote.xon h.2) r.2

set_xon_holding-Ready :
    (g f : HandFlow) (p : Port) (c : Bool)
    → Ready g f p
    → Ready g f (if c then set_xon_holding p else p)
unfolding set_xon_holding
set_xon_holding-Ready g f p false r = r
set_xon_holding-Ready g f p true r = elim (Bool-cases p.write_holding.xon) [
  | inl h ↦ rw h r
  | inr h ↦ rw h r
]

same_or_held :
    (f : HandFlow) (q : Port) (c : Bool)
    → (q.hand_flow ≡ f) × (consistent f q ≡ true)
    → ((if c then q else set_modem_status_holding q).hand_flow ≡ f)
      × (consistent f (if c then q else set_modem_status_holding q) ≡ true)
unfolding set_modem_status_holding
same_or_held f q true h = h
same_or_held f q false h = h

-- Settings that SetHandFlow does not refuse become those of the port, and leave the remote
-- side waiting only for what they can end; with no settings, those of the port stay and do so. This
-- is for a port whose remote side waits only for what its settings can end, with limits up to the
-- size of the buffer, where no pin that is waited for becomes SERIAL_TRANSMIT_TOGGLE.
pub set_hand_flow-Settles :
    (o : Option HandFlow) (p : Port)
    → consistent p.hand_flow p ≡ true
    → toggles o p ≡ false
    → Settles o p (set_hand_flow o p)
unfolding set_hand_flow change_hand_flow
set_hand_flow-Settles none p c w = renew-Settles p c
set_hand_flow-Settles (some f) p c w = elim (Bool-cases (invalid f p)) [
  | inl v ↦ rw v v
  | inr v ↦
      let g = p.hand_flow in
      let l : Limits f p = (ground arith, ground arith) in
      let q = if g.auto_transmit && not f.auto_transmit then set_xon_holding p else p in
      let s = changed-Settled g f q (
        set_xon_holding-Ready g f p (g.auto_transmit && not f.auto_transmit) (parts g p c, w, l)) in
      rw v (same_or_held f _ _ (refl, s.0))
]
