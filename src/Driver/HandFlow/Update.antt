-- ===== src/Driver/HandFlow/Update.antt =====
-- `UpdateHandFlow` of com0com/sys/handflow.c, after SERIAL_TRANSMIT_TOGGLE was set.
use com0com.Base.{
  ℕ, Bool, true, false, not, ◌&&◌, List, [], ◌∷◌, if◌then◌else◌, Option, some, none, ◌≡◌, refl, ap,
  ap₂, ◌∙◌, Bool-cases, inl, inr, arith,
}
use com0com.Driver.HandFlow.{
  other, HandFlow, Port, Lines, full, drained, any, is_handshake, update_hand_flow, set_hand_flow,
  invalid, no_lines, switch, switch_if, set_remote, wired, set_modem_status_holding,
  set_xon_holding, same, same_line, change_hand_flow,
}
use com0com.Driver.HandFlow.Remote.{auto_receive-Received, set_xon_holding-SameRemote}

-- Calls as characters come in and are read, each with what is then in the buffer.
unfoldable pub updates : List (Bool × ℕ) → Port → Port
updates [] p = p
updates ((freed, n) ∷ xs) p = updates xs (update_hand_flow freed (record p { busy = n })).0

abbrev Stuck : Port → Type 0
Stuck p = (p.remote.cts ≡ true) × (p.hand_flow.rts ≡ other)

update_hand_flow-Stuck : (freed : Bool) (p : Port) → Stuck p → Stuck (update_hand_flow freed p).0
unfolding update_hand_flow
update_hand_flow-Stuck freed p h =
    let a : any p.remote ≡ true = ground arith in
    let c : (p.remote.cts && not (is_handshake p.hand_flow.rts)) ≡ true =
      ap₂ (λ x l. x && not (is_handshake l)) h.0 h.1 in
    elim (Bool-cases (freed && drained p.hand_flow p)) [
      | inl d ↦ rw (a, d) (c, h.1)
      | inr d ↦ rw (a, d) h
    ]

updates-Stuck : (xs : List (Bool × ℕ)) (p : Port) → Stuck p → Stuck (updates xs p)
unfolding updates
updates-Stuck [] p h = h
updates-Stuck ((freed, n) ∷ xs) p h =
    updates-Stuck xs (update_hand_flow freed (record p { busy = n })).0
      (update_hand_flow-Stuck freed (record p { busy = n }) h)

-- Nothing happens on the remote side when characters come in.
abbrev pub Idle : Port → Type 0
Idle p = update_hand_flow false p ≡ (p, no_lines)

Stuck-Idle : (p : Port) → Stuck p → Idle p
unfolding update_hand_flow
Stuck-Idle p h = let a : any p.remote ≡ true = ground arith in rw a refl

waits_on : (r w f d : Bool) → (switch_if r other w f d).0 ≡ w
unfolding switch
waits_on true w f d = refl
waits_on false w f d = refl

set_remote-waits :
    (r d a : Bool) (f : HandFlow) (p : Port)
    → (set_remote r d a (record f { rts = other }) p).0.remote.cts ≡ p.remote.cts
unfolding set_remote
set_remote-waits r d true f p =
    let g = record f { rts = other } in
    (auto_receive-Received g (wired r d g p)).0.0 ∙ waits_on r p.remote.cts (full g p) (drained g p)
set_remote-waits r d false f p =
    let g = record f { rts = other } in waits_on r p.remote.cts (full g p) (drained g p)

kept_cts :
    (f : HandFlow) (c : Bool) (q : Port)
    → (q.remote.cts ≡ true) × (q.hand_flow.rts ≡ other)
    → Stuck (if c then q else set_modem_status_holding q)
unfolding set_modem_status_holding
kept_cts f true q h = h
kept_cts f false q h = h

xon_cts : (c : Bool) (p : Port) → (if c then set_xon_holding p else p).remote.cts ≡ p.remote.cts
xon_cts true p = ap (λ r. r.cts) (set_xon_holding-SameRemote p).0
xon_cts false p = refl

abbrev pub IdleAfter : List (Bool × ℕ) → ℕ → Option (Port × Lines) → Type 0
IdleAfter xs n none = ⊥
IdleAfter xs n (some r) = Idle (record (updates xs r.0) { busy = n })

-- Where SERIAL_TRANSMIT_TOGGLE is set while the remote side waits for CTS, the remote side waits on
-- as long as the settings stay: whatever is read and comes in, UpdateHandFlow does nothing when characters come
-- in, with any number of them in the buffer and whatever DTR handshake or XOFF the settings ask for.
pub set_hand_flow-IdleAfter :
    (f : HandFlow) (p : Port) (xs : List (Bool × ℕ)) (n : ℕ)
    → p.remote.cts ≡ true
    → invalid (record f { rts = other }) p ≡ false
    → IdleAfter xs n (set_hand_flow (some (record f { rts = other })) p)
unfolding set_hand_flow change_hand_flow
set_hand_flow-IdleAfter f p xs n h v =
    let g = p.hand_flow in
    let k = record f { rts = other } in
    let q = if g.auto_transmit && not f.auto_transmit then set_xon_holding p else p in
    let w =
      set_remote-waits (not (same_line g.rts other)) (not (same_line g.dtr f.dtr))
        (not (same g.auto_receive f.auto_receive)) f q in
    let c = xon_cts (g.auto_transmit && not f.auto_transmit) p in
    rw v (Stuck-Idle _ (updates-Stuck xs _ (kept_cts k _ _ (w ∙ c ∙ h, refl))))
