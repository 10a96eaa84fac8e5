-- ===== src/Plugins/ComPort/BaudRate.antt =====
-- SET-BAUDRATE between the client and the server of hub4com/plugins/telnet/opt_comport.cpp.
use com0com.Base.{
  ℕ, ◌/◌, ◌^◌, ◌<◌, true, false, not, ◌&&◌, List, [], ◌∷◌, ◌==◌, nonzero, some, bit_and, ◌≡◌, ◌≢◌,
  refl, ap, ◌∙◌, sym, subst, ◌⊎◌, inl, inr, Bool-cases, arith,
}
use com0com.Hub.Word.{byte, go1_rbr_status, so_set_br}
use com0com.Hub.Msg
use com0com.Plugins.ComPort.{
  Winbase, Masks, ComPort, Answer, val_msg, br_params, par_br, lbr_status, go0_lbr_status,
}
use com0com.Plugins.ComPort.Client
use com0com.Plugins.ComPort.Server
use com0com.Plugins.ComPort.Server.{Server}

-- The one request that was sent, as the other side takes it.
abbrev pub Taken : {S : Type 0} → (List ℕ → Answer S) → (Answer S → Type 0) → List (List ℕ) → Type 0
Taken f P (ps ∷ []) = P (f ps)
Taken f P _ = ⊥

pub par_br-bytes :
    (br : ℕ)
    → br < 2 ^ 32
    → par_br (byte (br / 2 ^ 24)) (byte (br / 2 ^ 16)) (byte (br / 256)) (byte br) ≡ br
par_br-bytes br h = omega arith

-- What the server does with a new rate that its owner can set.
set_br-passed :
    (m : Masks) (br : ℕ) (s : Server)
    → 0 < br
    → s.br ≢ br
    → nonzero (bit_and m.go1 go1_rbr_status) ≡ true
    → nonzero (bit_and m.so so_set_br) ≡ true
    → Server.on_br m br s ≡ (record {
      state = record s { br = 0; br_send = true };
      sent = [];
      inserted = some (val_msg Msg.rbr_status br);
      ok = true;
    })
unfolding Server.on_br
set_br-passed m br s h ne g o =
    let t : (nonzero br && not (s.br == br)) ≡ true = ground arith in rw (t, g, o) refl

set_br-on_br :
    (w : Winbase) (m : Masks) (br : ℕ) (s : Server)
    → br < 2 ^ 32
    → Server.on_sub_negotiation w m (br_params 1 br) s ≡ Server.on_br m br s
unfolding Server.on_sub_negotiation
set_br-on_br w m br s h = ap (λ x. Server.on_br m x s) (par_br-bytes br h)

answer-on_br :
    (w : Winbase) (m : Masks) (br : ℕ) (c : ComPort)
    → br < 2 ^ 32
    → Client.on_sub_negotiation w m (br_params 101 br) c ≡ Client.on_br m br c
unfolding Client.on_sub_negotiation
answer-on_br w m br c h = ap (λ x. Client.on_br m x c) (par_br-bytes br h)

-- The message that the client makes of an answer.
abbrev pub Reported : Masks → ℕ → Answer ComPort → Type 0
Reported m br a = (a.inserted ≡ some (val_msg lbr_status br)) × (a.ok ≡ true)

on_br-Reported :
    (m : Masks) (br : ℕ) (c : ComPort)
    → 0 < br
    → nonzero (bit_and m.go0 go0_lbr_status) ≡ true
    → Reported m br (Client.on_br m br c)
unfolding Client.on_br
on_br-Reported m br c h g =
    let t : (br == 0) ≡ false = ground arith in
    let call : Client.on_br m br c
        ≡ record { state = c; sent = []; inserted = some (val_msg lbr_status br); ok = true } =
      rw (t, g) refl in
    subst (Reported m br) (sym call) (refl, refl)

-- The rate that is set behind a request is reported to the other side.
abbrev pub Settles : Winbase → Masks → ℕ → ComPort → Server → Type 0
Settles w m set c s =
    Taken (λ ps. Client.on_sub_negotiation w m ps c) (Reported m set) ((Server.set_br set s).1)

set_br-Settles :
    (w : Winbase) (m : Masks) (set : ℕ) (c : ComPort) (s : Server)
    → 0 < set
    → set < 2 ^ 32
    → nonzero (bit_and m.go0 go0_lbr_status) ≡ true
    → s.br_send ≡ true
    → Settles w m set c s
unfolding Server.set_br
set_br-Settles w m set c s h lt g e =
    let t : (nonzero set && s.br_send) ≡ true = ground arith in
    let call : Server.set_br set s
        ≡ (record s { br = set; br_send = false }, br_params 101 set ∷ []) =
      rw t refl in
    subst (λ r. Taken (λ ps. Client.on_sub_negotiation w m ps c) (Reported m set) r.1) (sym call)
      (subst (Reported m set) (sym (answer-on_br w m set c lt)) (on_br-Reported m set c h g))

-- A server hands the rate on, and will report the rate that is set.
abbrev pub Passes : Winbase → Masks → ℕ → ℕ → ComPort → Answer Server → Type 0
Passes w m br set c a =
    (a.inserted ≡ some (val_msg Msg.rbr_status br))
    × (a.sent ≡ [])
    × (a.ok ≡ true)
    × Settles w m set c a.state

-- The client's only request for the rate `br` makes the server put RBR_STATUS `br` into the stream
-- and answer nothing yet; when the rate `set` is then set at the server, its only answer makes the
-- client put LBR_STATUS `set` into the stream. This is for rates from 1 to 2 ^ 32 - 1, where the
-- server has another rate, RBR_STATUS, SET_BR and LBR_STATUS are asked for, whatever else the
-- states of the two are.
pub set_br-Passes :
    (w : Winbase) (server client : Masks) (br set : ℕ) (s : Server) (c : ComPort)
    → (0 < br) × (br < 2 ^ 32) × (s.br ≢ br)
    → (0 < set) × (set < 2 ^ 32)
    → nonzero (bit_and server.go1 go1_rbr_status) ≡ true
    → nonzero (bit_and server.so so_set_br) ≡ true
    → nonzero (bit_and client.go0 go0_lbr_status) ≡ true
    → Taken
        (λ ps. Server.on_sub_negotiation w server ps s)
        (Passes w client br set c)
        (Client.set_br br)
unfolding Client.set_br
set_br-Passes w server client br set s c b t g o l =
    subst (Passes w client br set c)
      (sym (set_br-on_br w server br s b.1 ∙ set_br-passed server br s b.0 b.2 g o))
      (
        refl,
        refl,
        refl,
        set_br-Settles w client set c (record s { br = 0; br_send = true }) t.0 t.1 l refl,
      )

-- How a request for a rate stands afterwards: answered, or to be answered by the next rate.
abbrev pub Answered : Server × List (List ℕ) → Type 0
Answered r =
    ((r.0.br_send ≡ false) × (r.1 ≡ br_params 101 r.0.br ∷ []))
    ⊎ ((r.0.br_send ≡ true) × (r.1 ≡ []) × (r.0.br ≡ 0))

set_br-Answered : (br : ℕ) (s : Server) → s.br_send ≡ true → Answered (Server.set_br br s)
unfolding Server.set_br
set_br-Answered br s e = elim (Bool-cases (nonzero br)) [
  | inl h ↦ rw (h, e) (inl (refl, refl))
  | inr h ↦ let z : br ≡ 0 = ground arith in rw h (inr (e, refl, z))
]

abbrev pub AnsweredBy : Answer Server → Type 0
AnsweredBy a = Answered (a.state, a.sent)

on_br-Answered : (m : Masks) (br : ℕ) (s : Server) → AnsweredBy (Server.on_br m br s)
unfolding Server.on_br
on_br-Answered m br s = elim (Bool-cases (nonzero br && not (s.br == br))) [
  | inl h ↦ elim (Bool-cases (nonzero (bit_and m.go1 go1_rbr_status))) [
    | inl g ↦ elim (Bool-cases (nonzero (bit_and m.so so_set_br))) [
      | inl o ↦ rw (h, g, o) (inr (refl, refl, refl))
      | inr o ↦ rw (h, g, o) (set_br-Answered br (record s { br = 0; br_send = true }) refl)
    ]
    | inr g ↦ rw (h, g) (set_br-Answered br (record s { br_send = true }) refl)
  ]
  | inr h ↦ rw h (set_br-Answered s.br (record s { br_send = true }) refl)
]

-- A server answers a SET-BAUDRATE request with four bytes at once, with the rate that it then has,
-- and no answer is pending; or it sends nothing, has no rate, and the answer is pending.
pub on_sub_negotiation-Answered :
    (w : Winbase) (m : Masks) (a b c d : ℕ) (s : Server)
    → AnsweredBy (Server.on_sub_negotiation w m (1 ∷ a ∷ b ∷ c ∷ d ∷ []) s)
unfolding Server.on_sub_negotiation
on_sub_negotiation-Answered w m a b c d s = on_br-Answered m (par_br a b c d) s
