-- ===== src/Plugins/ComPort/LineControl.antt =====
-- SET-DATASIZE, SET-PARITY and SET-STOPSIZE between the client and the server of
-- hub4com/plugins/telnet/opt_comport.cpp.
use com0com.Base.{
  ℕ, Bool, true, false, ◌||◌, List, [], ◌∷◌, ◌++◌, map, ◌==◌, nonzero, Option, some, bit_and,
  bit_or, ◌≡◌, refl, sym, ap, ap₂, subst, Bool-cases, inl, inr, arith,
}
use com0com.Hub.Word.{
  go1_rlc_status, so_set_lc, lc_mask_bytesize, lc_mask_parity, lc_mask_stopbits, lc2val_bytesize,
  lc2val_parity, lc2val_stopbits, val2lc_bytesize, val2lc_parity, val2lc_stopbits,
}
use com0com.Hub.Msg
use com0com.Hub.Msg.{Msg}
use com0com.Plugins.ComPort.{
  Winbase, Masks, val_msg, p2v_parity, v2p_parity, p2v_stop_size, v2p_stop_size,
}
use com0com.Plugins.ComPort.Client
use com0com.Plugins.ComPort.Client.{when}
use com0com.Plugins.ComPort.Server
use com0com.Plugins.ComPort.Server.{Server}

-- The values that winbase.h has.
abbrev pub is_parity : Winbase → ℕ → Bool
is_parity w v =
    v == w.no_parity
    || v == w.odd_parity
    || v == w.even_parity
    || v == w.mark_parity
    || v == w.space_parity

abbrev pub is_stop_bits : Winbase → ℕ → Bool
is_stop_bits w v = v == w.one_stop_bit || v == w.one5_stop_bits || v == w.two_stop_bits

p2v-v2p_parity : (w : Winbase) (v : ℕ) → is_parity w v ≡ true → p2v_parity w (v2p_parity w v) ≡ v
unfolding p2v_parity v2p_parity
p2v-v2p_parity w v h = ground arith

v2p_parity-nonzero : (w : Winbase) (v : ℕ) → nonzero (v2p_parity w v) ≡ true
unfolding v2p_parity
v2p_parity-nonzero w v = ground arith

p2v-v2p_stop_size :
    (w : Winbase) (v : ℕ) → is_stop_bits w v ≡ true → p2v_stop_size w (v2p_stop_size w v) ≡ v
unfolding p2v_stop_size v2p_stop_size
p2v-v2p_stop_size w v h = ground arith

v2p_stop_size-nonzero : (w : Winbase) (v : ℕ) → nonzero (v2p_stop_size w v) ≡ true
unfolding v2p_stop_size
v2p_stop_size-nonzero w v = ground arith

-- The message that a server inserts for a field that it does not have so.
on_lc-inserts :
    (w : Winbase) (m : Masks) (mask field par val : ℕ) (s : Server)
    → nonzero (bit_and m.go1 go1_rlc_status) ≡ true
    → nonzero par ≡ true
    → (bit_and s.lc field == val) ≡ false
    → (Server.on_lc w m mask field par val s).inserted ≡ some (val_msg Msg.rlc_status val)
unfolding Server.on_lc
on_lc-inserts w m mask field par val s g p d =
    elim (Bool-cases (nonzero (bit_and m.so so_set_lc))) [
      | inl o ↦ rw (p, d, g, o) refl
      | inr o ↦ rw (p, d, g, o) refl
    ]

map-when :
    {A B : Type 0} (f : A → B) (c : Bool) {a : A} {b : B} → f a ≡ b → map f (when c a) ≡ when c b
map-when f true h = ap (λ b. b ∷ []) h
map-when f false h = refl

map-when_append :
    {A B : Type 0} (f : A → B) (c : Bool) {a : A} {b : B} (xs : List A) {ys : List B}
    → f a ≡ b
    → map f xs ≡ ys
    → map f (when c a ++ xs) ≡ when c b ++ ys
map-when_append f true xs h r = ap₂ (λ b bs. b ∷ bs) h r
map-when_append f false xs h r = r

-- The fields of a line control value, each with its mask bit.
abbrev pub bytesize_of : ℕ → ℕ
bytesize_of lc = bit_or (val2lc_bytesize (lc2val_bytesize lc)) lc_mask_bytesize

abbrev pub parity_of : ℕ → ℕ
parity_of lc = bit_or (val2lc_parity (lc2val_parity lc)) lc_mask_parity

abbrev pub stopbits_of : ℕ → ℕ
stopbits_of lc = bit_or (val2lc_stopbits (lc2val_stopbits lc)) lc_mask_stopbits

abbrev pub rlc : ℕ → Option Msg
rlc v = some (val_msg Msg.rlc_status v)

-- A server whose line control has none of the fields of `lc`.
abbrev pub Differs : ℕ → Server → Type 0
Differs lc s =
    ((bit_and s.lc 0x10000ff == bytesize_of lc) ≡ false)
    × ((bit_and s.lc 0x200ff00 == parity_of lc) ≡ false)
    × ((bit_and s.lc 0x4ff0000 == stopbits_of lc) ≡ false)

abbrev pub Valid : Winbase → ℕ → Type 0
Valid w lc =
    (nonzero (lc2val_bytesize lc) ≡ true)
    × (is_parity w (lc2val_parity lc) ≡ true)
    × (is_stop_bits w (lc2val_stopbits lc) ≡ true)

module _ (w : Winbase) (m : Masks) (s : Server) (lc : ℕ)
    (asked : nonzero (bit_and m.go1 go1_rlc_status) ≡ true) (valid : Valid w lc)
    (differs : Differs lc s) where
  -- What the server puts into the stream on a request.
  inserted_on : List ℕ → Option Msg
  inserted_on ps = (Server.on_sub_negotiation w m ps s).inserted

  bytesize-inserted : inserted_on (2 ∷ lc2val_bytesize lc ∷ []) ≡ rlc (bytesize_of lc)
  unfolding inserted_on Server.on_sub_negotiation Server.on_par
  bytesize-inserted =
      on_lc-inserts w m lc_mask_bytesize 0x10000ff (lc2val_bytesize lc) (bytesize_of lc) s asked
        valid.0 differs.0

  parity-inserted : inserted_on (3 ∷ v2p_parity w (lc2val_parity lc) ∷ []) ≡ rlc (parity_of lc)
  unfolding inserted_on Server.on_sub_negotiation Server.on_par
  parity-inserted =
      let par = v2p_parity w (lc2val_parity lc) in
      let same : p2v_parity w par ≡ lc2val_parity lc =
        p2v-v2p_parity w (lc2val_parity lc) valid.1 in
      let read = λ (v : ℕ). bit_or (val2lc_parity v) lc_mask_parity in
      subst
        (λ (v : ℕ).
          (Server.on_lc w m lc_mask_parity 0x200ff00 par (read v) s).inserted ≡ rlc (parity_of lc))
        (sym same)
        (on_lc-inserts w m lc_mask_parity 0x200ff00 par (parity_of lc) s asked
          (v2p_parity-nonzero w (lc2val_parity lc)) differs.1)

  stopbits-inserted :
      inserted_on (4 ∷ v2p_stop_size w (lc2val_stopbits lc) ∷ []) ≡ rlc (stopbits_of lc)
  unfolding inserted_on Server.on_sub_negotiation Server.on_par
  stopbits-inserted =
      let par = v2p_stop_size w (lc2val_stopbits lc) in
      let same : p2v_stop_size w par ≡ lc2val_stopbits lc =
        p2v-v2p_stop_size w (lc2val_stopbits lc) valid.2 in
      let read = λ (v : ℕ). bit_or (val2lc_stopbits v) lc_mask_stopbits in
      subst
        (λ (v : ℕ).
          (Server.on_lc w m lc_mask_stopbits 0x4ff0000 par (read v) s).inserted
          ≡ rlc (stopbits_of lc))
        (sym same)
        (on_lc-inserts w m lc_mask_stopbits 0x4ff0000 par (stopbits_of lc) s asked
          (v2p_stop_size-nonzero w (lc2val_stopbits lc)) differs.2)

  -- The client asks for just the fields whose mask bits are set, and the server reads each request
  -- as RLC_STATUS with that field of the value and its mask bit. This is for a byte size that is not
  -- 0, a parity and stop bits of winbase.h, and a server that has none of the fields so, whose
  -- RLC_STATUS is asked for.
  pub set_lc-inserted :
      map (λ ps. (Server.on_sub_negotiation w m ps s).inserted) (Client.set_lc w lc)
      ≡ when (nonzero (bit_and lc lc_mask_bytesize)) (rlc (bytesize_of lc))
        ++ (when (nonzero (bit_and lc lc_mask_parity)) (rlc (parity_of lc))
            ++ when (nonzero (bit_and lc lc_mask_stopbits)) (rlc (stopbits_of lc)))
  unfolding Client.set_lc inserted_on
  set_lc-inserted =
      let f = λ (ps : List ℕ). (Server.on_sub_negotiation w m ps s).inserted in
      map-when_append f (nonzero (bit_and lc lc_mask_bytesize)) _ bytesize-inserted (
        map-when_append f (nonzero (bit_and lc lc_mask_parity)) _ parity-inserted
          (map-when f (nonzero (bit_and lc lc_mask_stopbits)) stopbits-inserted))
