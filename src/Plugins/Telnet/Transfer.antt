-- ===== src/Plugins/Telnet/Transfer.antt =====
-- Data through a TELNET connection (hub4com/plugins/telnet/telnet.cpp): what `Encode` writes,
-- `Decode` reads back, and a sub-negotiation arrives with its parameters.
use com0com.Base.{
  ℕ, List, [], ◌∷◌, ◌++◌, ◌==◌, ◌≡◌, ◌≢◌, refl, sym, ap, ◌∙◌, arith, if◌then◌else◌, none, some,
  append-nil, append_assoc, Option-cases, Bool-cases, inl, inr, ◌&&◌,
}
use com0com.Plugins.Telnet.Code.{cd_sb, cd_iac}
use com0com.Plugins.Telnet.{
  Protocol, st_data, st_sub_params, st_sub_code, decode_in, decode_bytes, encode_bytes, pads,
  escape_params, in_data, in_code, in_sub_params, in_sub_code, in_option,
}

-- One round of the loop.
pub decode_bytes-cons :
    (x : ℕ) (xs : List ℕ) (p r : Protocol)
    → decode_in p.state x p ≡ some r
    → decode_bytes p (x ∷ xs) ≡ decode_bytes r xs
unfolding decode_bytes
decode_bytes-cons x xs p r h = rw (h, decode_bytes)

decode_bytes-cons_none :
    (x : ℕ) (xs : List ℕ) (p : Protocol)
    → decode_in p.state x p ≡ none
    → decode_bytes p (x ∷ xs) ≡ none
unfolding decode_bytes
decode_bytes-cons_none x xs p h = rw (h, decode_bytes)

-- Bytes decoded in two pieces, as the two messages that carry them.
pub decode_bytes-append :
    (xs ys : List ℕ) (p q : Protocol)
    → decode_bytes p xs ≡ some q
    → decode_bytes p (xs ++ ys) ≡ decode_bytes q ys
unfolding decode_bytes
decode_bytes-append [] ys p q e = ground arith
decode_bytes-append (x ∷ xs) ys p q e = elim (Option-cases (decode_in p.state x p)) [
  | inl h ↦ cc (sym (decode_bytes-cons_none x xs p h) ∙ e)
  | inr (r, h) ↦
      decode_bytes-cons x (xs ++ ys) p r h
      ∙ decode_bytes-append xs ys r q (sym (decode_bytes-cons x xs p r h) ∙ e)
]

abbrev pub received : List ℕ → Protocol → Protocol
received bs p = record p { stream_decoded = p.stream_decoded ++ bs }

-- One byte of data, doubled if it is IAC.
decode_byte :
    (ch : ℕ) (p : Protocol)
    → p.state ≡ st_data
    → decode_bytes p (if ch == cd_iac then ch ∷ ch ∷ [] else ch ∷ []) ≡ some (received (ch ∷ []) p)
unfolding decode_bytes decode_in in_data in_code
decode_byte ch p e = ground arith

-- Bytes that hold no IAC.
abbrev pub NoIac : List ℕ → Type 0
NoIac [] = Unit {0}
NoIac (b ∷ bs) = (b ≢ cd_iac) × NoIac bs

decode_plain :
    (bs : List ℕ) (p : Protocol)
    → NoIac bs
    → p.state ≡ st_data
    → decode_bytes p bs ≡ some (received bs p)
decode_plain [] p n e = unfold decode_bytes in ap some (ground (arith, append-nil p.stream_decoded))
decode_plain (b ∷ bs) p n e =
    let h : decode_in p.state b p ≡ some (received (b ∷ []) p) =
      unfold decode_in in_data in ground arith in
    decode_bytes-cons b bs p (received (b ∷ []) p) h
    ∙ decode_plain bs (received (b ∷ []) p) n.1 e
    ∙ ap (λ l. some (record p { stream_decoded = l })) (append_assoc p.stream_decoded (b ∷ []) bs)

-- What the far end gets: the padding goes behind each CR.
abbrev pub padding : Protocol → ℕ → List ℕ
padding p ch = if ch == 13 && pads p then p.ascii_cr_padding else []

abbrev pub padded : Protocol → List ℕ → List ℕ
padded p [] = []
padded p (ch ∷ bs) = ch ∷ (padding p ch ++ padded p bs)

NoIac-padding : (p : Protocol) (ch : ℕ) → NoIac p.ascii_cr_padding → NoIac (padding p ch)
NoIac-padding p ch n = elim (Bool-cases (ch == 13 && pads p)) [ inl e ↦ rw e n | inr e ↦ rw e tt ]

received_twice :
    (xs ys zs : List ℕ) (q : Protocol)
    → received zs (received ys (received xs q)) ≡ received (xs ++ (ys ++ zs)) q
received_twice xs ys zs q =
    ap (λ l. record q { stream_decoded = l })
      (append_assoc (q.stream_decoded ++ xs) ys zs ∙ append_assoc q.stream_decoded xs (ys ++ zs))

-- What `Encode` of one end writes, `Decode` of the other reads back: the same data, with the CR
-- padding where that is on. The padding goes out as it is, so it must hold no IAC, and the other end
-- is between data.
pub decode-encode :
    (bs : List ℕ) (p q : Protocol)
    → NoIac p.ascii_cr_padding
    → q.state ≡ st_data
    → decode_bytes q (encode_bytes p bs) ≡ some (received (padded p bs) q)
unfolding encode_bytes
decode-encode [] p q n e =
    unfold decode_bytes in ap some (ground (arith, append-nil q.stream_decoded))
decode-encode (ch ∷ bs) p q n e =
    let pad = padding p ch in
    let q1 = received (ch ∷ []) q in
    let q2 = received pad q1 in
    decode_bytes-append _ (pad ++ encode_bytes p bs) q q1 (decode_byte ch q e)
    ∙ decode_bytes-append pad (encode_bytes p bs) q1 q2
        (decode_plain pad q1 (NoIac-padding p ch n) e)
    ∙ decode-encode bs p q2 n e
    ∙ ap some (received_twice (ch ∷ []) pad (padded p bs) q)

abbrev pub collected : List ℕ → Protocol → Protocol
collected bs p = record p { params = p.params ++ bs }

-- One parameter byte of a sub-negotiation.
decode_param :
    (b : ℕ) (p : Protocol)
    → p.state ≡ st_sub_params
    → decode_bytes p (if b == cd_iac then b ∷ b ∷ [] else b ∷ []) ≡ some (collected (b ∷ []) p)
unfolding decode_bytes decode_in in_sub_params in_sub_code
decode_param b p e = ground arith

escape_params-cons :
    (b : ℕ) (bs : List ℕ)
    → escape_params (b ∷ bs) ≡ (if b == cd_iac then b ∷ b ∷ [] else b ∷ []) ++ escape_params bs
unfolding escape_params
escape_params-cons b bs = ground arith

decode_params :
    (bs : List ℕ) (p : Protocol)
    → p.state ≡ st_sub_params
    → decode_bytes p (escape_params bs) ≡ some (collected bs p)
unfolding escape_params
decode_params [] p e = unfold decode_bytes in ap some (ground (arith, append-nil p.params))
decode_params (b ∷ bs) p e =
    ap (decode_bytes p) (escape_params-cons b bs)
    ∙ decode_bytes-append _ (escape_params bs) p (collected (b ∷ []) p) (decode_param b p e)
    ∙ decode_params bs (collected (b ∷ []) p) e
    ∙ ap (λ l. some (record p { params = l })) (append_assoc p.params (b ∷ []) bs)

-- The start of a sub-negotiation: IAC SB and the option.
decode_sub_start :
    (o : ℕ) (p : Protocol)
    → p.state ≡ st_data
    → decode_bytes p (cd_iac ∷ cd_sb ∷ o ∷ [])
      ≡ some (record p { state = st_sub_params; code = cd_sb; option = o; params = [] })
unfolding decode_bytes decode_in in_data in_code in_option
decode_sub_start o p e = ground arith

-- The parameters that `SendSubNegotiation` of one end writes are those that the other end has when
-- it comes to the closing SE, for any parameter bytes, IAC among them, if it was between data.
pub decode_sub_negotiation :
    (o : ℕ) (ps rest : List ℕ) (p : Protocol)
    → p.state ≡ st_data
    → decode_bytes p (cd_iac ∷ cd_sb ∷ o ∷ (escape_params ps ++ cd_iac ∷ rest))
      ≡ decode_bytes (record p { state = st_sub_code; code = cd_sb; option = o; params = ps }) rest
decode_sub_negotiation o ps rest p e =
    let p1 = record p { state = st_sub_params; code = cd_sb; option = o; params = [] } in
    let h : decode_in st_sub_params cd_iac (collected ps p1)
        ≡ some (record p1 { state = st_sub_code; params = ps }) =
      unfold decode_in in_sub_params in refl in
    decode_bytes-append (cd_iac ∷ cd_sb ∷ o ∷ []) (escape_params ps ++ cd_iac ∷ rest) p p1
      (decode_sub_start o p e)
    ∙ decode_bytes-append (escape_params ps) (cd_iac ∷ rest) p1 (collected ps p1)
        (decode_params ps p1 refl)
    ∙ decode_bytes-cons cd_iac rest (collected ps p1) _ h
