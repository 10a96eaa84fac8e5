-- ===== src/Driver/Escape/Decode.antt =====
-- The stream that the driver makes on a quiet line (com0com/sys/bufutils.c), read by the grammar of
-- the escaped data stream, which is that of hub4com/plugins/escparse/filter.cpp.
use com0com.Base.{
  ℕ, ◌≢◌, false, List, [], ◌∷◌, ◌++◌, map, ◌==◌, bit_and, ◌≡◌, refl, sym, ap, ◌∙◌, arith,
  map-append, Bool-cases, inl, inr, ==_iff, ==_refl,
}
use com0com.Hub.Chain.Content.{data_byte}
use com0com.Plugins.Lsrmst.{Lsrmst}
use com0com.Plugins.EscParse.Frames.{Wants, text, decode}
use com0com.Driver.Port.{IoPort}
use com0com.Driver.Escape.{Fate, ignored, stripped, xoff, xon, received, fate}
use com0com.Driver.Escape.Arrivals.{char_bytes}
use com0com.Driver.Escape.Quiet.{encode, received_if, received_chars}

module _ (sc : Lsrmst) (w : Wants) (p : IoPort) (h : p.escape_char ≢ 0) where
  esc_ne_zero : (p.escape_char == 0) ≡ false
  esc_ne_zero = ground arith

  decode_char :
      (a : Fate) (cur : ℕ) (bs : List ℕ)
      → decode sc p.escape_char w text (char_bytes sc p a cur ++ bs)
        ≡ map data_byte (received_if a cur) ++ decode sc p.escape_char w text bs
  decode_char received cur bs = elim (Bool-cases (cur == p.escape_char)) [
    | inl t ↦
        rw (t, esc_ne_zero, ==_refl sc.escape)
          (ap (λ x. data_byte x ∷ decode sc p.escape_char w text bs)
            (sym ((==_iff cur p.escape_char).0 t)))
    | inr t ↦ rw (t, esc_ne_zero) refl
  ]
  decode_char ignored cur bs = refl
  decode_char stripped cur bs = refl
  decode_char xoff cur bs = refl
  decode_char xon cur bs = refl

  -- The escaped stream says the characters that were received.
  pub decode-encode :
      (flags mask : ℕ) (cs : List ℕ)
      → decode sc p.escape_char w text (encode sc p flags mask cs)
        ≡ map data_byte (received_chars p flags mask cs)
  unfolding encode received_chars
  decode-encode flags mask [] = refl
  decode-encode flags mask (c ∷ cs) =
      let cur = bit_and c mask in
      let a = fate p flags cur in
      decode_char a cur (encode sc p flags mask cs)
      ∙ ap (◌++◌ (map data_byte (received_if a cur))) (decode-encode flags mask cs)
      ∙ sym (map-append data_byte (received_if a cur) (received_chars p flags mask cs))
