-- ===== src/Com2tcp/Telnet/Transfer.antt =====
-- Data and sub-negotiations through com2tcp/telnet.cpp.
use com0com.Base.{
  ℕ, Bool, List, [], ◌∷◌, ◌++◌, ◌==◌, ◌≡◌, refl, sym, ap, ◌∙◌, arith, if◌then◌else◌, append-nil,
  append_assoc,
}
use com0com.Plugins.Telnet.{st_data, st_sub_params, escape_params}
use com0com.Plugins.Telnet.Code.{cd_sb, cd_iac, cd_se}
use com0com.Com2tcp.Telnet.{
  Protocol, write_raw, send_bytes, write, write_byte, in_data, in_code, in_option, in_sub_params,
  in_sub_code, op_terminal_type, send_sub_negotiation, send_option,
}

send_bytes-cons :
    (b : ℕ) (bs : List ℕ)
    → send_bytes (b ∷ bs) ≡ (if b == cd_iac then b ∷ b ∷ [] else b ∷ []) ++ send_bytes bs
unfolding send_bytes
send_bytes-cons b bs = ground arith

escape_params-cons :
    (b : ℕ) (bs : List ℕ)
    → escape_params (b ∷ bs) ≡ (if b == cd_iac then b ∷ b ∷ [] else b ∷ []) ++ escape_params bs
unfolding escape_params
escape_params-cons b bs = ground arith

-- The bytes but IAC.
unfoldable pub without_iac : List ℕ → List ℕ
without_iac [] = []
without_iac (b ∷ bs) = let rest = without_iac bs in if b == cd_iac then rest else b ∷ rest

without_iac-cons :
    (b : ℕ) (bs : List ℕ)
    → without_iac (b ∷ bs) ≡ (if b == cd_iac then [] else b ∷ []) ++ without_iac bs
unfolding without_iac
without_iac-cons b bs = ground arith

abbrev collected : List ℕ → Protocol → Protocol
collected bs p = record p { params = p.params ++ bs }

module _ (signed_fields : Bool) where
  pub write-append :
      (xs ys : List ℕ) (p : Protocol)
      → write signed_fields (xs ++ ys) p ≡ write signed_fields ys (write signed_fields xs p)
  unfolding write
  write-append [] ys p = refl
  write-append (x ∷ xs) ys p = write-append xs ys (write_byte signed_fields p.state x p)

  write-data :
      (ch : ℕ) (p : Protocol)
      → p.state ≡ st_data
      → write signed_fields (if ch == cd_iac then ch ∷ ch ∷ [] else ch ∷ []) p
        ≡ write_raw (ch ∷ []) p
  unfolding write write_byte in_data in_code
  write-data ch p e = ground arith

  -- What `Send` of one end writes, `Write` of the other, which is between data, hands on as it
  -- was, IAC bytes among it.
  pub write-send_bytes :
      (bs : List ℕ) (p : Protocol)
      → p.state ≡ st_data
      → write signed_fields (send_bytes bs) p ≡ write_raw bs p
  unfolding write send_bytes
  write-send_bytes [] p e =
      ap (λ l. record p { stream_write_recv = l }) (sym (append-nil p.stream_write_recv))
  write-send_bytes (b ∷ bs) p e =
      ap (λ l. write signed_fields l p) (send_bytes-cons b bs)
      ∙ write-append (if b == cd_iac then b ∷ b ∷ [] else b ∷ []) (send_bytes bs) p
      ∙ ap (write signed_fields (send_bytes bs)) (write-data b p e)
      ∙ write-send_bytes bs (write_raw (b ∷ []) p) e
      ∙ ap (λ l. record p { stream_write_recv = l }) (append_assoc p.stream_write_recv (b ∷ []) bs)

  write-param :
      (b : ℕ) (p : Protocol)
      → p.state ≡ st_sub_params
      → write signed_fields (if b == cd_iac then b ∷ b ∷ [] else b ∷ []) p
        ≡ collected (if b == cd_iac then [] else b ∷ []) p
  unfolding write write_byte in_sub_params in_sub_code
  write-param b p e = ground (arith, append-nil p.params)

  -- Of the parameters of a sub-negotiation that come with their IAC bytes doubled, those bytes are
  -- lost, and only those.
  pub write-escape_params :
      (bs : List ℕ) (p : Protocol)
      → p.state ≡ st_sub_params
      → write signed_fields (escape_params bs) p ≡ record p { params = p.params ++ without_iac bs }
  unfolding write escape_params without_iac
  write-escape_params [] p e = ap (λ l. record p { params = l }) (sym (append-nil p.params))
  write-escape_params (b ∷ bs) p e =
      let kept = if b == cd_iac then [] else b ∷ [] in
      ap (λ l. write signed_fields l p) (escape_params-cons b bs)
      ∙ write-append (if b == cd_iac then b ∷ b ∷ [] else b ∷ []) (escape_params bs) p
      ∙ ap (write signed_fields (escape_params bs)) (write-param b p e)
      ∙ write-escape_params bs (collected kept p) e
      ∙ ap (λ l. record p { params = l })
          (append_assoc p.params kept (without_iac bs)
            ∙ ap (◌++◌ p.params) (sym (without_iac-cons b bs)))

  sub_start :
      (p : Protocol)
      → p.state ≡ st_data
      → write signed_fields (cd_iac ∷ cd_sb ∷ op_terminal_type ∷ []) p
        ≡ record p { state = st_sub_params; code = cd_sb; option = op_terminal_type; params = [] }
  unfolding write write_byte in_data in_code in_option
  sub_start p e = ground arith

  abbrev answered : Protocol → Protocol
  answered p = record p {
    state = st_data;
    code = cd_sb;
    option = op_terminal_type;
    params = 0 ∷ p.terminal_type;
    stream_send_read =
        (p.stream_send_read ++ cd_iac ∷ cd_sb ∷ op_terminal_type ∷ [])
        ++ ((0 ∷ p.terminal_type) ++ cd_iac ∷ cd_se ∷ []);
  }

  sub_end :
      (ps : List ℕ) (p : Protocol)
      → write signed_fields
          (cd_iac ∷ cd_se ∷ [])
          (record p { state = st_sub_params; code = cd_sb; option = op_terminal_type; params = ps })
        ≡ answered p
  unfolding write write_byte in_sub_params in_sub_code send_sub_negotiation send_option
  sub_end ps p = refl

  -- Any sub-negotiation about the terminal type, whatever its parameters, is answered by IS and the
  -- name, and the protocol, which was between data, is so again.
  pub write-terminal_type :
      (ps : List ℕ) (p : Protocol)
      → p.state ≡ st_data
      → write signed_fields
          (cd_iac ∷ cd_sb ∷ op_terminal_type ∷ (escape_params ps ++ cd_iac ∷ cd_se ∷ []))
          p
        ≡ record p {
          state = st_data;
          code = cd_sb;
          option = op_terminal_type;
          params = 0 ∷ p.terminal_type;
          stream_send_read =
              (p.stream_send_read ++ cd_iac ∷ cd_sb ∷ op_terminal_type ∷ [])
              ++ ((0 ∷ p.terminal_type) ++ cd_iac ∷ cd_se ∷ []);
        }
  write-terminal_type ps p e =
      let q : Protocol = record p {
        state = st_sub_params;
        code = cd_sb;
        option = op_terminal_type;
        params = [];
      } in
      write-append (cd_iac ∷ cd_sb ∷ op_terminal_type ∷ [])
        (escape_params ps ++ cd_iac ∷ cd_se ∷ []) p
      ∙ ap (write signed_fields (escape_params ps ++ cd_iac ∷ cd_se ∷ [])) (sub_start p e)
      ∙ write-append (escape_params ps) (cd_iac ∷ cd_se ∷ []) q
      ∙ ap (write signed_fields (cd_iac ∷ cd_se ∷ [])) (write-escape_params ps q refl)
      ∙ sub_end (without_iac ps) p
