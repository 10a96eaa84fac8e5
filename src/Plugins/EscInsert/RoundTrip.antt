-- ===== src/Plugins/EscInsert/RoundTrip.antt =====
-- The escinsert filter (hub4com/plugins/escinsert/filter.cpp) in front of the escparse filter
-- (hub4com/plugins/escparse/filter.cpp): everything that the one puts out, the other can read.
use com0com.Base.{
  ℕ, ◌<◌, ◌^◌, ◌≢◌, Bool, true, false, List, [], ◌∷◌, ◌++◌, ◌==◌, ◌≡◌, refl, sym, ap, ap₂, subst,
  ◌∙◌, arith, nonzero, bit_and, Bool-cases, inl, inr, append-nil, ==_iff,
}
use com0com.Hub.Word.{clear_bits, go1_rbr_status, so_set_br}
use com0com.Hub.Msg
use com0com.Hub.Msg.{Msg}
use com0com.Hub.Chain.{Chain, messages, start, insert_buf, replace_none, replace_buf}
use com0com.Hub.Chain.Content.{
  Event, data_byte, value, bytes, says, said, content, content-messages, said-insert_buf,
}
use com0com.Plugins.Lsrmst.{Lsrmst, IsLsrmst}
use com0com.Plugins.EscParse
use com0com.Plugins.EscParse.{convert}
use com0com.Plugins.EscParse.Frames.{Wants, text, event_if, mode_after, decode}
use com0com.Plugins.EscParse.Refine.{Ready, output, convert-decode, mode_after-append}
use com0com.Plugins.EscInsert.{
  State, Filter, status_bytes, rbr_bytes, rlc_bytes, escape_bytes, insert_here_if, set_val,
  out_set_out_opts, out_set_br, out_set_lc, out_set_pin_state, out_set_lsr, out_line_data,
  out_method, merge_lc,
}
use com0com.Plugins.EscInsert.Frame.{escape_bytes-Says, rbr-Says, mst-Says, nodata-Says, rlc-Says}

-- The data bytes of a stream.
abbrev pub wire : List Event → List ℕ
wire [] = []
wire (data_byte b ∷ es) = b ∷ wire es
wire (value t v ∷ es) = wire es

wire-append : (es fs : List Event) → wire (es ++ fs) ≡ wire es ++ wire fs
wire-append [] fs = refl
wire-append (data_byte b ∷ es) fs = ap (◌∷◌ b) (wire-append es fs)
wire-append (value t v ∷ es) fs = wire-append es fs

wire-bytes : (bs : List ℕ) → wire (bytes bs) ≡ bs
wire-bytes [] = refl
wire-bytes (b ∷ bs) = ap (◌∷◌ b) (wire-bytes bs)

-- The bytes that the chain puts on the line.
pub sent : Chain → List ℕ
sent c = wire (content (messages c))

sent-said : (c : Chain) → sent c ≡ wire (said c)
unfolding sent
sent-said c = ap wire (content-messages c)

sent-insert_buf : (src : List ℕ) (c : Chain) → sent (insert_buf Msg.line_data src c) ≡ sent c ++ src
sent-insert_buf src c =
    sent-said (insert_buf Msg.line_data src c)
    ∙ ap wire (said-insert_buf src c)
    ∙ wire-append (said c) (bytes src)
    ∙ ap₂ ◌++◌ (sym (sent-said c)) (wire-bytes src)

-- A message that is no line data, or is empty, puts nothing on the line.
sent_quiet : (m : Msg) → (m.type == Msg.line_data) ≡ false → sent (start m) ≡ []
unfolding sent says
sent_quiet m e = ground arith

sent-set_val : (v : ℕ) (m : Msg) → sent (start m) ≡ [] → sent (set_val v (start m)) ≡ []
unfolding sent says
sent-set_val v m e = ground arith

sent-replace_none : (m : Msg) → sent (replace_none Msg.empty (start m)) ≡ []
unfolding sent says replace_none
sent-replace_none m = refl

sent_empty : (m : Msg) → m.buf ≡ [] → sent (start m) ≡ []
unfolding sent says
sent_empty m e = ground arith

sent_replaced : (src : List ℕ) (m : Msg) → sent (replace_buf Msg.line_data src (start m)) ≡ src
unfolding sent says replace_buf
sent_replaced src m = ap wire (append-nil (bytes src)) ∙ wire-bytes src

-- A whole number of frames and plain bytes.
abbrev pub Whole : Lsrmst → ℕ → List ℕ → Type 0
Whole sc esc bs = mode_after sc esc text bs ≡ text

-- A filter that wants nothing: for lemmas where only the mode matters.
nothing : Wants
nothing = record { options = 0; mask_mst = 0; mask_lsr = 0 }

module _ (sc : Lsrmst) (esc : ℕ) (q : IsLsrmst sc) where
  Whole-append : (xs ys : List ℕ) → Whole sc esc xs → Whole sc esc ys → Whole sc esc (xs ++ ys)
  Whole-append xs ys h k =
      mode_after-append sc esc text xs ys ∙ ap (λ m. mode_after sc esc m ys) h ∙ k

  insert-Whole :
      (b : Bool) (src : List ℕ) (c : Chain)
      → Whole sc esc (sent c)
      → Whole sc esc src
      → Whole sc esc (sent (insert_here_if b src c))
  insert-Whole true src c h k = rw (sent-insert_buf src c) (Whole-append (sent c) src h k)
  insert-Whole false src c h k = h

  empty-Whole : (c : Chain) → sent c ≡ [] → Whole sc esc (sent c)
  empty-Whole c e = ap (mode_after sc esc text) e

  status-Whole :
      (v : ℕ)
      → Whole sc esc (status_bytes esc sc.mst v) × Whole sc esc (status_bytes esc sc.lsr_nodata v)
  status-Whole v = ((mst-Says sc esc nothing q v).whole, (nodata-Says sc esc nothing q v).whole)

  rbr-Whole : (v : ℕ) → Whole sc esc (rbr_bytes esc v)
  rbr-Whole v = ground arith

-- The chain puts a whole number of frames and plain bytes on the line.
pub Fine : Lsrmst → ℕ → Chain → Type 0
Fine sc esc c = Whole sc esc (sent c)

Fine-insert :
    (sc : Lsrmst) (esc : ℕ) (c : Chain) (src : List ℕ)
    → IsLsrmst sc
    → Whole sc esc src
    → Fine sc esc c
    → Fine sc esc (insert_buf Msg.line_data src c)
unfolding Fine
Fine-insert sc esc c src q k h = insert-Whole sc esc q true src c h k

Fine-empty : (sc : Lsrmst) (esc : ℕ) (c : Chain) → IsLsrmst sc → sent c ≡ [] → Fine sc esc c
unfolding Fine
Fine-empty sc esc c q e = empty-Whole sc esc q c e

module _ (sc : Lsrmst) (f : Filter) (s : State) (m : Msg) (q : IsLsrmst sc) where
  Fine-replaced : Fine sc f.escape_char (replace_none Msg.empty (start m))
  Fine-replaced = Fine-empty sc f.escape_char _ q (sent-replace_none m)

  out_line_data-Fine : Fine sc f.escape_char (out_line_data sc f s m).1
  unfolding out_line_data Fine
  out_line_data-Fine = go m.buf refl
    where
      go : (bs : List ℕ) → m.buf ≡ bs → Fine sc f.escape_char (out_line_data sc f s m).1
      go [] e = rw (e, out_line_data) (empty-Whole sc f.escape_char q (start m) (sent_empty m e))
      go (b ∷ bs) e =
          rw (e, out_line_data)
            (rw sent_replaced (escape_bytes-Says sc f.escape_char nothing q (b ∷ bs)).whole)

  module _ (e : sent (start m) ≡ []) where
    Fine-start : Fine sc f.escape_char (start m)
    Fine-start = Fine-empty sc f.escape_char (start m) q e

    Fine-set_val : (v : ℕ) → Fine sc f.escape_char (set_val v (start m))
    Fine-set_val v = Fine-empty sc f.escape_char (set_val v (start m)) q (sent-set_val v m e)

    out_set_br-Fine : Fine sc f.escape_char (out_set_br f s m).1
    unfolding out_set_br
    out_set_br-Fine =
        let c = replace_none Msg.empty (start m) in
        ground (
          arith,
          Fine-start,
          Fine-replaced,
          Fine-insert sc f.escape_char c (rbr_bytes f.escape_char m.val) q
              (rbr-Whole sc f.escape_char q m.val) Fine-replaced,
        )

    out_set_lc-Fine : Fine sc f.escape_char (out_set_lc f s m).1
    unfolding out_set_lc
    out_set_lc-Fine =
        let c = replace_none Msg.empty (start m) in
        let whole = (rlc-Says sc f.escape_char nothing q (merge_lc s.lc m.val)).whole in
        ground (
          arith,
          Fine-start,
          Fine-replaced,
          Fine-insert sc f.escape_char c (rlc_bytes f.escape_char (merge_lc s.lc m.val)) q whole
              Fine-replaced,
        )

    -- A status behind a fine chain.
    Fine-mst :
        (b : Bool) (v : ℕ) (c : Chain)
        → Fine sc f.escape_char c
        → Fine sc f.escape_char (insert_here_if b (status_bytes f.escape_char sc.mst v) c)
    Fine-mst true v c h = Fine-insert sc f.escape_char c _ q (status-Whole sc f.escape_char q v).0 h
    Fine-mst false v c h = h

    Fine-nodata :
        (b : Bool) (v : ℕ) (c : Chain)
        → Fine sc f.escape_char c
        → Fine sc f.escape_char (insert_here_if b (status_bytes f.escape_char sc.lsr_nodata v) c)
    Fine-nodata true v c h =
        Fine-insert sc f.escape_char c _ q (status-Whole sc f.escape_char q v).1 h
    Fine-nodata false v c h = h

    out_set_pin_state-Fine : Fine sc f.escape_char (out_set_pin_state sc f s m).1
    unfolding out_set_pin_state
    out_set_pin_state-Fine = grind (arith, Fine-start, Fine-set_val, Fine-mst, Fine-nodata)

    out_set_lsr-Fine : Fine sc f.escape_char (out_set_lsr sc f s m).1
    unfolding out_set_lsr
    out_set_lsr-Fine = Fine-nodata _ _ _ (Fine-set_val _)

    out_method_quiet : Fine sc f.escape_char (out_method sc f s m).1
    unfolding out_method out_set_out_opts
    out_method_quiet = ground (
      arith,
      Fine-start,
      Fine-set_val (clear_bits m.val f.so_mask),
      out_set_br-Fine,
      out_set_lc-Fine,
      out_set_pin_state-Fine,
      out_set_lsr-Fine,
      out_line_data-Fine,
    )

  out_method_data : (m.type == Msg.line_data) ≡ true → out_method sc f s m ≡ out_line_data sc f s m
  unfolding out_method
  out_method_data e = ground arith

-- Whatever message the filter is given, and in whatever state it is, the bytes that it puts on the
-- line are a whole number of frames and plain bytes: a parser that was between frames is so again.
-- The codes of the stream are as documented.
pub out_method-Fine :
    (sc : Lsrmst) (f : Filter) (s : State) (m : Msg)
    → IsLsrmst sc
    → Fine sc f.escape_char (out_method sc f s m).1
out_method-Fine sc f s m q = elim (Bool-cases (m.type == Msg.line_data)) [
  | inl e ↦
      subst (λ (r : State × Chain). Fine sc f.escape_char r.1) (sym (out_method_data sc f s m q e))
        (out_line_data-Fine sc f s m q)
  | inr e ↦ out_method_quiet sc f s m q (sent_quiet m e)
]

line_data_buf :
    (sc : Lsrmst) (f : Filter) (s : State) (m : Msg)
    → (out_line_data sc f s m).1.here.buf ≡ escape_bytes sc f.escape_char m.buf
unfolding out_line_data escape_bytes replace_buf
line_data_buf sc f s m = ground arith

-- Line data that went through escinsert comes out of escparse as it was, and leaves escparse ready
-- between frames, if both have the same escape character.
pub convert-out_method :
    (sc : Lsrmst) (f : Filter) (w : Wants)
    → IsLsrmst sc
    → (s : State) (t : EscParse.State) (m : Msg) → m.type ≡ Msg.line_data
    → Ready sc w text t
    → let r = convert sc f.escape_char t (out_method sc f s m).1.here in
      (output r ≡ bytes m.buf) × Ready sc w text r.st
convert-out_method sc f w q s t m e h =
    let x = escape_bytes-Says sc f.escape_char w q m.buf in
    let p = (out_method sc f s m).1.here in
    let b : p.buf ≡ escape_bytes sc f.escape_char m.buf =
      ap (λ (r : State × Chain). r.1.here.buf)
        (out_method_data sc f s m q ((==_iff m.type Msg.line_data).1 e))
      ∙ line_data_buf sc f s m in
    let (o, y) = convert-decode sc f.escape_char w q text t h p in
    (
      o ∙ ap (decode sc f.escape_char w text) b ∙ x.reads,
      subst (λ k. Ready sc w k (convert sc f.escape_char t p).st)
          (ap (mode_after sc f.escape_char text) b ∙ x.whole) y,
    )

set_br-sent :
    (sc : Lsrmst) (f : Filter) (s : State) (m : Msg)
    → m.type ≡ Msg.set_br
    → s.is_connected ≡ true
    → nonzero (bit_and s.so_mask so_set_br) ≡ true
    → s.br ≢ m.val
    → sent (out_method sc f s m).1 ≡ rbr_bytes f.escape_char m.val
unfolding out_method out_set_br
set_br-sent sc f s m e c o n = ground (
  arith,
  sent-insert_buf (rbr_bytes f.escape_char m.val) (replace_none Msg.empty (start m)),
  sent-replace_none m,
)

-- A new baud rate that escinsert puts on the line of a connected port is what escparse reports,
-- byte for byte, if it was asked to report baud rates; else it reports nothing.
pub convert-out_set_br :
    (sc : Lsrmst) (f : Filter) (w : Wants)
    → IsLsrmst sc
    → (s : State) (t : EscParse.State) (m p : Msg) → m.type ≡ Msg.set_br
    → s.is_connected ≡ true
    → nonzero (bit_and s.so_mask so_set_br) ≡ true
    → s.br ≢ m.val
    → m.val < 2 ^ 32
    → Ready sc w text t
    → p.buf ≡ sent (out_method sc f s m).1
    → output (convert sc f.escape_char t p)
      ≡ event_if (nonzero (bit_and w.options go1_rbr_status)) (value Msg.rbr_status m.val)
convert-out_set_br sc f w q s t m p e c o n l h b =
    (convert-decode sc f.escape_char w q text t h p).0
    ∙ ap (decode sc f.escape_char w text) (b ∙ set_br-sent sc f s m e c o n)
    ∙ (rbr-Says sc f.escape_char w q m.val l).reads
